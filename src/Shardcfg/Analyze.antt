-- ===== src/Shardcfg/Analyze.antt =====
-- What `analyze` of shardkv1/shardcfg/shardcfg.go finds: a most and a least loaded group, with
-- the numbers of their shards.
use distributed_system.Shardcfg.{
  Tgid, ShardConfig, count_at, tally, insert_sorted, sort_gids, Load, weigh, weigh_all, no_load,
  analyze, has_key,
}
use distributed_system.Prelude.{
  ==_refl, All, All-imp, All-intro, List, Map, Str, [], ap, arith, comparable_int, count, get,
  get-put, if_cases, if◌then◌else◌, keys, length, length-map, ltb_ℤ, pos, put, refl, suc, true, ℕ,
  ◌+◌, ◌<◌, ◌==◌, ◌∙◌, ◌∷◌, ◌≡◌, ◌≤◌,
}

count_at-put :
    (m : Map Tgid ℕ) (k g : Tgid) (n : ℕ)
    → count_at (put m k n) g ≡ (if k == g then n else count_at m g)
unfolding count_at
count_at-put m k g n = ground (arith, get-put m k g n)

count_at-tally_from :
    (m : Map Tgid ℕ) (gs : List Tgid) (g : Tgid)
    → count_at (tally m gs) g ≡ count_at m g + count g gs
unfolding tally
count_at-tally_from m [] g = omega arith
count_at-tally_from m (h ∷ gs) g =
    let n = count_at m h + 1 in
    let test = comparable_int.exact h g in
    ground (arith, count_at-tally_from (put m h n) gs g, count_at-put m h g n, test)

-- The map that the loop fills holds the number of shards of each group.
pub count_at-tally : (gs : List Tgid) (g : Tgid) → count_at (tally [] gs) g ≡ count g gs
unfolding get count_at
count_at-tally gs g = count_at-tally_from [] gs g ∙ omega arith

pub count-le-length : (g : Tgid) (gs : List Tgid) → count g gs ≤ length gs
count-le-length g [] = omega arith
count-le-length g (h ∷ gs) = ground (arith, count-le-length g gs)

module _ (P : Tgid → Type 0) where
  All-insert_sorted : (g : Tgid) (hs : List Tgid) → P g → All P hs → All P (insert_sorted g hs)
  unfolding insert_sorted
  All-insert_sorted g [] p h = (p, tt)
  All-insert_sorted g (x ∷ hs) p h =
      if_cases (All P) (ltb_ℤ x g) (x ∷ insert_sorted g hs) (g ∷ x ∷ hs)
        (λ _. (h.0, All-insert_sorted g hs p h.1)) (λ _. (p, h))

  All-of_insert_sorted : (g : Tgid) (hs : List Tgid) → All P (insert_sorted g hs) → P g × All P hs
  unfolding insert_sorted
  All-of_insert_sorted g [] = λ h. h
  All-of_insert_sorted g (x ∷ hs) =
      if_cases (λ xs. All P xs → P g × All P (x ∷ hs)) (ltb_ℤ x g) (x ∷ insert_sorted g hs)
        (g ∷ x ∷ hs) (λ _ h. let (p, rest) = All-of_insert_sorted g hs h.1 in (p, (h.0, rest)))
        (λ _ h. h)

  All-sort_gids : (gs : List Tgid) → All P gs → All P (sort_gids gs)
  unfolding sort_gids
  All-sort_gids [] h = tt
  All-sort_gids (g ∷ gs) h = All-insert_sorted g (sort_gids gs) h.0 (All-sort_gids gs h.1)

  All-of_sort_gids : (gs : List Tgid) → All P (sort_gids gs) → All P gs
  unfolding sort_gids
  All-of_sort_gids [] h = tt
  All-of_sort_gids (g ∷ gs) h =
      let (p, rest) = All-of_insert_sorted g (sort_gids gs) h in (p, All-of_sort_gids gs rest)

module _ (counts : Map Tgid ℕ) (P : Tgid → Type 0) where
  -- The counts of a load are those of its groups.
  record IsWeighed (l : Load) : Type 0 where
    most_exact : l.mn ≡ pos (count_at counts l.mg)
    least_exact : l.ln ≡ pos (count_at counts l.lg)
    most_in : P l.mg
    least_in : P l.lg

  record Scans (l l' : Load) (gs : List Tgid) : Type 0 where
    weighed : IsWeighed l'
    most_grows : count_at counts l.mg ≤ count_at counts l'.mg
    least_falls : count_at counts l'.lg ≤ count_at counts l.lg
    bounds :
        All
          (λ g.
            (count_at counts g ≤ count_at counts l'.mg)
            × (count_at counts l'.lg ≤ count_at counts g))
          gs

  weigh-Scans :
      (l : Load) (g : Tgid)
      → IsWeighed l
      → P g
      → Scans l (weigh g (pos (count_at counts g)) l) (g ∷ [])
  unfolding weigh
  weigh-Scans l g v p = ground arith

  weigh_all-Scans :
      (l : Load) (gs : List Tgid) → IsWeighed l → All P gs → Scans l (weigh_all counts l gs) gs
  unfolding weigh_all
  weigh_all-Scans l [] v h = ground arith
  weigh_all-Scans l (g ∷ gs) v h =
      let one = weigh-Scans l g v h.0 in
      let l' = weigh g (pos (count_at counts g)) l in
      let rest = weigh_all-Scans l' gs one.weighed h.1 in ground (arith, one, rest)

  record Found (l : Load) (gs : List Tgid) : Type 0 where
    weighed : IsWeighed l
    bounds :
        All
          (λ g.
            (count_at counts g ≤ count_at counts l.mg) × (count_at counts l.lg ≤ count_at counts g))
          gs

  -- The initial values of `mn` and `ln` give way to the first group.
  weigh-first :
      (g : Tgid)
      → P g
      → count_at counts g < 257
      → Found (weigh g (pos (count_at counts g)) no_load) (g ∷ [])
  unfolding weigh
  weigh-first g p small = ground arith

  weigh_all-Found :
      (gs : List Tgid)
      → 0 < length gs
      → All P gs
      → All (λ g. count_at counts g < 257) gs
      → Found (weigh_all counts no_load gs) gs
  unfolding weigh_all
  weigh_all-Found [] some_group h small = absurd (omega arith)
  weigh_all-Found (g ∷ gs) some_group h small =
      let one = weigh-first g h.0 small.0 in
      let rest = weigh_all-Scans (weigh g (pos (count_at counts g)) no_load) gs one.weighed h.1 in
      ground (arith, one, rest)

-- The extremes of a configuration, over the groups that it has.
pub record IsExtreme (c : ShardConfig) (l : Load) : Type 0 where
  pub most_exact : l.mn ≡ pos (count l.mg c.shards)
  pub least_exact : l.ln ≡ pos (count l.lg c.shards)
  pub most_in : has_key c.groups l.mg ≡ true
  pub least_in : has_key c.groups l.lg ≡ true
  pub bounds :
      All
        (λ g. (count g c.shards ≤ count l.mg c.shards) × (count l.lg c.shards ≤ count g c.shards))
        (keys c.groups)

length-insert_sorted : (g : Tgid) (hs : List Tgid) → length (insert_sorted g hs) ≡ suc (length hs)
unfolding insert_sorted
length-insert_sorted g [] = refl
length-insert_sorted g (x ∷ hs) = ground (arith, length-insert_sorted g hs)

length-sort_gids : (gs : List Tgid) → length (sort_gids gs) ≡ length gs
unfolding sort_gids
length-sort_gids [] = refl
length-sort_gids (g ∷ gs) =
    omega (arith, length-insert_sorted g (sort_gids gs), length-sort_gids gs)

has_key-cons :
    (p : Tgid × List Str) (groups : Map Tgid (List Str)) (g : Tgid)
    → has_key groups g ≡ true
    → has_key (p ∷ groups) g ≡ true
unfolding get
has_key-cons p groups g h = ground arith

pub keys-has_key : (groups : Map Tgid (List Str)) → All (λ g. has_key groups g ≡ true) (keys groups)
unfolding get
keys-has_key [] = tt
keys-has_key ((k, v) ∷ rest) = (
  ground (arith, ==_refl k),
  All-imp (λ g. has_key-cons (k, v) rest g) (keys rest) (keys-has_key rest),
)

pub analyze-IsExtreme :
    (c : ShardConfig) → 0 < length c.groups → length c.shards < 257 → IsExtreme c (analyze c)
unfolding analyze
analyze-IsExtreme c some_group few =
    let counts = tally [] c.shards in
    let sorted = sort_gids (keys c.groups) in
    let P = λ (g : Tgid). has_key c.groups g ≡ true in
    let size : 0 < length sorted = omega (
      arith,
      length-sort_gids (keys c.groups),
      length-map (λ (p : Tgid × List Str). p.0) c.groups,
    ) in
    let small : All (λ g. count_at counts g < 257) sorted =
      All-intro (λ g. omega (arith, count_at-tally c.shards g, count-le-length g c.shards))
        sorted in
    let f =
      weigh_all-Found counts P sorted size (All-sort_gids P (keys c.groups) (keys-has_key c.groups))
        small in
    let l = weigh_all counts no_load sorted in
    record {
      most_exact = f.weighed.most_exact ∙ ap pos (count_at-tally c.shards l.mg);
      least_exact = f.weighed.least_exact ∙ ap pos (count_at-tally c.shards l.lg);
      most_in = f.weighed.most_in;
      least_in = f.weighed.least_in;
      bounds =
          All-imp
            (λ g b. (
              omega (arith, b, count_at-tally c.shards g, count_at-tally c.shards l.mg),
              omega (arith, b, count_at-tally c.shards g, count_at-tally c.shards l.lg),
            ))
            (keys c.groups) (All-of_sort_gids _ (keys c.groups) f.bounds);
    }
