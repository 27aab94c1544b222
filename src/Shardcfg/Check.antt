-- ===== src/Shardcfg/Check.antt =====
-- What a client and a test of shardkv1/shardcfg/shardcfg.go rely on after `Rebalance`.
use distributed_system.Fnv.{fnv32a}
use distributed_system.Shardcfg.Analyze.{analyze-IsExtreme, count-le-length, count_at-tally}
use distributed_system.Shardcfg.Balance.{AllAllocated, IsBalanced, rebalance-IsRebalanced}
use distributed_system.Prelude.{
  All, All-and, All-get_elem?, All-imp, Bool-cases, List, Map, Option-cases, Str, [], arith,
  comparable_int, count, false, get, get_elem?-some, if◌then◌else◌, inl, inr, keys, length, ltb,
  ltb_ℤ, none, refl, some, subst, suc, true, ℕ, ◌%◌, ◌*◌, ◌+◌, ◌<◌, ◌==◌, ◌∙◌, ◌∷◌, ◌≡◌, ◌≤◌,
}
use distributed_system.Shardcfg.{
  ShardConfig, Tgid, add_two, all_present, analyze, assign_shard, assign_unassigned, balance,
  check_config, count_at, gid_servers, has_key, key2shard, n_shards, rebalance, spread, tally,
}

-- The array of shards has its Go length.
abbrev pub IsSized : ShardConfig → Type 0
IsSized c = length c.shards ≡ n_shards

-- What holds of every group holds of a group id that the map has.
All-has_key :
    (P : Tgid → Type 0) (groups : Map Tgid (List Str)) (g : Tgid)
    → All P (keys groups)
    → has_key groups g ≡ true
    → P g
unfolding get
All-has_key P [] g h e = absurd (ground arith)
All-has_key P ((k, v) ∷ rest) g h e = elim (Bool-cases (k == g)) [
  | inl hit ↦ subst P ((comparable_int.exact k g).0 hit) h.0
  | inr miss ↦ All-has_key P rest g h.1 (ground arith)
]

spread-bounds :
    (counts : Map Tgid ℕ) (lo most fewest : ℕ) (gs : List Tgid)
    → All (λ g. (lo ≤ count_at counts g) × (count_at counts g ≤ lo + 1)) gs
    → most ≤ lo + 1
    → lo ≤ fewest
    → ((spread counts most fewest gs).0 ≤ lo + 1) × (lo ≤ (spread counts most fewest gs).1)
unfolding spread
spread-bounds counts lo most fewest [] h m f = (m, f)
spread-bounds counts lo most fewest (g ∷ gs) h m f =
    let n = count_at counts g in
    spread-bounds counts lo (if ltb most n then n else most) (if ltb n fewest then n else fewest) gs
      h.1 (ground arith) (ground arith)

-- Each group holds the least number of shards, or one more.
IsBalanced-bounds :
    (c : ShardConfig)
    → 0 < length c.groups
    → IsSized c
    → IsBalanced c
    → (lo : ℕ) × (lo ≤ 12)
      × All (λ g. (lo ≤ count g c.shards) × (count g c.shards ≤ lo + 1)) (keys c.groups)
IsBalanced-bounds c some_group sized b =
    let x = analyze-IsExtreme c some_group (omega (arith, sized)) in
    let lg = (analyze c).lg in
    (
      count lg c.shards,
      omega (arith, sized, count-le-length lg c.shards),
      All-and
          (λ g p q. (
            p.1,
            All-has_key (λ h. count g c.shards ≤ count h c.shards + 1) c.groups lg q x.least_in,
          ))
          (keys c.groups) x.bounds b,
    )

all_present_of_All :
    (groups : Map Tgid (List Str)) (gs : List Tgid)
    → All (λ g. has_key groups g ≡ true) gs
    → all_present groups gs ≡ true
unfolding all_present
all_present_of_All groups [] h = refl
all_present_of_All groups (g ∷ gs) h = ground (arith, h.0, all_present_of_All groups gs h.1)

check_config_of_balanced :
    (c : ShardConfig) (gids : List Tgid)
    → 0 < length c.groups
    → IsSized c
    → AllAllocated c
    → IsBalanced c
    → length gids ≡ length c.groups
    → All (λ g. has_key c.groups g ≡ true) gids
    → check_config c gids ≡ none
unfolding check_config
check_config_of_balanced c gids some_group sized all b size present =
    let (lo, small, h) = IsBalanced-bounds c some_group sized b in
    let counts = tally [] c.shards in
    let h' : All (λ g. (lo ≤ count_at counts g) × (count_at counts g ≤ lo + 1)) (keys c.groups) =
      All-imp {P = λ g. (lo ≤ count g c.shards) × (count g c.shards ≤ lo + 1)}
        (λ g k. rw (count_at-tally c.shards g) k) (keys c.groups) h in
    let s = spread-bounds counts lo 0 257 (keys c.groups) h' (omega arith) (omega arith) in
    let p = all_present_of_All c.groups gids present in
    let q = all_present_of_All c.groups c.shards all in ground (arith, s.0, s.1, p, q, size)

-- CheckConfig accepts what Rebalance makes of a configuration with a group, for any list of as
-- many existing group ids as there are groups.
pub rebalance-check_config :
    (c c' : ShardConfig) (gids : List Tgid)
    → 0 < length c.groups
    → IsSized c
    → rebalance c ≡ some c'
    → length gids ≡ length c'.groups
    → All (λ g. has_key c'.groups g ≡ true) gids
    → check_config c' gids ≡ none
rebalance-check_config c c' gids some_group sized e size present =
    let (c2, e2, r) = rebalance-IsRebalanced c some_group (omega (arith, sized)) in
    let same : c2 ≡ c' = cc in
    subst
      (λ d.
        length gids ≡ length d.groups
        → All (λ g. has_key d.groups g ≡ true) gids
        → check_config d gids ≡ none)
      same
      (check_config_of_balanced c2 gids (rw r.same_groups some_group) (r.same_size ∙ sized)
        r.allocated r.balanced)
      size present

-- After Rebalance every key is served: its shard belongs to a group that the map has.
pub rebalance-gid_servers :
    (c : ShardConfig) (key : Str)
    → 0 < length c.groups
    → IsSized c
    → (c' : ShardConfig) × (gid : Tgid) × (srvs : List Str) × (rebalance c ≡ some c')
      × (gid_servers (key2shard key) c' ≡ some (gid, some srvs))
      × (get c.groups gid ≡ some srvs)
unfolding gid_servers key2shard
rebalance-gid_servers c key some_group sized =
    let (c', e, r) = rebalance-IsRebalanced c some_group (omega (arith, sized)) in
    let sh = fnv32a key % n_shards in
    let (gid, found) = get_elem?-some c'.shards sh (omega (arith, r.same_size, sized)) in
    let known = All-get_elem? (λ g. has_key c'.groups g ≡ true) c'.shards sh r.allocated found in
    elim (Option-cases (get c'.groups gid)) [
      | inl missing ↦ absurd (ground arith)
      | inr (srvs, served) ↦
          (c', gid, srvs, e, ground (arith, found, served), ground (arith, served, r.same_groups))
    ]

assign_unassigned_of_allocated :
    (s : ℕ) (gs : List Tgid) (c : ShardConfig)
    → All (λ g. has_key c.groups g ≡ true) gs
    → assign_unassigned s gs c ≡ c
unfolding assign_unassigned assign_shard
assign_unassigned_of_allocated s [] c h = refl
assign_unassigned_of_allocated s (g ∷ gs) c h = elim (Option-cases (get c.groups g)) [
  | inl missing ↦ absurd (ground arith)
  | inr (srvs, found) ↦ rw (found, assign_shard) (assign_unassigned_of_allocated (suc s) gs c h.1)
]

balance_stop :
    (fuel : ℕ) (c : ShardConfig)
    → ltb_ℤ (analyze c).mn (add_two (analyze c).ln) ≡ true
    → balance (suc fuel) c ≡ some c
unfolding balance
balance_stop fuel c stop = rw stop

-- Rebalance moves no shard of a configuration that is allocated and balanced already.
pub rebalance_stable :
    (c : ShardConfig)
    → 0 < length c.groups
    → IsSized c
    → AllAllocated c
    → IsBalanced c
    → rebalance c ≡ some c
unfolding rebalance
rebalance_stable c some_group sized all b =
    let x = analyze-IsExtreme c some_group (omega (arith, sized)) in
    let l = analyze c in
    let close : count l.mg c.shards ≤ count l.lg c.shards + 1 =
      All-has_key (λ h. count l.mg c.shards ≤ count h c.shards + 1) c.groups l.lg
        (All-has_key (λ g. All (λ h. count g c.shards ≤ count h c.shards + 1) (keys c.groups))
          c.groups l.mg b x.most_in)
        x.least_in in
    let stop : ltb_ℤ l.mn (add_two l.ln) ≡ true =
      ground (arith, x.most_exact, x.least_exact, close) in
    let some_left : ltb (length c.groups) 1 ≡ false = ground arith in
    simp (some_left, assign_unassigned_of_allocated 0 c.shards c all)
      (balance_stop (length c.shards * length c.shards) c stop)
