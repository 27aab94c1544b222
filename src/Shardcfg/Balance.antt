-- ===== src/Shardcfg/Balance.antt =====
-- `Rebalance` of shardkv1/shardcfg/shardcfg.go: it ends, every shard gets a group, and the groups
-- hold as equal numbers of shards as possible.
use mathlib.Core.List.{append_assoc, append-nil}
use distributed_system.Shardcfg.{
  balance_fuel, rebalance, ShardConfig, Tgid, add_two, analyze, assign_shard, assign_unassigned,
  balance, has_key, least, move_one,
}
use distributed_system.Shardcfg.Analyze.{IsExtreme, analyze-IsExtreme, count-le-length}
use distributed_system.Prelude.{
  All, All-append, All-imp, Bool-cases, List, Option-cases, [], ap, arith, comparable_int, count,
  false, get, if_cases, if◌then◌else◌, inl, inr, keys, length, length-append, ltb_ℤ, refl, set,
  some, suc, sym, true, zero, ℕ, ◌*◌, ◌++◌, ◌+◌, ◌<◌, ◌==◌, ◌∙◌, ◌∷◌, ◌≡◌, ◌≢◌, ◌≤◌,
}

-- The number of pairs of shards that stand in one group.
pairs : List Tgid → ℕ
pairs [] = 0
pairs (g ∷ gs) = count g gs + pairs gs

pairs-le : (gs : List Tgid) → pairs gs ≤ length gs * length gs
unfolding pairs
pairs-le [] = omega arith
pairs-le (g ∷ gs) = grind (arith, pairs-le gs, count-le-length g gs)

module _ (a b : Tgid) where
  length-move_one : (gs : List Tgid) → length (move_one a b gs) ≡ length gs
  unfolding move_one
  length-move_one [] = refl
  length-move_one (g ∷ gs) = ground (arith, length-move_one gs)

  All-move_one : (P : Tgid → Type 0) (gs : List Tgid) → P b → All P gs → All P (move_one a b gs)
  unfolding move_one
  All-move_one P [] p h = tt
  All-move_one P (g ∷ gs) p h =
      if_cases (All P) (g == a) (b ∷ gs) (g ∷ move_one a b gs) (λ _. (p, h.1))
        (λ _. (h.0, All-move_one P gs p h.1))

  -- A move takes one shard from `a` and gives one to `b`.
  count-move_one :
      (x : Tgid) (gs : List Tgid)
      → a ≢ b
      → 0 < count a gs
      → count x (move_one a b gs) + (if a == x then 1 else 0)
        ≡ count x gs + (if b == x then 1 else 0)
  unfolding move_one
  count-move_one x [] ne some_a = absurd (omega arith)
  count-move_one x (g ∷ gs) ne some_a =
      let test = comparable_int.exact in
      ground (arith, count-move_one x gs ne, test g a, test a x, test b x, test g x)

  pairs-move_one :
      (gs : List Tgid)
      → a ≢ b
      → 0 < count a gs
      → pairs (move_one a b gs) + count a gs ≡ pairs gs + count b gs + 1
  unfolding move_one pairs
  pairs-move_one [] ne some_a = absurd (omega arith)
  pairs-move_one (g ∷ gs) ne some_a =
      let test = comparable_int.exact in
      ground (
        arith,
        pairs-move_one gs ne,
        count-move_one g gs ne,
        test g a,
        test a g,
        test b g,
        test g b,
        test b a,
        test a b,
      )

abbrev pub AllAllocated : ShardConfig → Type 0
AllAllocated c = All (λ g. has_key c.groups g ≡ true) c.shards

abbrev pub IsBalanced : ShardConfig → Type 0
IsBalanced c =
    All (λ g. All (λ h. count g c.shards ≤ count h c.shards + 1) (keys c.groups)) (keys c.groups)

pub record IsRebalanced (c c' : ShardConfig) : Type 0 where
  pub same_num : c'.num ≡ c.num
  pub same_groups : c'.groups ≡ c.groups
  pub same_size : length c'.shards ≡ length c.shards
  pub allocated : AllAllocated c'
  pub balanced : IsBalanced c'

IsExtreme-IsBalanced :
    (c : ShardConfig)
    → IsExtreme c (analyze c)
    → ltb_ℤ (analyze c).mn (add_two (analyze c).ln) ≡ true
    → IsBalanced c
IsExtreme-IsBalanced c x stop =
    let most : count (analyze c).mg c.shards ≤ count (analyze c).lg c.shards + 1 =
      ground (arith, x.most_exact, x.least_exact) in
    All-imp (λ g b. All-imp (λ h b'. omega (arith, b.0, b'.1, most)) (keys c.groups) x.bounds)
      (keys c.groups) x.bounds

record Moves (c : ShardConfig) : Type 0 where
  apart : (analyze c).mg ≢ (analyze c).lg
  some_most : 0 < count (analyze c).mg c.shards
  gap : count (analyze c).lg c.shards + 2 ≤ count (analyze c).mg c.shards

IsExtreme-Moves :
    (c : ShardConfig)
    → IsExtreme c (analyze c)
    → ltb_ℤ (analyze c).mn (add_two (analyze c).ln) ≡ false
    → Moves c
IsExtreme-Moves c x go =
    let gap : count (analyze c).lg c.shards + 2 ≤ count (analyze c).mg c.shards =
      ground (arith, x.most_exact, x.least_exact) in
    record {
      apart = λ e. absurd (omega (arith, gap, ap (λ g. count g c.shards) e));
      some_most = omega (arith, gap);
      gap = gap;
    }

balance-IsRebalanced :
    (fuel : ℕ) (c : ShardConfig)
    → 0 < length c.groups
    → length c.shards < 257
    → pairs c.shards < fuel
    → AllAllocated c
    → (c' : ShardConfig) × (balance fuel c ≡ some c') × IsRebalanced c c'
unfolding balance
balance-IsRebalanced zero c some_group few enough all = absurd (omega arith)
balance-IsRebalanced (suc fuel) c some_group few enough all =
    let x = analyze-IsExtreme c some_group few in
    let l = analyze c in
    elim (Bool-cases (ltb_ℤ l.mn (add_two l.ln))) [
      | inl stop ↦ (
        c,
        rw stop refl,
        record {
          same_num = refl;
          same_groups = refl;
          same_size = refl;
          allocated = all;
          balanced = IsExtreme-IsBalanced c x stop;
        },
      )
      | inr go ↦
          let m = IsExtreme-Moves c x go in
          let next : ShardConfig = record c { shards = move_one l.mg l.lg c.shards } in
          let size = length-move_one l.mg l.lg c.shards in
          let (c', e, r) =
            balance-IsRebalanced fuel next some_group (omega (arith, size))
              (omega (arith, pairs-move_one l.mg l.lg c.shards m.apart m.some_most, m.gap))
              (All-move_one l.mg l.lg (λ g. has_key c.groups g ≡ true) c.shards x.least_in all) in
          (
            c',
            rw go e,
            record {
              same_num = r.same_num;
              same_groups = r.same_groups;
              same_size = r.same_size ∙ size;
              allocated = r.allocated;
              balanced = r.balanced;
            },
          )
    ]

set-append :
    {A : Type 0} (pre : List A) (x v : A) (post : List A)
    → set (pre ++ x ∷ post) (length pre) v ≡ pre ++ v ∷ post
set-append [] x v post = refl
set-append (p ∷ pre) x v post = ap (◌∷◌ p) (set-append pre x v post)

record IsAssigned (c c' : ShardConfig) : Type 0 where
  same_num : c'.num ≡ c.num
  same_groups : c'.groups ≡ c.groups
  same_size : length c'.shards ≡ length c.shards
  allocated : AllAllocated c'

-- One round: the shard behind `pre` is left alone, or goes to a group that exists.
record Assigns (pre gs : List Tgid) (c c' : ShardConfig) : Type 0 where
  gid : Tgid
  known : has_key c.groups gid ≡ true
  only_shards : c' ≡ record c { shards = pre ++ gid ∷ gs }

assign_shard-Assigns :
    (pre : List Tgid) (g : Tgid) (gs : List Tgid) (c : ShardConfig)
    → 0 < length c.groups
    → length c.shards < 257
    → c.shards ≡ pre ++ g ∷ gs
    → Assigns pre gs c (assign_shard (length pre) g c)
unfolding assign_shard least
assign_shard-Assigns pre g gs c some_group few split = elim (Option-cases (get c.groups g)) [
  | inl missing ↦ record {
    gid = (analyze c).lg;
    known = (analyze-IsExtreme c some_group few).least_in;
    only_shards = ground (arith, missing, split, set-append pre g (analyze c).lg gs);
  }
  | inr (srvs, found) ↦ record {
    gid = g;
    known = ground arith;
    only_shards = ground (arith, found, split);
  }
]

-- The loop that assigns the unassigned shards, behind the shards `pre` that it has passed.
assign_unassigned-IsAssigned :
    (gs pre : List Tgid) (c : ShardConfig)
    → 0 < length c.groups
    → length c.shards < 257
    → c.shards ≡ pre ++ gs
    → All (λ g. has_key c.groups g ≡ true) pre
    → IsAssigned c (assign_unassigned (length pre) gs c)
unfolding assign_unassigned
assign_unassigned-IsAssigned [] pre c some_group few split all = record {
  same_num = refl;
  same_groups = refl;
  same_size = refl;
  allocated = rw (split, append-nil pre) all;
}
assign_unassigned-IsAssigned (g ∷ gs) pre c some_group few split all =
    let a = assign_shard-Assigns pre g gs c some_group few split in
    let c' : ShardConfig = record c { shards = pre ++ a.gid ∷ gs } in
    let pre' = pre ++ a.gid ∷ [] in
    let size : length c'.shards ≡ length c.shards =
      omega (arith, length-append pre (a.gid ∷ gs), length-append pre (g ∷ gs), ap length split) in
    let place : length pre' ≡ suc (length pre) = omega (arith, length-append pre (a.gid ∷ [])) in
    let rest =
      assign_unassigned-IsAssigned gs pre' c' some_group (omega (arith, size))
        (sym (append_assoc pre (a.gid ∷ []) gs))
        (All-append (λ g. has_key c.groups g ≡ true) pre (a.gid ∷ []) all (a.known, tt)) in
    rw (a.only_shards, ← place)
      (record {
        same_num = rest.same_num;
        same_groups = rest.same_groups;
        same_size = rest.same_size ∙ size;
        allocated = rest.allocated;
      })

-- Rebalance ends, for a configuration of at least one group and fewer than 257 shards: it keeps
-- the number and the groups, gives every shard to an existing group, and the numbers of shards of
-- two groups differ by one at most.
pub rebalance-IsRebalanced :
    (c : ShardConfig)
    → 0 < length c.groups
    → length c.shards < 257
    → (c' : ShardConfig) × (rebalance c ≡ some c') × IsRebalanced c c'
unfolding rebalance
rebalance-IsRebalanced c some_group few =
    let a = assign_unassigned-IsAssigned c.shards [] c some_group few refl tt in
    let c1 = assign_unassigned 0 c.shards c in
    let some_group' : 0 < length c1.groups = rw a.same_groups some_group in
    let (c', e, r) =
      balance-IsRebalanced (balance_fuel c1) c1 some_group' (omega (arith, a.same_size))
        (omega (arith, pairs-le c1.shards)) a.allocated in
    (
      c',
      ground (arith, e, some_group),
      record {
        same_num = r.same_num ∙ a.same_num;
        same_groups = r.same_groups ∙ a.same_groups;
        same_size = r.same_size ∙ a.same_size;
        allocated = r.allocated;
        balanced = r.balanced;
      },
    )
