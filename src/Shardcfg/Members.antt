-- ===== src/Shardcfg/Members.antt =====
-- `Join`, `Leave` and their balancing versions of shardkv1/shardcfg/shardcfg.go.
use distributed_system.Prelude.{
  remove, get-put, get-remove, keys, contains, comparable_int, Str, map, Bool, Bool-cases, List,
  Map, Option, [], ap, arith, false, get, if◌then◌else◌, inl, inr, length, length-map, ltb, none,
  pos, put, refl, some, subst, true, ◌+◌, ◌∙◌, ◌∷◌, ◌≡◌,
}
use distributed_system.Shardcfg.{
  leave, then_balance, join_balance, leave_balance, check_config, spread, all_present, Change,
  ShardConfig, Tgid, changed, fatal, join, join_each, leave_each, rebalance, refused,
}
use distributed_system.Shardcfg.Analyze.{keys-has_key}
use distributed_system.Shardcfg.Balance.{rebalance-IsRebalanced}
use distributed_system.Shardcfg.Check.{IsSized, rebalance-check_config}

-- `or_else o p` is `o`, or `p` where `o` has no value.
abbrev pub or_else : {A : Type 0} → Option A → Option A → Option A
or_else none p = p
or_else (some a) p = some a

-- What a call that answers true leaves behind: the next number, the same shards, and the groups
-- that `groups` says.
pub record IsNext (c : ShardConfig) (groups : Tgid → Option (List Str)) (c' : ShardConfig)
    : Type 0 where
  pub next_num : c'.num ≡ c.num + 1
  pub same_shards : c'.shards ≡ c.shards
  pub served : (g : Tgid) → get c'.groups g ≡ groups g

join_each_fresh :
    (servers : Map Tgid (List Str)) (any : Bool) (c c' : ShardConfig) (g : Tgid) (old : List Str)
    → join_each servers any c ≡ changed c'
    → get c.groups g ≡ some old
    → get servers g ≡ none
unfolding join_each get
join_each_fresh [] any c c' g old e h = refl
join_each_fresh ((gid, s) ∷ rest) any c c' g old e h =
    let c1 : ShardConfig = record c { groups = put c.groups gid s } in
    ground (
      arith,
      comparable_int.exact gid g,
      get-put c.groups gid g s,
      join_each_fresh rest true c1 c' g old,
    )

join_each-IsNext :
    (servers : Map Tgid (List Str)) (any : Bool) (c c' : ShardConfig)
    → join_each servers any c ≡ changed c'
    → IsNext c (λ g. or_else (get servers g) (get c.groups g)) c'
unfolding join_each get
join_each-IsNext [] any c c' e = record {
  next_num = ground arith;
  same_shards = ground arith;
  served = λ g. ground arith;
}
join_each-IsNext ((gid, s) ∷ rest) any c c' e =
    let c1 : ShardConfig = record c { groups = put c.groups gid s } in
    let e1 : join_each rest true c1 ≡ changed c' = ground arith in
    let ih = join_each-IsNext rest true c1 c' e1 in
    record {
      next_num = ih.next_num;
      same_shards = ih.same_shards;
      served = λ g. ground (
        arith,
        ih.served g,
        comparable_int.exact gid g,
        get-put c.groups gid g s,
        join_each_fresh rest true c1 c' g s e1,
      );
    }

-- A Join that answers true raises the number by one, leaves the shards alone, and gives each
-- joined group its servers and every other group id what it had.
pub join-IsNext :
    (servers : Map Tgid (List Str)) (c c' : ShardConfig)
    → join servers c ≡ changed c'
    → IsNext c (λ g. or_else (get servers g) (get c.groups g)) c'
unfolding join
join-IsNext servers c c' e = join_each-IsNext servers false c c' e

leave_each-IsNext :
    (gids : List Tgid) (any : Bool) (c c' : ShardConfig)
    → leave_each gids any c ≡ changed c'
    → IsNext c (λ g. if contains g gids then none else get c.groups g) c'
unfolding leave_each
leave_each-IsNext [] any c c' e = record {
  next_num = ground arith;
  same_shards = ground arith;
  served = λ g. ground arith;
}
leave_each-IsNext (gid ∷ gids) any c c' e =
    let c1 : ShardConfig = record c { groups = remove c.groups gid } in
    let ih = leave_each-IsNext gids true c1 c' (ground arith) in
    record {
      next_num = ih.next_num;
      same_shards = ih.same_shards;
      served = λ g. ground (arith, ih.served g, get-remove c.groups gid g);
    }

-- A Leave that answers true raises the number by one, leaves the shards alone, and takes out the
-- groups of the list and no other.
pub leave-IsNext :
    (gids : List Tgid) (c c' : ShardConfig)
    → leave gids c ≡ changed c'
    → IsNext c (λ g. if contains g gids then none else get c.groups g) c'
unfolding leave
leave-IsNext gids c c' e = leave_each-IsNext gids false c c' e

check_config-empty : (c : ShardConfig) → c.groups ≡ [] → check_config c (keys c.groups) ≡ none
unfolding check_config spread all_present
check_config-empty c e = ground (arith, e)

rebalance-checks :
    (c : ShardConfig)
    → IsSized c
    → (c' : ShardConfig) × (rebalance c ≡ some c')
      × (c'.num ≡ c.num)
      × (c'.groups ≡ c.groups)
      × (check_config c' (keys c'.groups) ≡ none)
unfolding rebalance
rebalance-checks c sized = elim (Bool-cases (ltb (length c.groups) 1)) [
  | inl no_group ↦
      let c' : ShardConfig = record c { shards = map (λ _. pos 0) c.shards } in
      let empty : c.groups ≡ [] = ground arith in
      (c', rw no_group refl, refl, refl, check_config-empty c' empty)
  | inr some_group ↦
      let (c', e, r) = rebalance-IsRebalanced c (ground arith) (omega (arith, sized)) in
      (
        c',
        e,
        r.same_num,
        r.same_groups,
        rebalance-check_config c c' (keys c'.groups) (ground arith) sized e
            (length-map (λ (p : Tgid × List Str). p.0) c'.groups) (keys-has_key c'.groups),
      )
]

-- The calls that balance after a change: always a result, and after a change one that CheckConfig
-- accepts.
pub record IsChecked (c : ShardConfig) (groups : Tgid → Option (List Str)) (c' : ShardConfig)
    : Type 0 where
  pub next_num : c'.num ≡ c.num + 1
  pub served : (g : Tgid) → get c'.groups g ≡ groups g
  pub checked : check_config c' (keys c'.groups) ≡ none

then_balance-IsChecked :
    (c : ShardConfig) (groups : Tgid → Option (List Str)) (r : Change)
    → IsSized c
    → ((c1 : ShardConfig) → r ≡ changed c1 → IsNext c groups c1)
    → (r' : Change) × (then_balance r ≡ some r')
      × ((c' : ShardConfig) → r' ≡ changed c' → IsChecked c groups c')
unfolding then_balance
then_balance-IsChecked c groups (changed c1) sized next =
    let n = next c1 refl in
    let (c', e, num, same, checked) = rebalance-checks c1 (rw n.same_shards sized) in
    (
      changed c',
      rw (e, then_balance) refl,
      λ d e'.
          let q : c' ≡ d = ground arith in
          subst (IsChecked c groups) q (record {
            next_num = num ∙ n.next_num;
            served = λ g. ap (λ m. get m g) same ∙ n.served g;
            checked = checked;
          }),
    )
then_balance-IsChecked c groups (refused c1) sized next =
    (refused c1, refl, λ d e. absurd (ground arith))
then_balance-IsChecked c groups fatal sized next = (fatal, refl, λ d e. absurd (ground arith))

-- JoinBalance always ends; when it answers true, the number is the next, the groups are those of
-- Join, and CheckConfig accepts the configuration.
pub join_balance-IsChecked :
    (servers : Map Tgid (List Str)) (c : ShardConfig)
    → IsSized c
    → (r : Change) × (join_balance servers c ≡ some r)
      × ((c' : ShardConfig)
          → r ≡ changed c'
          → IsChecked c (λ g. or_else (get servers g) (get c.groups g)) c')
unfolding join_balance
join_balance-IsChecked servers c sized =
    then_balance-IsChecked c _ (join servers c) sized (join-IsNext servers c)

-- LeaveBalance always ends; when it answers true, the number is the next, the groups are those of
-- Leave, and CheckConfig accepts the configuration, also one with no group left.
pub leave_balance-IsChecked :
    (gids : List Tgid) (c : ShardConfig)
    → IsSized c
    → (r : Change) × (leave_balance gids c ≡ some r)
      × ((c' : ShardConfig)
          → r ≡ changed c'
          → IsChecked c (λ g. if contains g gids then none else get c.groups g) c')
unfolding leave_balance
leave_balance-IsChecked gids c sized =
    then_balance-IsChecked c _ (leave gids c) sized (leave-IsNext gids c)
