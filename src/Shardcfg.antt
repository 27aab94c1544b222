-- ===== src/Shardcfg.antt =====
-- shardkv1/shardcfg/shardcfg.go: the assignment of shards to groups. A group id is a Go int. A Go
-- map is an association list, whose order is the order of an iteration over the map. A method
-- with a pointer receiver returns the new configuration.

pub mod Analyze
pub mod Balance
pub mod Check
pub mod Members
mod Samples
use distributed_system.Prelude.{
  ℕ, zero, suc, ◌+◌, ◌*◌, ◌%◌, ◌≡◌, Bool, true, false, Option, none, some, List, [], ◌∷◌, ◌++◌,
  length, get_elem?, set, replicate, ltb, leb, eqb, if◌then◌else◌, ◌==◌, Str, ℤ, pos, negsuc, ltb_ℤ,
  Map, get, put, remove, keys, contains, map, comparable_int, comparable_nat, comparable_list, ◌||◌,
  ◌&&◌, not, count,
}
use distributed_system.Fnv.{fnv32a}

abbrev pub Tgid : Type 0
Tgid = ℤ

abbrev pub n_shards : ℕ
n_shards = 12

unfoldable pub key2shard : Str → ℕ
key2shard key = fnv32a key % n_shards

pub record ShardConfig : Type 0 where
  pub num : ℕ
  pub shards : List Tgid
  pub groups : Map Tgid (List Str)

unfoldable pub make_shard_config : ShardConfig
make_shard_config = record { num = 0; shards = replicate n_shards (pos 0); groups = [] }

-- `counts[g]`: a missing key reads as 0.
unfoldable pub count_at : Map Tgid ℕ → Tgid → ℕ
count_at counts g = elim (get counts g) [ none ↦ 0 | some n ↦ n ]

-- `for _, g := range c.Shards { counts[g] += 1 }`
unfoldable pub tally : Map Tgid ℕ → List Tgid → Map Tgid ℕ
tally counts [] = counts
tally counts (g ∷ gs) = tally (put counts g (count_at counts g + 1)) gs

insert_sorted : Tgid → List Tgid → List Tgid
insert_sorted g [] = g ∷ []
insert_sorted g (h ∷ hs) = if ltb_ℤ h g then h ∷ insert_sorted g hs else g ∷ h ∷ hs

-- `slices.Sort`
unfoldable pub sort_gids : List Tgid → List Tgid
unfolding insert_sorted
sort_gids [] = []
sort_gids (g ∷ gs) = insert_sorted g (sort_gids gs)

-- The result of `analyze`: mostgroup, mostn, leastgroup, leastn.
pub record Load : Type 0 where
  pub mg : Tgid
  pub mn : ℤ
  pub lg : Tgid
  pub ln : ℤ

-- One round of the loop of `analyze`.
unfoldable pub weigh : Tgid → ℤ → Load → Load
weigh g n l =
    let l' : Load = if ltb_ℤ n l.ln then record l { ln = n; lg = g } else l in
    if ltb_ℤ l'.mn n then record l' { mn = n; mg = g } else l'

unfoldable pub weigh_all : Map Tgid ℕ → Load → List Tgid → Load
weigh_all counts l [] = l
weigh_all counts l (g ∷ gs) = weigh_all counts (weigh g (pos (count_at counts g)) l) gs

abbrev pub no_load : Load
no_load = record { mg = negsuc 0; mn = negsuc 0; lg = negsuc 0; ln = pos 257 }

unfoldable pub analyze : ShardConfig → Load
analyze c = weigh_all (tally [] c.shards) no_load (sort_gids (keys c.groups))

unfoldable pub least : ShardConfig → Tgid
least c = (analyze c).lg

-- One round of `for s, g := range c.Shards`: a shard of no group goes to the least group.
unfoldable pub assign_shard : ℕ → Tgid → ShardConfig → ShardConfig
assign_shard s g c = elim (get c.groups g) [
  | none ↦ record c { shards = set c.shards s (least c) }
  | some _ ↦ c
]

-- The rounds from shard `s` on. The loop ranges over a copy of the shards as they were.
unfoldable pub assign_unassigned : ℕ → List Tgid → ShardConfig → ShardConfig
assign_unassigned s [] c = c
assign_unassigned s (g ∷ gs) c = assign_unassigned (suc s) gs (assign_shard s g c)

-- The first shard of group `mg` goes to `lg`.
unfoldable pub move_one : Tgid → Tgid → List Tgid → List Tgid
move_one mg lg [] = []
move_one mg lg (g ∷ gs) = if g == mg then lg ∷ gs else g ∷ move_one mg lg gs

-- `mn < ln+2`
abbrev pub add_two : ℤ → ℤ
add_two (pos n) = pos (n + 2)
add_two (negsuc zero) = pos 1
add_two (negsuc (suc zero)) = pos 0
add_two (negsuc (suc (suc n))) = negsuc n

-- The loop that moves shards from the most to the least loaded group, with fuel: `none` means that
-- the fuel ran out.
unfoldable pub balance : ℕ → ShardConfig → Option ShardConfig
balance zero c = none
balance (suc fuel) c =
    let l = analyze c in
    let more = balance fuel (record c { shards = move_one l.mg l.lg c.shards }) in
    if ltb_ℤ l.mn (add_two l.ln) then some c else more

-- Each move lowers the number of pairs of shards of one group, which is less than the square.
abbrev pub balance_fuel : ShardConfig → ℕ
balance_fuel c = suc (length c.shards * length c.shards)

unfoldable pub rebalance : ShardConfig → Option ShardConfig
rebalance c =
    if ltb (length c.groups) 1
    then some (record c { shards = map (λ _. pos 0) c.shards })
    else (let c' = assign_unassigned 0 c.shards c in balance (balance_fuel c') c')

-- A call that changes the configuration: it says true, it says false (and may have changed some
-- of the groups before that), or `log.Fatalf` ends the process.
pub data Change : Type 0 where
  changed : ShardConfig → Change
  refused : ShardConfig → Change
  fatal : Change

-- Does a server of the list stand in a group already?
unfoldable pub shares : List Str → List Str → Bool
shares servers [] = false
shares servers (s ∷ ss) = contains s servers || shares servers ss

unfoldable pub clashes : List Str → Map Tgid (List Str) → Bool
clashes servers [] = false
clashes servers ((xgid, xservers) ∷ rest) = shares servers xservers || clashes servers rest

-- The loop of `Join`; `any` is its `changed`.
unfoldable pub join_each : Map Tgid (List Str) → Bool → ShardConfig → Change
join_each [] any c = if any then changed (record c { num = c.num + 1 }) else fatal
join_each ((gid, servers) ∷ rest) any c = elim (get c.groups gid) [
  | some _ ↦ refused c
  | none ↦
      if clashes servers c.groups
      then fatal
      else join_each rest true (record c { groups = put c.groups gid servers })
]

unfoldable pub join : Map Tgid (List Str) → ShardConfig → Change
join servers c = join_each servers false c

-- The loop of `Leave`.
unfoldable pub leave_each : List Tgid → Bool → ShardConfig → Change
leave_each [] any c = if any then changed (record c { num = c.num + 1 }) else fatal
leave_each (gid ∷ gids) any c = elim (get c.groups gid) [
  | none ↦ refused c
  | some _ ↦ leave_each gids true (record c { groups = remove c.groups gid })
]

unfoldable pub leave : List Tgid → ShardConfig → Change
leave gids c = leave_each gids false c

-- `JoinBalance` and `LeaveBalance` after their first call; `none` as for `balance`.
unfoldable pub then_balance : Change → Option Change
then_balance (changed c) = elim (rebalance c) [ none ↦ none | some c' ↦ some (changed c') ]
then_balance (refused c) = some (refused c)
then_balance fatal = some fatal

unfoldable pub join_balance : Map Tgid (List Str) → ShardConfig → Option Change
unfolding then_balance
join_balance servers c = then_balance (join servers c)

unfoldable pub leave_balance : List Tgid → ShardConfig → Option Change
unfolding then_balance
leave_balance gids c = then_balance (leave gids c)

-- `GidServers`: `none` is an index out of range, which panics.
unfoldable pub gid_servers : ℕ → ShardConfig → Option (Tgid × Option (List Str))
gid_servers sh c = elim (get_elem? c.shards sh) [
  | none ↦ none
  | some gid ↦ some (gid, get c.groups gid)
]

unfoldable pub is_member : Tgid → ShardConfig → Bool
is_member gid c = contains gid c.shards

pub data ConfigError : Type 0 where
  wrong_count missing_group invalid_group unbalanced : ConfigError

abbrev pub has_key : Map Tgid (List Str) → Tgid → Bool
has_key groups g = elim (get groups g) [ none ↦ false | some _ ↦ true ]

unfoldable pub all_present : Map Tgid (List Str) → List Tgid → Bool
all_present groups [] = true
all_present groups (g ∷ gs) = has_key groups g && all_present groups gs

-- The last loop of `CheckConfig`: the largest and the smallest count.
unfoldable pub spread : Map Tgid ℕ → ℕ → ℕ → List Tgid → ℕ × ℕ
spread counts most fewest [] = (most, fewest)
spread counts most fewest (g ∷ gs) =
    let n = count_at counts g in
    spread counts (if ltb most n then n else most) (if ltb n fewest then n else fewest) gs

-- `CheckConfig`, which ends the test at the first error that it finds.
unfoldable pub check_config : ShardConfig → List Tgid → Option ConfigError
check_config c gids =
    let (most, fewest) = spread (tally [] c.shards) 0 257 (keys c.groups) in
    if not (eqb (length c.groups) (length gids))
    then some wrong_count
    else if not (all_present c.groups gids)
    then some missing_group
    else if ltb 0 (length gids) && not (all_present c.groups c.shards)
    then some invalid_group
    else if ltb (fewest + 1) most
    then some unbalanced
    else none
