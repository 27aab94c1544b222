-- ===== src/Shardcfg/Samples.antt =====
-- A small configuration of shardkv1/shardcfg/shardcfg.go: three groups join, one leaves.
use distributed_system.Shardcfg.{
  least, assign_shard, assign_unassigned, move_one, balance, rebalance, Change, changed, refused,
  fatal, shares, clashes, join_each, join, leave_each, leave, then_balance, join_balance,
  leave_balance, gid_servers, spread, all_present, check_config, ShardConfig, Tgid, analyze,
  count_at, key2shard, make_shard_config, n_shards, sort_gids, tally, weigh, weigh_all,
}
use distributed_system.Shardcfg.Balance.{IsRebalanced, rebalance-IsRebalanced}
use distributed_system.Shardcfg.Check.{rebalance-check_config, rebalance-gid_servers}
use distributed_system.Shardcfg.Members.{
  or_else, IsChecked, join_balance-IsChecked, leave_balance-IsChecked,
}
use distributed_system.Prelude.{
  comparable_int, comparable_nat, comparable_list, List, Map, Str, [], arith, bytes, contains, get,
  if◌then◌else◌, none, pos, put, refl, remove, replicate, some, ◌∷◌, ◌≡◌,
}

program : Unit {0}
unfolding make_shard_config count_at tally sort_gids weigh weigh_all analyze least assign_shard
    assign_unassigned move_one balance rebalance clashes shares join_each join leave_each leave
    then_balance join_balance leave_balance gid_servers spread all_present check_config get put
    remove
program = tt

abbrev servers : Map Tgid (List Str)
servers =
    (pos 2, bytes "c" ∷ []) ∷ (pos 1, bytes "a" ∷ bytes "b" ∷ []) ∷ (pos 3, bytes "d" ∷ []) ∷ []

abbrev joined : ShardConfig
joined = record { num = 1; shards = replicate n_shards (pos 0); groups = servers }

-- All shards go to group 1, the first of the least loaded, and then spread out.
abbrev spread_out : ShardConfig
spread_out = record {
  num = 1;
  shards =
      pos 1
      ∷ pos 2
      ∷ pos 3
      ∷ pos 1
      ∷ pos 2
      ∷ pos 3
      ∷ pos 1
      ∷ pos 2
      ∷ pos 3
      ∷ pos 1
      ∷ pos 2
      ∷ pos 3
      ∷ [];
  groups = servers;
}

join_test : join servers make_shard_config ≡ changed joined
unfolding program
join_test = refl

rebalance_test : rebalance joined ≡ some spread_out
unfolding program
rebalance_test = refl

leave_test :
    leave_balance (pos 3 ∷ []) spread_out
    ≡ some (
        changed (record {
          num = 2;
          shards =
              pos 1
              ∷ pos 2
              ∷ pos 1
              ∷ pos 1
              ∷ pos 2
              ∷ pos 2
              ∷ pos 1
              ∷ pos 2
              ∷ pos 1
              ∷ pos 1
              ∷ pos 2
              ∷ pos 2
              ∷ [];
          groups = (pos 2, bytes "c" ∷ []) ∷ (pos 1, bytes "a" ∷ bytes "b" ∷ []) ∷ [];
        }))
unfolding program
leave_test = refl

rejoin_test : join ((pos 2, []) ∷ []) joined ≡ refused joined
unfolding program
rejoin_test = refl

clash_test : join ((pos 4, bytes "d" ∷ []) ∷ []) joined ≡ fatal
unfolding program
clash_test = refl

rebalance-IsRebalanced_example :
    (c' : ShardConfig) × (rebalance joined ≡ some c') × IsRebalanced joined c'
rebalance-IsRebalanced_example = rebalance-IsRebalanced joined (omega arith) (omega arith)

rebalance-check_config_example : check_config spread_out (pos 3 ∷ pos 1 ∷ pos 2 ∷ []) ≡ none
unfolding get
rebalance-check_config_example =
    rebalance-check_config joined spread_out (pos 3 ∷ pos 1 ∷ pos 2 ∷ []) (omega arith) refl
      rebalance_test refl (refl, (refl, (refl, tt)))

rebalance-gid_servers_example :
    (c' : ShardConfig) × (gid : Tgid) × (srvs : List Str) × (rebalance joined ≡ some c')
    × (gid_servers (key2shard (bytes "k")) c' ≡ some (gid, some srvs))
    × (get joined.groups gid ≡ some srvs)
rebalance-gid_servers_example = rebalance-gid_servers joined (bytes "k") (omega arith) refl

abbrev two_left : ShardConfig
two_left = record spread_out {
  num = 2;
  groups = (pos 2, bytes "c" ∷ []) ∷ (pos 1, bytes "a" ∷ bytes "b" ∷ []) ∷ [];
}

join_balance-IsChecked_example :
    (r : Change) × (join_balance servers make_shard_config ≡ some r)
    × ((c' : ShardConfig)
        → r ≡ changed c'
        → IsChecked make_shard_config
            (λ g. or_else (get servers g) (get make_shard_config.groups g))
            c')
unfolding make_shard_config
join_balance-IsChecked_example = join_balance-IsChecked servers make_shard_config refl

-- The last group leaves.
abbrev one_group : ShardConfig
one_group = record {
  num = 5;
  shards = replicate n_shards (pos 1);
  groups = (pos 1, bytes "a" ∷ []) ∷ [];
}

leave_balance-IsChecked_example :
    (r : Change) × (leave_balance (pos 1 ∷ []) one_group ≡ some r)
    × ((c' : ShardConfig)
        → r ≡ changed c'
        → IsChecked one_group
            (λ g. if contains g (pos 1 ∷ []) then none else get one_group.groups g)
            c')
leave_balance-IsChecked_example = leave_balance-IsChecked (pos 1 ∷ []) one_group refl
