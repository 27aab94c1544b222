-- ===== src/RaftTest/Samples.antt =====
-- A small test for raft1/test.go and raft1/server.go: two servers, whose entries are numbers.
use distributed_system.Prelude.{
  ℕ, ◌≡◌, refl, true, false, Option, some, List, [], ◌∷◌, comparable_nat, get, put, none, Str,
  get_elem?, not,
}
use distributed_system.RaftTest.{
  Gob, decode_snapshot, check_command, leader_round, ok, fatal, Server, Tester, ApplyMsg, Peer,
  new_server, conflicts, check_logs, check_apply, applier, applier_all, n_committed,
  check_no_agreement, log_prefix, make_snapshot, fill_logs, ingest_snap, applier_snap,
  leaders_by_term, scan_leaders, check_one_leader, check_terms, check_no_leader,
}
use distributed_system.RaftTest.Agreement.{IsSafe, entry_at, start, applier_all-start-IsSafe}
use distributed_system.RaftTest.Committed.{applier_all-n_committed}
use distributed_system.RaftTest.Applying.{InOrder, applier_snap-InOrder}
use distributed_system.RaftTest.Snapshot.{fits, Restored, ingest_snap-make_snapshot}
use distributed_system.RaftTest.Leaders.{LeadsIn, check_one_leader-IsLeader}
use distributed_system.RaftTest.Terms.{check_terms-agree}

program : Unit {0}
unfolding new_server conflicts check_logs check_apply applier applier_all n_committed
    check_no_agreement log_prefix make_snapshot fill_logs decode_snapshot ingest_snap check_command
    leader_round applier_snap leaders_by_term scan_leaders check_one_leader check_terms
    check_no_leader get put
program = tt

abbrev command : ℕ → ℕ → ApplyMsg ℕ
command i v = record {
  command_valid = true;
  command = v;
  command_index = i;
  snapshot_valid = false;
  snapshot = none;
  snapshot_index = 0;
}

-- Both servers apply 30 at index 1, and one of them 31 at index 2.
abbrev rounds : List (ℕ × ApplyMsg ℕ)
rounds = (0, command 1 30) ∷ (1, command 1 30) ∷ (0, command 2 31) ∷ []

abbrev server_0 : Server ℕ
server_0 = record { logs = (1, 30) ∷ (2, 31) ∷ []; last_applied = 0 }

abbrev applied : Tester ℕ
applied = record {
  srvs = server_0 ∷ record { logs = (1, 30) ∷ []; last_applied = 0 } ∷ [];
  max_index = 2;
}

applied_test : applier_all rounds (start 2) ≡ ok applied
unfolding program
applied_test = refl

conflict_test : applier_all ((0, command 1 30) ∷ (1, command 1 40) ∷ []) (start 2) ≡ fatal
unfolding program
conflict_test = refl

gap_test : applier_all ((0, command 2 30) ∷ []) (start 2) ≡ fatal
unfolding program
gap_test = refl

-- A number for the index, and then the entries: a gob that encodes every list of numbers.
abbrev read_number : Str → Option (ℕ × Str)
read_number [] = none
read_number (n ∷ rest) = some (n, rest)

abbrev gob : Gob ℕ
gob = record {
  IsEncodable = λ (es : List ℕ). Unit;
  write_index = λ (i : ℕ). i ∷ [];
  write_log = λ (es : List ℕ). es;
  read_index = read_number;
  read_log = λ (s : Str). some s;
  read_index-write_index = λ i rest. refl;
  read_log-write_log = λ es good. refl;
}

snapshot_test : make_snapshot 0 gob server_0 2 ≡ 2 ∷ 0 ∷ 30 ∷ 31 ∷ []
unfolding program
snapshot_test = refl

nil_test : ingest_snap gob none (some 2) server_0 ≡ fatal
unfolding program
nil_test = refl

undecoded_test : ingest_snap gob (some []) (some 2) server_0 ≡ fatal
unfolding program
undecoded_test = refl

applier_all-start-IsSafe_example : IsSafe applied
applier_all-start-IsSafe_example = applier_all-start-IsSafe 2 rounds applied applied_test

applier_all-n_committed_example :
    (entry : ℕ) × (n_committed 1 0 0 applied.srvs ≡ ok (2, entry))
    × ((j v : ℕ) → entry_at applied j 1 ≡ some v → v ≡ entry)
unfolding get
applier_all-n_committed_example = applier_all-n_committed 2 rounds applied 1 0 applied_test

ingest_snap-make_snapshot_example :
    (rs' : Server ℕ) × (ingest_snap gob (some (make_snapshot 0 gob server_0 2)) (some 2) new_server
      ≡ ok (rs', not (fits (some 2) 2)))
    × (fits (some 2) 2 ≡ true → Restored 0 2 server_0 rs')
    × (fits (some 2) 2 ≡ false → rs' ≡ new_server)
ingest_snap-make_snapshot_example =
    ingest_snap-make_snapshot 0 gob server_0 new_server 2 (some 2) tt

abbrev peers : List Peer
peers =
    record { connected = true; term = 3; leader = true }
    ∷ record { connected = false; term = 3; leader = true }
    ∷ record { connected = true; term = 4; leader = true }
    ∷ []

-- Nobody leads in the first round.
abbrev leader_rounds : List (List Peer)
leader_rounds = (record { connected = true; term = 3; leader = false } ∷ []) ∷ peers ∷ []

check_one_leader-IsLeader_example : LeadsIn leader_rounds 2
unfolding program
check_one_leader-IsLeader_example = check_one_leader-IsLeader leader_rounds 2 refl

abbrev same_term : List Peer
same_term =
    record { connected = false; term = 2; leader = false }
    ∷ record { connected = true; term = 4; leader = true }
    ∷ record { connected = true; term = 4; leader = false }
    ∷ []

check_terms-agree_example :
    ((j : ℕ) (q : Peer)
      → get_elem? same_term j ≡ some q
      → q.connected ≡ true
      → ◌≡◌ {A = Option ℕ} (some 4) (some q.term))
    × (((j : ℕ) (q : Peer) → get_elem? same_term j ≡ some q → q.connected ≡ false)
        → ◌≡◌ {A = Option ℕ} (some 4) none)
unfolding program
check_terms-agree_example = check_terms-agree same_term (some 4) refl

abbrev applied_one : Tester ℕ
applied_one = record {
  srvs =
      record { logs = (1, 30) ∷ []; last_applied = 1 }
      ∷ record { logs = []; last_applied = 0 }
      ∷ [];
  max_index = 1;
}

start-IsSafe : IsSafe {Entry = ℕ} (start 2)
unfolding program
start-IsSafe = applier_all-start-IsSafe 2 [] (start 2) refl

applier_snap-InOrder_example : InOrder 0 (command 1 30) (start 2) applied_one
unfolding program
applier_snap-InOrder_example =
    applier_snap-InOrder 0 gob 0 (command 1 30) (start 2) applied_one none refl refl refl
      start-IsSafe
