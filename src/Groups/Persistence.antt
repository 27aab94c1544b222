-- ===== src/Groups/Persistence.antt =====
-- tester1/persister.go. Byte slices are values, so `clone` is left out.
use distributed_system.Prelude.{ℕ, [], length, Str}

pub record Persister : Type 0 where
  pub raftstate : Str
  pub snapshot : Str

unfoldable pub make_persister : Persister
make_persister = record { raftstate = []; snapshot = [] }

unfoldable pub copy : Persister → Persister
unfolding make_persister
copy ps = record make_persister { raftstate = ps.raftstate; snapshot = ps.snapshot }

unfoldable pub read_raft_state : Persister → Str
read_raft_state ps = ps.raftstate

unfoldable pub raft_state_size : Persister → ℕ
raft_state_size ps = length ps.raftstate

unfoldable pub save : Str → Str → Persister → Persister
save raftstate snapshot ps = record ps { raftstate = raftstate; snapshot = snapshot }

unfoldable pub read_snapshot : Persister → Str
read_snapshot ps = ps.snapshot

unfoldable pub snapshot_size : Persister → ℕ
snapshot_size ps = length ps.snapshot
