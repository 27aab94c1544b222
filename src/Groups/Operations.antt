-- ===== src/Groups/Operations.antt =====
-- tester1/group.go: starting, stopping and splitting the servers of a group, and the table of groups.
use distributed_system.Prelude.{
  comparable_int, List, Map, Option, Str, [], eqb, get, get_elem?, if◌then◌else◌, length, ltb, none,
  put, remove, replicate, set, some, suc, zero, ℕ, ℤ, ◌++◌, ◌+◌, ◌-◌, ◌/◌, ◌∷◌, false, true, ◌>>=◌,
}
use distributed_system.Groups.{
  World, Server, ServerGrp, server_name, start_server, shutdown_server, connect_all, all,
  connect_server, disconnect_server, make_srv_grp,
}
use distributed_system.Groups.Persistence.{raft_state_size, snapshot_size, Persister}
use distributed_system.Labrpc.{Network, add_server, delete_server}

-- What the function of the test gives for the ends, the group, the place and the persister of a
-- server: its services.
abbrev pub StartFunction : Type 0
StartFunction = List Str → ℤ → ℕ → Option ℕ → List ℕ

-- `labsrv` is the new server object of labrpc, with the services of the server.
unfoldable pub start_one :
    StartFunction → (ℕ → Str) → ℕ → ℕ → ServerGrp × World → Option (ServerGrp × World)
start_one mks random labsrv i (sg, w) = do
  s ← get_elem? sg.srvs i
  (srv, w') ← start_server random sg.gid s w
  some (
    record sg { srvs = set sg.srvs i (record srv { svcs = mks srv.end_names sg.gid i srv.saved }) },
    record w' { net = add_server (server_name sg.gid i) labsrv w'.net },
  )

-- Servers `i` and on, with random strings and a server object for each.
unfoldable pub start_each :
    StartFunction
    → (ℕ → ℕ → Str)
    → (ℕ → ℕ)
    → List ℕ
    → ServerGrp × World
    → Option (ServerGrp × World)
start_each mks random labsrvs [] st = some st
start_each mks random labsrvs (i ∷ rest) st = do
  st' ← start_one mks (random i) (labsrvs i) i st
  start_each mks random labsrvs rest st'

unfoldable pub start_servers :
    StartFunction → (ℕ → ℕ → Str) → (ℕ → ℕ) → ServerGrp × World → Option (ServerGrp × World)
start_servers mks random labsrvs (sg, w) = do
  (sg', w') ← start_each mks random labsrvs (all sg) (sg, w)
  (sg'', net) ← connect_all sg' w'.net
  some (sg'', record w' { net = net })

unfoldable pub shutdown_one : ℕ → ServerGrp × World → Option (ServerGrp × World)
shutdown_one i (sg, w) = do
  (sg', net) ← disconnect_server i (all sg) sg w.net
  s ← get_elem? sg'.srvs i
  (s', w') ← shutdown_server s (record w { net = delete_server (server_name sg'.gid i) net })
  some (record sg' { srvs = set sg'.srvs i s' }, w')

unfoldable pub shutdown_each : List ℕ → ServerGrp × World → Option (ServerGrp × World)
shutdown_each [] st = some st
shutdown_each (i ∷ rest) st = do st' ← shutdown_one i st; shutdown_each rest st'

unfoldable pub shutdown : ServerGrp × World → Option (ServerGrp × World)
shutdown (sg, w) = shutdown_each (all sg) (sg, w)

-- The services of all servers are killed, as `cleanup` does.
unfoldable pub cleanup_servers : List Server → World → World
cleanup_servers [] w = w
cleanup_servers (s ∷ srvs) w = cleanup_servers srvs (record w { killed = w.killed ++ s.svcs })

-- The largest size of the saved states, or of the snapshots; a nil persister is a panic.
unfoldable pub largest : (Persister → ℕ) → List Persister → ℕ → List Server → Option ℕ
largest size persisters best [] = some best
largest size persisters best (s ∷ srvs) = do
  p ← s.saved
  ps ← get_elem? persisters p
  largest size persisters (if ltb best (size ps) then size ps else best) srvs

unfoldable pub log_size : ServerGrp → World → Option ℕ
log_size sg w = largest raft_state_size w.persisters 0 sg.srvs

unfoldable pub snapshot_size_of : ServerGrp → World → Option ℕ
snapshot_size_of sg w = largest snapshot_size w.persisters 0 sg.srvs

-- A write out of range is a panic.
abbrev pub write_at : List ℕ → ℕ → ℕ → Option (List ℕ)
write_at xs i v = if ltb i (length xs) then some (set xs i v) else none

-- The loop of `MakePartition`, from server `i` on, `k` of them.
unfoldable pub fill_partition : ℕ → ℕ → ℕ → ℕ → List ℕ × List ℕ → Option (List ℕ × List ℕ)
fill_partition l i zero j (p1, p2) = some (p1, p2)
fill_partition l i (suc k) j (p1, p2) = elim (eqb i l) [
  | true ↦ fill_partition l (i + 1) k j (p1, p2)
  | false ↦ elim (ltb j (length p1)) [
    | true ↦ fill_partition l (i + 1) k (j + 1) (set p1 j i, p2)
    | false ↦ do p2' ← write_at p2 (j - length p1) i; fill_partition l (i + 1) k (j + 1) (p1, p2')
  ]
]

-- With no room for the leader, the last write is at the index -1.
abbrev pub add_leader : ℕ → List ℕ × List ℕ → Option (List ℕ × List ℕ)
add_leader l (p1, []) = none
add_leader l (p1, x ∷ p2) = some (p1, set (x ∷ p2) (length p2) l)

unfoldable pub make_partition : ℕ → ServerGrp → Option (List ℕ × List ℕ)
make_partition l sg =
    let n = length sg.srvs in
    fill_partition l 0 n 0 (replicate (n / 2 + 1) 0, replicate (n / 2) 0) >>= add_leader l

-- A round of a loop of `Partition`: server `i` is cut off from `other` and joined to `own`.
abbrev pub isolate_one : ℕ → List ℕ → List ℕ → ServerGrp × Network → Option (ServerGrp × Network)
isolate_one i own other st = do
  cut ← disconnect_server i other st.0 st.1
  connect_server i own cut.0 cut.1

-- One of the two loops of `Partition`.
unfoldable pub isolate :
    List ℕ → List ℕ → List ℕ → ServerGrp × Network → Option (ServerGrp × Network)
isolate [] own other st = some st
isolate (i ∷ rest) own other st = do st' ← isolate_one i own other st; isolate rest own other st'

unfoldable pub partition_servers :
    List ℕ → List ℕ → ServerGrp × Network → Option (ServerGrp × Network)
partition_servers p1 p2 st = do st' ← isolate p1 p1 p2 st; isolate p2 p2 p1 st'

unfoldable pub new_groups : Map ℤ ServerGrp
new_groups = []

unfoldable pub make_group :
    (ℕ → ℕ → Str) → ℤ → ℕ → Map ℤ ServerGrp × World → Option (Map ℤ ServerGrp × World)
make_group random gid nsrv (grps, w) = do
  (sg, w') ← make_srv_grp random gid nsrv w
  some (put grps gid sg, w')

unfoldable pub lookup_group : ℤ → Map ℤ ServerGrp → Option ServerGrp
lookup_group gid grps = get grps gid

unfoldable pub delete_group : ℤ → Map ℤ ServerGrp → Map ℤ ServerGrp
delete_group gid grps = remove grps gid

unfoldable pub cleanup_groups : Map ℤ ServerGrp → World → World
cleanup_groups [] w = w
cleanup_groups ((gid, sg) ∷ grps) w = cleanup_groups grps (cleanup_servers sg.srvs w)
