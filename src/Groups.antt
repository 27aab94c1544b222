-- ===== src/Groups.antt =====
-- tester1/group.go and tester1/srv.go: groups of servers on the simulated network. `none` is a panic
-- or a fatal error of the network. Random strings come as a function from the place of the end.
-- Persisters are shared between a server and its services, so a server holds an address of the list
-- of persisters; services and server objects of labrpc are numbers.
pub mod Persistence
pub mod Names
pub mod Making
pub mod Ends
pub mod Partitions
pub mod Minority
pub mod Restarts
mod Samples
pub mod Operations
use distributed_system.Prelude.{
  ℕ, zero, suc, ◌+◌, ◌-◌, ◌/◌, Bool, true, false, Option, none, some, List, [], ◌∷◌, ◌++◌, length,
  get_elem?, set, replicate, ids_from, if◌then◌else◌, ltb, eqb, ◌>>=◌, Str, bytes, Map, get, put,
  remove, comparable_int, ℤ, pos, negsuc, map,
}
use distributed_system.Prelude.Decimal.{itoa}
use distributed_system.Labrpc.{
  Network, ok, fatal, make_end, connect, enable, add_server, delete_server,
}
use distributed_system.Groups.Persistence.{
  Persister, make_persister, copy, raft_state_size, snapshot_size,
}

unfoldable pub itoa_int : ℤ → Str
itoa_int (pos n) = itoa n
itoa_int (negsuc n) = b'-' ∷ itoa (n + 1)

unfoldable pub server_name : ℤ → ℕ → Str
server_name gid i = bytes "server-" ++ itoa_int gid ++ b'-' ∷ itoa i

-- What the servers of a test share. `killed` lists the services that were told to stop.
pub record World : Type 0 where
  pub net : Network
  pub persisters : List Persister
  pub killed : List ℕ

-- No server has a nil `endNames`: `makeServer` allocates them. The client ends have the same names.
pub record Server : Type 0 where
  pub saved : Option ℕ
  pub svcs : List ℕ
  pub end_names : List Str

pub record ServerGrp : Type 0 where
  pub srvs : List Server
  pub servernames : List Str
  pub gid : ℤ
  pub connected : List Bool

-- The loop of `makeServer`, from end `j` on.
unfoldable pub make_ends : (ℕ → Str) → ℤ → ℕ → ℕ → Network → Option (List Str × Network)
make_ends random gid j zero net = some ([], net)
make_ends random gid j (suc n) net = elim (make_end (random j) net) [
  | fatal ↦ none
  | ok made ↦ do
    (names, after) ← make_ends random gid (j + 1) n (connect (random j) (server_name gid j) made)
    some (random j ∷ names, after)
]

unfoldable pub make_server : (ℕ → Str) → ℤ → ℕ → World → Option (Server × World)
make_server random gid nsrv w = do
  (names, net) ← make_ends random gid 0 nsrv w.net
  some (record { saved = none; svcs = []; end_names = names }, record w { net = net })

-- The persister of the server: the one at the address that it gets back is new.
unfoldable pub start_server : (ℕ → Str) → ℤ → Server → World → Option (Server × World)
start_server random gid s w = do
  (srv, w') ← make_server random gid (length s.end_names) w
  ps ← elim s.saved [
    | none ↦ some make_persister
    | some p ↦ get_elem? w'.persisters p >>= λ ps. some (copy ps)
  ]
  some (
    record srv { saved = some (length w'.persisters) },
    record w' { persisters = w'.persisters ++ ps ∷ [] },
  )

-- The loops of `connect` and `disconnect` over servers `j`, each with one end.
unfoldable pub enable_each : (ℕ → Option Str) → List Bool → List ℕ → Network → Option Network
enable_each end_of connected [] net = some net
enable_each end_of connected (j ∷ to) net = do
  on ← get_elem? connected j
  net' ← (if on then end_of j >>= (λ e. some (enable e true net)) else some net)
  enable_each end_of connected to net'

unfoldable pub disable_each : (ℕ → Option Str) → List ℕ → Network → Option Network
disable_each end_of [] net = some net
disable_each end_of (j ∷ from) net = do e ← end_of j; disable_each end_of from (enable e false net)

-- The outgoing ends of a server to those of the listed servers that are connected.
unfoldable pub connect_out : List Str → List Bool → List ℕ → Network → Option Network
connect_out end_names = enable_each (get_elem? end_names)

unfoldable pub disconnect_out : List Str → List ℕ → Network → Option Network
disconnect_out end_names = disable_each (get_elem? end_names)

unfoldable pub shutdown_server : Server → World → Option (Server × World)
shutdown_server s w = do
  (saved, persisters) ← elim s.saved [
    | none ↦ some (none, w.persisters)
    | some p ↦ get_elem? w.persisters p >>= λ ps.
        some (some (length w.persisters), w.persisters ++ copy ps ∷ [])
  ]
  some (
    record s { saved = saved; svcs = [] },
    record w { persisters = persisters; killed = w.killed ++ s.svcs },
  )

-- The servers from `i` on, `k` of them, each with `n` ends.
unfoldable pub make_servers : (ℕ → ℕ → Str) → ℤ → ℕ → ℕ → ℕ → World → Option (List Server × World)
make_servers random gid n i zero w = some ([], w)
make_servers random gid n i (suc k) w = do
  (srv, w') ← make_server (random i) gid n w
  (srvs, w'') ← make_servers random gid n (i + 1) k w'
  some (srv ∷ srvs, w'')

unfoldable pub make_srv_grp : (ℕ → ℕ → Str) → ℤ → ℕ → World → Option (ServerGrp × World)
make_srv_grp random gid n w = do
  (srvs, w') ← make_servers random gid n 0 n w
  some (
    record {
      srvs = srvs;
      servernames = map (server_name gid) (ids_from 0 n);
      gid = gid;
      connected = replicate n false;
    },
    w',
  )

unfoldable pub srv_names_to : ServerGrp → List ℕ → Option (List Str)
srv_names_to sg [] = some []
srv_names_to sg (i ∷ to) = do
  name ← get_elem? sg.servernames i
  names ← srv_names_to sg to
  some (name ∷ names)

abbrev pub all : ServerGrp → List ℕ
all sg = ids_from 0 (length sg.srvs)

abbrev pub end_at : List Server → ℕ → ℕ → Option Str
end_at srvs i j = get_elem? srvs i >>= λ s. get_elem? s.end_names j

-- The ends of the listed servers to server `i`: those of the connected servers are enabled.
unfoldable pub connect_in : List Server → List Bool → ℕ → List ℕ → Network → Option Network
connect_in srvs connected i = enable_each (λ j. end_at srvs j i) connected

unfoldable pub disconnect_in : List Server → ℕ → List ℕ → Network → Option Network
disconnect_in srvs i = disable_each (λ j. end_at srvs j i)

abbrev pub set_connected : ServerGrp → ℕ → Bool → Option ServerGrp
set_connected sg i on =
    get_elem? sg.connected i >>= (λ _. some (record sg { connected = set sg.connected i on }))

unfoldable pub connect_server : ℕ → List ℕ → ServerGrp → Network → Option (ServerGrp × Network)
connect_server i to sg net = do
  sg' ← set_connected sg i true
  s ← get_elem? sg'.srvs i
  out ← connect_out s.end_names sg'.connected to net
  net' ← connect_in sg'.srvs sg'.connected i to out
  some (sg', net')

unfoldable pub disconnect_server : ℕ → List ℕ → ServerGrp → Network → Option (ServerGrp × Network)
disconnect_server i from sg net = do
  sg' ← set_connected sg i false
  s ← get_elem? sg'.srvs i
  out ← disconnect_out s.end_names from net
  net' ← disconnect_in sg'.srvs i from out
  some (sg', net')

unfoldable pub connect_one : ℕ → ServerGrp → Network → Option (ServerGrp × Network)
connect_one i sg = connect_server i (all sg) sg

unfoldable pub connect_each : List ℕ → ServerGrp → Network → Option (ServerGrp × Network)
connect_each [] sg net = some (sg, net)
connect_each (i ∷ rest) sg net = do (sg', net') ← connect_one i sg net; connect_each rest sg' net'

unfoldable pub connect_all : ServerGrp → Network → Option (ServerGrp × Network)
connect_all sg = connect_each (all sg) sg

unfoldable pub disconnect_all : ℕ → ServerGrp → Network → Option (ServerGrp × Network)
disconnect_all i sg = disconnect_server i (all sg) sg

abbrev pub is_connected : ServerGrp → ℕ → Option Bool
is_connected sg i = get_elem? sg.connected i
