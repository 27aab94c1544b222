-- ===== src/Clients.antt =====
-- tester1/clnts.go: the clerks' connections to servers. A clerk is a pointer, so it is an address of
-- the list of clerks. Random names come as arguments; `none` is a fatal error of the network or a
-- write to a nil map. The end of a clerk is its name.
pub mod Ends
pub mod Reach
pub mod Commands
mod Samples
use distributed_system.Prelude.{
  comparable_nat, comparable_list, true, false, ◌>>=◌, Bool, List, Map, Option, Str, [], contains,
  get, get_elem?, if◌then◌else◌, length, none, put, some, ℕ, ◌++◌, ◌==◌, ◌∷◌,
}
use distributed_system.Labrpc.{Network, ok, fatal, make_end, delete_end, connect, enable}

-- `srvs` is none where the source has nil: the clerk can connect to all servers.
pub record Clnt : Type 0 where
  pub ends : Map Str Str
  pub srvs : Option (List Str)

unfoldable pub make_clnt_to : Option (List Str) → Clnt
make_clnt_to srvs = record { ends = []; srvs = srvs }

unfoldable pub allowed : Option (List Str) → Str → Bool
allowed none server = true
allowed (some srvs) server = contains server srvs

-- A new end, connected to the server.
abbrev pub new_end : Str → Str → Bool → Network → Option Network
new_end name server on net = elim (make_end name net) [
  | fatal ↦ none
  | ok made ↦ some (enable name on (connect name server made))
]

unfoldable pub make_clnt_end : Str → Str → Clnt × Network → Option (Str × Clnt × Network)
make_clnt_end name server (clnt, net) = elim (get clnt.ends server) [
  | some e ↦ some (e, clnt, net)
  | none ↦ do
    net' ← new_end name server (allowed clnt.srvs server) net
    some (name, record clnt { ends = put clnt.ends server name }, net')
]

-- A loop over the ends of a clerk, which switches those of the servers that satisfy `p`.
unfoldable pub switch_ends : (Str → Bool) → Bool → Map Str Str → Network → Network
switch_ends p on [] net = net
switch_ends p on ((server, e) ∷ ends) net =
    let net' = if p server then enable e on net else net in switch_ends p on ends net'

unfoldable pub clnt_connect_all : Clnt × Network → Clnt × Network
clnt_connect_all (clnt, net) =
    (record clnt { srvs = none }, switch_ends (λ _. true) true clnt.ends net)

unfoldable pub clnt_connect_to : List Str → Clnt × Network → Clnt × Network
clnt_connect_to srvs (clnt, net) =
    (record clnt { srvs = some srvs }, switch_ends (allowed (some srvs)) true clnt.ends net)

unfoldable pub clnt_disconnect : Str → Clnt × Network → Clnt × Network
clnt_disconnect srv (clnt, net) = (clnt, switch_ends (λ s. s == srv) false clnt.ends net)

unfoldable pub clnt_disconnect_all : Clnt × Network → Clnt × Network
clnt_disconnect_all (clnt, net) =
    (record clnt { srvs = some [] }, switch_ends (λ _. true) false clnt.ends net)

unfoldable pub delete_ends : Map Str Str → Network → Option Network
delete_ends [] net = some net
delete_ends ((server, e) ∷ ends) net = elim (delete_end e net) [
  | fatal ↦ none
  | ok net' ↦ delete_ends ends net'
]

unfoldable pub clnt_remove : Clnt → Network → Option Network
clnt_remove clnt = delete_ends clnt.ends

-- `clerks` is the set of the map's keys, none for a nil map; `clnts` has all clerks made so far.
pub record Clnts : Type 0 where
  pub clnts : List Clnt
  pub clerks : Option (List ℕ)

unfoldable pub make_clnts : Clnts
make_clnts = record { clnts = []; clerks = some [] }

unfoldable pub make_end_to : Str → Str → Network → Option Network
make_end_to name servername = new_end name servername true

unfoldable pub make_client_to : Option (List Str) → Clnts → Option (ℕ × Clnts)
make_client_to srvs cs = do
  clerks ← cs.clerks
  some (
    length cs.clnts,
    record { clnts = cs.clnts ++ make_clnt_to srvs ∷ []; clerks = some (length cs.clnts ∷ clerks) },
  )

unfoldable pub make_client : Clnts → Option (ℕ × Clnts)
make_client = make_client_to none

unfoldable pub remove_each : List ℕ → List Clnt → Network → Option Network
remove_each [] clnts net = some net
remove_each (a ∷ clerks) clnts net = do
  clnt ← get_elem? clnts a
  net' ← clnt_remove clnt net
  remove_each clerks clnts net'

unfoldable pub cleanup_clnts : Clnts → Network → Option (Clnts × Network)
cleanup_clnts cs net = do
  net' ← elim cs.clerks [ none ↦ some net | some clerks ↦ remove_each clerks cs.clnts net ]
  some (record cs { clerks = none }, net')

abbrev without : ℕ → List ℕ → List ℕ
without a [] = []
without a (b ∷ bs) = if b == a then without a bs else b ∷ without a bs

unfoldable pub delete_client : ℕ → Clnts → Network → Option (Clnts × Network)
delete_client a cs net = elim cs.clerks [
  | none ↦ some (cs, net)
  | some clerks ↦
      if contains a clerks
      then (do
        clnt ← get_elem? cs.clnts a
        net' ← clnt_remove clnt net
        some (record cs { clerks = some (without a clerks) }, net'))
      else some (cs, net)
]
