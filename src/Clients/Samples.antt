-- ===== src/Clients/Samples.antt =====
-- Small tests for tester1/clnts.go: one clerk and two servers.
use distributed_system.Prelude.{
  comparable_nat, comparable_list, true, false, Bool, List, Str, [], bytes, get, none, put, refl,
  remove, some, ◌∷◌, ◌≡◌,
}
use distributed_system.Clients.{
  Clnt, make_clnt_to, allowed, make_clnt_end, switch_ends, clnt_connect_all, clnt_connect_to,
  clnt_disconnect, clnt_disconnect_all, make_clnts, make_client_to, make_client, make_end_to,
  delete_ends, clnt_remove, remove_each, cleanup_clnts, delete_client,
}
use distributed_system.Clients.Commands.{
  Command, call, commands, calls, only, reset, wanted, calls-reset,
}
use distributed_system.Labrpc.{
  Network, make_network, make_end, delete_end, connect, enable, is_enabled,
}

program : Unit {0}
unfolding make_clnt_to allowed make_clnt_end switch_ends clnt_connect_all clnt_connect_to
    clnt_disconnect clnt_disconnect_all make_clnts make_client_to make_client make_end_to
    delete_ends clnt_remove remove_each cleanup_clnts delete_client make_network make_end delete_end
    connect enable get put remove
program = tt

abbrev a_server : Str
a_server = bytes "a"

abbrev b_server : Str
b_server = bytes "b"

abbrev before : List Command
before = call (bytes "x") a_server ∷ call (bytes "y") b_server ∷ []

abbrev two_ends : Clnt
two_ends = record { ends = (a_server, bytes "x") ∷ (b_server, bytes "y") ∷ []; srvs = none }

abbrev net_of : Network → Bool → Bool → Network
net_of net x y = record net {
  ends = (bytes "x", bytes "x") ∷ (bytes "y", bytes "y") ∷ [];
  enabled = (bytes "x", x) ∷ (bytes "y", y) ∷ [];
  connections = (bytes "x", some a_server) ∷ (bytes "y", some b_server) ∷ [];
}

begun :
    commands before (make_clnt_to none, make_network)
    ≡ some (two_ends, net_of make_network true true)
unfolding program
begun = refl

-- ConnectTo leaves the end of a server that is not in the list as it is.
connect_to_test :
    (clnt_connect_to (a_server ∷ []) (two_ends, net_of make_network true true)).1
    ≡ net_of make_network true true
unfolding program
connect_to_test = refl

abbrev only_a : Clnt
only_a = record two_ends { srvs = some (a_server ∷ []) }

followed :
    calls
      ((bytes "z", b_server) ∷ [])
      (reset (only (a_server ∷ [])) (two_ends, net_of make_network true true))
    ≡ some (only_a, net_of make_network true false)
unfolding program
followed = refl

b_end : get only_a.ends b_server ≡ some (bytes "y")
unfolding program
b_end = refl

calls-reset_example :
    is_enabled (net_of make_network true false) (bytes "y") ≡ wanted (only (a_server ∷ [])) b_server
calls-reset_example =
    calls-reset none make_network before (only (a_server ∷ [])) ((bytes "z", b_server) ∷ [])
      (two_ends, net_of make_network true true) (only_a, net_of make_network true false) begun
      followed b_server (bytes "y") b_end

-- A clerk that is deleted takes its ends from the network.
delete_test :
    (elim (make_client make_clnts) [
      | none ↦ none
      | some (a, cs) ↦
          delete_client a (record cs { clnts = two_ends ∷ [] }) (net_of make_network true true)
    ])
    ≡ some (record { clnts = two_ends ∷ []; clerks = some [] }, make_network)
unfolding program
delete_test = refl
