-- ===== src/Labrpc/Frame.antt =====
-- labrpc/labrpc.go: what the operations on a network leave as it is in its tables.
use distributed_system.Prelude.{
  Str, arith, comparable_nat, comparable_list, ==_ne, false, get, get-put_ne, get-remove, none,
  some, true, ◌≡◌, ◌≢◌,
}
use distributed_system.Labrpc.{
  Network, ok, set_reliable, set_long_reordering, set_long_delays, make_end, delete_end, add_server,
  delete_server, connect, enable, take_request,
}
use distributed_system.Labrpc.Delivery.{
  Op, apply, reliable_op, long_reordering_op, long_delays_op, make_end_op, delete_end_op,
  delete_server_op, take_request_op, add_server_op, connect_op, enable_op,
}

-- Nobody makes, deletes, connects, enables or disables the end `e`.
abbrev pub SparesEnd : Str → Op → Type 0
SparesEnd e (make_end_op e') = e' ≢ e
SparesEnd e (delete_end_op e') = e' ≢ e
SparesEnd e (connect_op e' name) = e' ≢ e
SparesEnd e (enable_op e' b) = e' ≢ e
SparesEnd e _ = Unit

-- Nobody adds or deletes a server of this name.
abbrev pub SparesServer : Str → Op → Type 0
SparesServer name (add_server_op name' server) = name' ≢ name
SparesServer name (delete_server_op name') = name' ≢ name
SparesServer name _ = Unit

-- Nobody makes the network unreliable, or reorders replies.
abbrev pub KeepsReliable : Op → Type 0
KeepsReliable (reliable_op b) = b ≡ true
KeepsReliable (long_reordering_op b) = b ≡ false
KeepsReliable _ = Unit

pub apply-SparesEnd :
    (e : Str) (op : Op) (rn rn' : Network)
    → SparesEnd e op
    → apply op rn ≡ ok rn'
    → (get rn'.enabled e ≡ get rn.enabled e) × (get rn'.connections e ≡ get rn.connections e)
unfolding apply set_reliable set_long_reordering set_long_delays make_end delete_end delete_server
    take_request add_server connect enable
apply-SparesEnd e (reliable_op b) rn rn' a h = ground (arith, h)
apply-SparesEnd e (long_reordering_op b) rn rn' a h = ground (arith, h)
apply-SparesEnd e (long_delays_op b) rn rn' a h = ground (arith, h)
apply-SparesEnd e (make_end_op e') rn rn' a h =
    ground (arith, h, get-put_ne rn.enabled e' e false a, get-put_ne rn.connections e' e none a)
apply-SparesEnd e (delete_end_op e') rn rn' a h =
    ground (arith, h, get-remove rn.enabled e' e, get-remove rn.connections e' e, ==_ne e' e a)
apply-SparesEnd e (delete_server_op name) rn rn' a h = ground (arith, h)
apply-SparesEnd e (take_request_op args) rn rn' a h = ground (arith, h)
apply-SparesEnd e (add_server_op name s) rn rn' a h = ground (arith, h)
apply-SparesEnd e (connect_op e' name) rn rn' a h =
    ground (arith, h, get-put_ne rn.connections e' e (some name) a)
apply-SparesEnd e (enable_op e' b) rn rn' a h = ground (arith, h, get-put_ne rn.enabled e' e b a)

pub apply-SparesServer :
    (name : Str) (op : Op) (rn rn' : Network)
    → SparesServer name op
    → apply op rn ≡ ok rn'
    → get rn'.servers name ≡ get rn.servers name
unfolding apply set_reliable set_long_reordering set_long_delays make_end delete_end delete_server
    take_request add_server connect enable
apply-SparesServer name (reliable_op b) rn rn' a h = ground (arith, h)
apply-SparesServer name (long_reordering_op b) rn rn' a h = ground (arith, h)
apply-SparesServer name (long_delays_op b) rn rn' a h = ground (arith, h)
apply-SparesServer name (make_end_op e') rn rn' a h = ground (arith, h)
apply-SparesServer name (delete_end_op e') rn rn' a h = ground (arith, h)
apply-SparesServer name (delete_server_op name') rn rn' a h =
    ground (arith, h, get-put_ne rn.servers name' name none a)
apply-SparesServer name (take_request_op args) rn rn' a h = ground (arith, h)
apply-SparesServer name (add_server_op name' s) rn rn' a h =
    ground (arith, h, get-put_ne rn.servers name' name (some s) a)
apply-SparesServer name (connect_op e' name') rn rn' a h = ground (arith, h)
apply-SparesServer name (enable_op e' b) rn rn' a h = ground (arith, h)

-- The network is reliable, and does not reorder replies.
abbrev pub IsReliable : Network → Type 0
IsReliable rn = (rn.reliable ≡ true) × (rn.long_reordering ≡ false)

pub apply-IsReliable :
    (op : Op) (rn rn' : Network)
    → KeepsReliable op
    → apply op rn ≡ ok rn'
    → IsReliable rn
    → IsReliable rn'
unfolding apply set_reliable set_long_reordering set_long_delays make_end delete_end delete_server
    take_request add_server connect enable
apply-IsReliable (reliable_op b) rn rn' a h r = ground (arith, a, h, r)
apply-IsReliable (long_reordering_op b) rn rn' a h r = ground (arith, a, h, r)
apply-IsReliable (long_delays_op b) rn rn' a h r = ground (arith, h, r)
apply-IsReliable (make_end_op e') rn rn' a h r = ground (arith, h, r)
apply-IsReliable (delete_end_op e') rn rn' a h r = ground (arith, h, r)
apply-IsReliable (delete_server_op name) rn rn' a h r = ground (arith, h, r)
apply-IsReliable (take_request_op args) rn rn' a h r = ground (arith, h, r)
apply-IsReliable (add_server_op name s) rn rn' a h r = ground (arith, h, r)
apply-IsReliable (connect_op e' name) rn rn' a h r = ground (arith, h, r)
apply-IsReliable (enable_op e' b) rn rn' a h r = ground (arith, h, r)
