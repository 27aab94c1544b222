-- ===== src/Labrpc/Route.antt =====
-- The tables of labrpc/labrpc.go: which server an end reaches.
use distributed_system.Prelude.{
  ℕ, ◌≡◌, ◌≢◌, refl, ap, sym, ◌∙◌, Bool, true, false, Option, none, some, arith, Str,
  comparable_nat, comparable_list, Map, get, put, remove, get-put_self, get-put_ne, get-remove_self,
  get-remove_ne,
}
use distributed_system.Labrpc.{
  Network, ok, make_end, delete_end, add_server, connect, enable, route,
}

-- The route of an end depends on its entries in the tables only.
route_by : Option Bool → Option (Option Str) → Map Str (Option ℕ) → Option (Str × ℕ)
route_by none c servers = none
route_by (some false) c servers = none
route_by (some true) none servers = none
route_by (some true) (some none) servers = none
route_by (some true) (some (some name)) servers = elim (get servers name) [
  | none ↦ none
  | some none ↦ none
  | some (some server) ↦ some (name, server)
]

route-by :
    (rn : Network) (e : Str)
    → route rn e ≡ route_by (get rn.enabled e) (get rn.connections e) rn.servers
unfolding route route_by
route-by rn e = ground arith

route-cong :
    (rn rn' : Network) (e : Str)
    → get rn'.enabled e ≡ get rn.enabled e
    → get rn'.connections e ≡ get rn.connections e
    → rn'.servers ≡ rn.servers
    → route rn' e ≡ route rn e
route-cong rn rn' e p q r = route-by rn' e ∙ rw (p, q, r) (sym (route-by rn e))

-- An end that is connected to a server and enabled reaches the server, in whatever state the
-- network was before.
pub route-enable :
    (rn : Network) (e name : Str) (server : ℕ)
    → route (enable e true (connect e name (add_server name server rn))) e ≡ some (name, server)
unfolding enable connect add_server route_by
route-enable rn e name server =
    route-by (enable e true (connect e name (add_server name server rn))) e
    ∙ rw
        (
          get-put_self rn.enabled e true,
          get-put_self rn.connections e (some name),
          route_by,
          get-put_self rn.servers name (some server),
        )
        refl

-- An operation that cuts the end `e` off, and no other.
pub record Cuts (e : Str) (rn rn' : Network) : Type 0 where
  pub no_route : route rn' e ≡ none
  pub others : (e' : Str) → e ≢ e' → route rn' e' ≡ route rn e'

-- The entries of every other end are kept, and the end is not enabled.
entries-Cuts :
    (e : Str) (rn rn' : Network)
    → route_by (get rn'.enabled e) (get rn'.connections e) rn'.servers ≡ none
    → ((e' : Str) → e ≢ e' → get rn'.enabled e' ≡ get rn.enabled e')
    → ((e' : Str) → e ≢ e' → get rn'.connections e' ≡ get rn.connections e')
    → rn'.servers ≡ rn.servers
    → Cuts e rn rn'
entries-Cuts e rn rn' off p q r = record {
  no_route = route-by rn' e ∙ off;
  others = λ e' ne. route-cong rn rn' e' (p e' ne) (q e' ne) r;
}

enable-Cuts : (e : Str) (rn : Network) → Cuts e rn (enable e false rn)
unfolding enable route_by
enable-Cuts e rn =
    entries-Cuts e rn (enable e false rn) (rw (get-put_self rn.enabled e false) refl)
      (λ e' ne. get-put_ne rn.enabled e e' false ne) (λ e' ne. refl) refl

make_end-Cuts : (e : Str) (rn rn' : Network) → make_end e rn ≡ ok rn' → Cuts e rn rn'
unfolding make_end route_by
make_end-Cuts e rn rn' h =
    let p : rn'.enabled ≡ put rn.enabled e false = ground (arith, h) in
    let q : rn'.connections ≡ put rn.connections e none = ground (arith, h) in
    let r : rn'.servers ≡ rn.servers = ground (arith, h) in
    entries-Cuts e rn rn' (rw (p, get-put_self rn.enabled e false) refl)
      (λ e' ne. ap (λ m. get m e') p ∙ get-put_ne rn.enabled e e' false ne)
      (λ e' ne. ap (λ m. get m e') q ∙ get-put_ne rn.connections e e' none ne) r

delete_end-Cuts : (e : Str) (rn rn' : Network) → delete_end e rn ≡ ok rn' → Cuts e rn rn'
unfolding delete_end route_by
delete_end-Cuts e rn rn' h =
    let p : rn'.enabled ≡ remove rn.enabled e = ground (arith, h) in
    let q : rn'.connections ≡ remove rn.connections e = ground (arith, h) in
    let r : rn'.servers ≡ rn.servers = ground (arith, h) in
    entries-Cuts e rn rn' (rw (p, get-remove_self rn.enabled e) refl)
      (λ e' ne. ap (λ m. get m e') p ∙ get-remove_ne rn.enabled e e' ne)
      (λ e' ne. ap (λ m. get m e') q ∙ get-remove_ne rn.connections e e' ne) r

-- Disabling an end, making one and deleting one leave this end without a server, and every other
-- end with the server that it reached before.
pub end_operations-Cuts :
    (e : Str) (rn : Network)
    → Cuts e rn (enable e false rn)
      × ((rn' : Network) → make_end e rn ≡ ok rn' → Cuts e rn rn')
      × ((rn' : Network) → delete_end e rn ≡ ok rn' → Cuts e rn rn')
end_operations-Cuts e rn = (enable-Cuts e rn, make_end-Cuts e rn, delete_end-Cuts e rn)
