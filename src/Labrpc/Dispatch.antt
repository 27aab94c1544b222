-- ===== src/Labrpc/Dispatch.antt =====
-- Server.dispatch of labrpc/labrpc.go: which handler a name like "Raft.AppendEntries" calls.
use distributed_system.Prelude.{
  ◌+◌, ◌≡◌, refl, true, false, none, some, List, [], ◌∷◌, ◌++◌, arith, eqb, ==_refl, Str,
  comparable_nat, comparable_list, get, put, get-put, contains,
}
use distributed_system.Labrpc.{Server, add_service, dispatch, split_last_dot}

abbrev pub HasNoDot : Str → Type 0
HasNoDot s = contains b'.' s ≡ false

split_no_dot : (s : Str) → HasNoDot s → split_last_dot s ≡ none
unfolding split_last_dot
split_no_dot [] h = refl
split_no_dot (c ∷ cs) h =
    let tail : HasNoDot cs = ground (arith, h) in
    let miss : eqb c b'.' ≡ false = ground (arith, h) in rw (split_no_dot cs tail, miss) refl

-- The last dot separates the service from the method, also when the service has dots.
pub split_last_dot-append :
    (service method : Str)
    → HasNoDot method
    → split_last_dot (service ++ (b'.' ∷ method)) ≡ some (service, method)
unfolding split_last_dot
split_last_dot-append [] method h = rw (split_no_dot method h) refl
split_last_dot-append (c ∷ service) method h = rw (split_last_dot-append service method h) refl

-- A request for a method of the service that was added last calls this method, and counts as one
-- request; the method name has no dot.
pub dispatch-add_service :
    (rs : Server) (service method : Str) (methods : List Str)
    → HasNoDot method
    → contains method methods ≡ true
    → dispatch (service ++ (b'.' ∷ method)) (add_service service methods rs)
      ≡ some
          (record (add_service service methods rs) { incoming = rs.incoming + 1 }, service, method)
unfolding dispatch add_service
dispatch-add_service rs service method methods h has =
    let found : get (put rs.services service methods) service ≡ some methods =
      ground (arith, get-put rs.services service service methods, ==_refl service) in
    rw (dispatch, split_last_dot-append service method h, found, has) refl
