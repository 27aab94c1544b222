-- ===== src/Groups/Restarts.antt =====
-- tester1/group.go and tester1/srv.go: what a server that is started again finds in its persister.
use distributed_system.Groups.{
  World, Server, ServerGrp, start_server, shutdown_server, make_server, make_ends,
  disconnect_server, all, disconnect_in, disconnect_out, set_connected, server_name,
}
use distributed_system.Groups.Operations.{start_one, shutdown_one, StartFunction}
use distributed_system.Groups.Persistence.{Persister, copy, save, make_persister}
use distributed_system.Prelude.{
  List, Option, Str, [], ap, bind-some, get_elem?, get_elem?-set_ne, length, length-set, refl, set,
  some, sym, ℕ, ℤ, ◌++◌, ◌>>=◌, ◌∙◌, ◌∷◌, ◌≡◌, ◌≢◌, false, some_inj, get_elem?-lt,
  get_elem?-set_self, subst, ◌<◌, arith,
}
use distributed_system.Labrpc.{Network, delete_server}

-- Saves of a service, whose persister is at `p`; a nil or missing persister is a panic.
unfoldable pub save_at : ℕ → Str → Str → World → Option World
save_at p raftstate snapshot w = do
  ps ← get_elem? w.persisters p
  some (record w { persisters = set w.persisters p (save raftstate snapshot ps) })

abbrev pub saves_at : ℕ → List (Str × Str) → World → Option World
saves_at p [] w = some w
saves_at p ((raftstate, snapshot) ∷ saves) w = save_at p raftstate snapshot w >>= saves_at p saves

-- Saves at `p` leave every other persister alone, and allocate none.
saves_at-other :
    (p : ℕ) (saves : List (Str × Str)) (w w' : World)
    → saves_at p saves w ≡ some w'
    → (length w'.persisters ≡ length w.persisters)
      × ((q : ℕ) → p ≢ q → get_elem? w'.persisters q ≡ get_elem? w.persisters q)
unfolding save_at
saves_at-other p [] w w' h =
    let same : w ≡ w' = cc in
    (
      ap (λ v. length v.persisters) (sym same),
      λ q ne. ap (λ v. get_elem? v.persisters q) (sym same),
    )
saves_at-other p ((r, s) ∷ saves) w w' h =
    let (mid, e, rest) = bind-some (save_at p r s w) (saves_at p saves) h in
    let (ps, found, made) = bind-some (get_elem? w.persisters p) _ e in
    let (len, other) = saves_at-other p saves mid w' rest in
    let is : record w { persisters = set w.persisters p (save r s ps) } ≡ mid = cc in
    (
      len ∙ ap (λ v. length v.persisters) (sym is) ∙ length-set w.persisters p (save r s ps),
      λ q ne.
          other q ne
          ∙ ap (λ v. get_elem? v.persisters q) (sym is)
          ∙ get_elem?-set_ne w.persisters p q (save r s ps) ne,
    )

-- A server whose persister is there, with this content.
abbrev pub Holds : ServerGrp → World → ℕ → ℕ → Persister → Type 0
Holds sg w i p ps =
    (s : Server) × (get_elem? sg.srvs i ≡ some s)
    × (s.saved ≡ some p)
    × (get_elem? w.persisters p ≡ some ps)

shutdown_server-saved :
    (s : Server) (w : World) (p : ℕ) (ps : Persister)
    → s.saved ≡ some p
    → get_elem? w.persisters p ≡ some ps
    → shutdown_server s w
      ≡ some (
        record s { saved = some (length w.persisters); svcs = [] },
        record w { persisters = w.persisters ++ ps ∷ []; killed = w.killed ++ s.svcs },
      )
unfolding shutdown_server copy make_persister
shutdown_server-saved s w p ps e found = rw (e, found, shutdown_server) refl

make_server-persisters :
    (random : ℕ → Str) (gid : ℤ) (n : ℕ) (w : World) (made : Server × World)
    → make_server random gid n w ≡ some made
    → made.1.persisters ≡ w.persisters
unfolding make_server
make_server-persisters random gid n w made h =
    let (ends, e, h') = bind-some (make_ends random gid 0 n w.net) _ h in
    sym (ap (λ m. m.1.persisters) (some_inj h'))

start_server-result :
    (random : ℕ → Str) (gid : ℤ) (s : Server) (w : World) (p : ℕ) (ps : Persister)
    (made : Server × World)
    → make_server random gid (length s.end_names) w ≡ some made
    → s.saved ≡ some p
    → get_elem? made.1.persisters p ≡ some ps
    → start_server random gid s w
      ≡ some (
        record made.0 { saved = some (length made.1.persisters) },
        record made.1 { persisters = made.1.persisters ++ ps ∷ [] },
      )
unfolding start_server copy make_persister
start_server-result random gid s w p ps made e1 e found = rw (e1, e, found, start_server) refl

start_server-saved :
    (random : ℕ → Str) (gid : ℤ) (s : Server) (w : World) (p : ℕ) (ps : Persister) (srv : Server)
    (w' : World)
    → s.saved ≡ some p
    → get_elem? w.persisters p ≡ some ps
    → start_server random gid s w ≡ some (srv, w')
    → (srv.saved ≡ some (length w.persisters)) × (w'.persisters ≡ w.persisters ++ ps ∷ [])
unfolding start_server
start_server-saved random gid s w p ps srv w' e found h =
    let (made, e1, _) = bind-some (make_server random gid (length s.end_names) w) _ h in
    let kept = make_server-persisters random gid (length s.end_names) w made e1 in
    let found' = ap (λ xs. get_elem? xs p) kept ∙ found in
    let same = some_inj (sym (start_server-result random gid s w p ps made e1 e found') ∙ h) in
    (
      sym (ap (λ m. m.0.saved) same) ∙ ap (λ xs. some (length xs)) kept,
      sym (ap (λ m. m.1.persisters) same) ∙ ap (λ xs. xs ++ ps ∷ []) kept,
    )

get_elem?-behind :
    (xs : List Persister) (x : Persister) → get_elem? (xs ++ x ∷ []) (length xs) ≡ some x
get_elem?-behind [] x = refl
get_elem?-behind (y ∷ xs) x = get_elem?-behind xs x

disconnect_server-srvs :
    (i : ℕ) (from : List ℕ) (sg : ServerGrp) (net : Network) (st : ServerGrp × Network)
    → disconnect_server i from sg net ≡ some st
    → st.0.srvs ≡ sg.srvs
unfolding disconnect_server
disconnect_server-srvs i from sg net st h =
    let (sg1, e1, h1) = bind-some (set_connected sg i false) _ h in
    let (was, known, e2) = bind-some (get_elem? sg.connected i) _ e1 in
    let (s, e3, h3) = bind-some (get_elem? sg1.srvs i) _ h1 in
    let (out, e4, h4) = bind-some (disconnect_out s.end_names from net) _ h3 in
    let (net', e5, h5) = bind-some (disconnect_in sg1.srvs i from out) _ h4 in
    sym (ap (λ m. m.0.srvs) (some_inj h5)) ∙ sym (ap (λ m. m.srvs) (some_inj e2))

-- A server and its persister, both just written.
placed-Holds :
    (sg sg' : ServerGrp) (w w' : World) (i : ℕ) (s : Server) (ps : Persister) (xs : List Persister)
    (srvs : List Server)
    → i < length srvs
    → sg'.srvs ≡ set srvs i s
    → s.saved ≡ some (length xs)
    → w'.persisters ≡ xs ++ ps ∷ []
    → Holds sg' w' i (length xs) ps
placed-Holds sg sg' w w' i s ps xs srvs lt e saved kept = (
  s,
  ap (λ v. get_elem? v i) e ∙ get_elem?-set_self srvs i s lt,
  saved,
  ap (λ v. get_elem? v (length xs)) kept ∙ get_elem?-behind xs ps,
)

shutdown_one-result :
    (i : ℕ) (sg : ServerGrp) (w : World) (p : ℕ) (ps : Persister) (s : Server)
    (cut : ServerGrp × Network)
    → disconnect_server i (all sg) sg w.net ≡ some cut
    → get_elem? cut.0.srvs i ≡ some s
    → s.saved ≡ some p
    → get_elem? w.persisters p ≡ some ps
    → shutdown_one i (sg, w)
      ≡ some (
        record cut.0 {
          srvs = set cut.0.srvs i (record s { saved = some (length w.persisters); svcs = [] });
        },
        record w {
          net = delete_server (server_name cut.0.gid i) cut.1;
          persisters = w.persisters ++ ps ∷ [];
          killed = w.killed ++ s.svcs;
        },
      )
unfolding shutdown_one
shutdown_one-result i sg w p ps s cut e1 at saved found =
    rw (e1, at, shutdown_one)
      (ap
        (λ o. o >>= λ (down : Server × World).
          some (record cut.0 { srvs = set cut.0.srvs i down.0 }, down.1))
        (shutdown_server-saved s (record w { net = delete_server (server_name cut.0.gid i) cut.1 })
          p ps saved found))

shutdown_one-Holds :
    (i : ℕ) (sg sg' : ServerGrp) (w w' : World) (p : ℕ) (ps : Persister)
    → Holds sg w i p ps
    → shutdown_one i (sg, w) ≡ some (sg', w')
    → Holds sg' w' i (length w.persisters) ps
unfolding shutdown_one
shutdown_one-Holds i sg sg' w w' p ps (s, at, saved, found) h =
    let (cut, e1, _) = bind-some (disconnect_server i (all sg) sg w.net) _ h in
    let same = disconnect_server-srvs i (all sg) sg w.net cut e1 in
    let at' = ap (λ v. get_elem? v i) same ∙ at in
    let is = some_inj (sym (shutdown_one-result i sg w p ps s cut e1 at' saved found) ∙ h) in
    placed-Holds sg sg' w w' i (record s { saved = some (length w.persisters); svcs = [] }) ps
      w.persisters cut.0.srvs (get_elem?-lt cut.0.srvs i at') (sym (ap (λ m. m.0.srvs) is)) refl
      (sym (ap (λ m. m.1.persisters) is))

start_one-Holds :
    (mks : StartFunction) (random : ℕ → Str) (labsrv i : ℕ) (sg sg' : ServerGrp) (w w' : World)
    (p : ℕ) (ps : Persister)
    → Holds sg w i p ps
    → start_one mks random labsrv i (sg, w) ≡ some (sg', w')
    → Holds sg' w' i (length w.persisters) ps
unfolding start_one
start_one-Holds mks random labsrv i sg sg' w w' p ps (s, at, saved, found) h =
    let (s1, e1, h1) = bind-some (get_elem? sg.srvs i) _ h in
    let (up, e2, h2) = bind-some (start_server random sg.gid s1 w) _ h1 in
    let same : s ≡ s1 = some_inj (sym at ∙ e1) in
    let saved' : s1.saved ≡ some p = subst (λ v. v.saved ≡ some p) same saved in
    let (new, kept) = start_server-saved random sg.gid s1 w p ps up.0 up.1 saved' found e2 in
    let is = some_inj h2 in
    placed-Holds sg sg' w w' i (record up.0 { svcs = mks up.0.end_names sg.gid i up.0.saved }) ps
      w.persisters sg.srvs (get_elem?-lt sg.srvs i e1) (sym (ap (λ m. m.0.srvs) is)) new
      (sym (ap (λ m. m.1.persisters) is) ∙ kept)

-- What was saved last before ShutdownServer is what the server finds that StartServer starts,
-- whatever the old instance saves after the shutdown, before the start or after it, when neither
-- call ends the test.
pub restart-Holds :
    (mks : StartFunction) (random : ℕ → Str) (labsrv i p : ℕ) (ps : Persister)
    (sg down up : ServerGrp) (w w1 w2 w3 w4 : World) (late later : List (Str × Str))
    → Holds sg w i p ps
    → shutdown_one i (sg, w) ≡ some (down, w1)
    → saves_at p late w1 ≡ some w2
    → start_one mks random labsrv i (down, w2) ≡ some (up, w3)
    → saves_at p later w3 ≡ some w4
    → (q : ℕ) × (q ≢ p) × Holds up w4 i q ps
restart-Holds mks random labsrv i p ps sg down up w w1 w2 w3 w4 late later h e1 e2 e3 e4 =
    let old = get_elem?-lt w.persisters p h.3 in
    let h1 = shutdown_one-Holds i sg down w w1 p ps h e1 in
    let (len, other) = saves_at-other p late w1 w2 e2 in
    let longer = get_elem?-lt w1.persisters (length w.persisters) h1.3 in
    let h2 : Holds down w2 i (length w.persisters) ps =
      (h1.0, h1.1, h1.2, other (length w.persisters) (λ e. omega (arith, e, old)) ∙ h1.3) in
    let h3 = start_one-Holds mks random labsrv i down up w2 w3 (length w.persisters) ps h2 e3 in
    let new : p ≢ length w2.persisters = λ e. omega (arith, e, old, longer, len) in
    let (_, other') = saves_at-other p later w3 w4 e4 in
    (
      length w2.persisters,
      λ e. new (sym e),
      (h3.0, h3.1, h3.2, other' (length w2.persisters) new ∙ h3.3),
    )
