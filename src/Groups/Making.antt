-- ===== src/Groups/Making.antt =====
-- tester1/group.go and tester1/srv.go: the ends of a group that `makeSrvGrp` has made.
use distributed_system.Groups.{
  World, Server, ServerGrp, make_ends, make_server, make_servers, make_srv_grp, server_name, end_at,
}
use distributed_system.Groups.Ends.{HasEnds, AreDistinct}
use distributed_system.Labrpc.{Network, ok, make_end, connect}
use distributed_system.Prelude.{
  comparable_nat, comparable_list, List, Str, arith, Bool-cases, [], eqb, false, get, get-put_ne,
  get-put_self, get_elem?, inl, inr, length, none, refl, some, suc, zero, ℕ, ℤ, ◌+◌, ◌<◌, ◌∙◌, ◌∷◌,
  ◌≡◌, ◌≢◌, ◌≤◌, ap, put, subst, sym, ids_from, length-replicate, map, replicate,
}

-- The end `e` leads to the server `to`, but is not enabled.
abbrev pub IsMade : Network → Str → Str → Type 0
IsMade net e to = (get net.enabled e ≡ some false) × (get net.connections e ≡ some (some to))

-- The two networks have the same end under a name, or none.
abbrev pub Same : Network → Network → Str → Type 0
Same net net' e =
    (get net'.ends e ≡ get net.ends e)
    × (get net'.enabled e ≡ get net.enabled e)
    × (get net'.connections e ≡ get net.connections e)

Same-trans : (a b c : Network) (e : Str) → Same a b e → Same b c e → Same a c e
Same-trans a b c e (p, q, r) (p', q', r') = (p' ∙ p, q' ∙ q, r' ∙ r)

IsMade-Same :
    (net net' : Network) (e to : Str) → Same net net' e → IsMade net e to → IsMade net' e to
IsMade-Same net net' e to (p, q, r) (on, there) = (q ∙ on, r ∙ there)

-- MakeEnd and Connect, for a new name.
make_end-IsMade :
    (e to : Str) (net : Network)
    → get net.ends e ≡ none
    → (made : Network) × (make_end e net ≡ ok made)
      × IsMade (connect e to made) e to
      × ((e' : Str) → e ≢ e' → Same net (connect e to made) e')
unfolding make_end connect
make_end-IsMade e to net new = (
  record net {
    ends = put net.ends e e;
    enabled = put net.enabled e false;
    connections = put net.connections e none;
  },
  rw (new, make_end) refl,
  (get-put_self net.enabled e false, get-put_self (put net.connections e none) e (some to)),
  λ e' ne. (
    get-put_ne net.ends e e' e ne,
    get-put_ne net.enabled e e' false ne,
    get-put_ne (put net.connections e none) e e' (some to) ne
        ∙ get-put_ne net.connections e e' none ne,
  ),
)

module _ (random : ℕ → Str) (gid : ℤ) where
  abbrev IsOther : ℕ → ℕ → Str → Type 0
  IsOther j n e = (k : ℕ) → j ≤ k → k < j + n → random k ≢ e

  make_ends-result :
      (j n : ℕ) (net made : Network) (names : List Str) (net' : Network)
      → make_end (random j) net ≡ ok made
      → make_ends random gid (j + 1) n (connect (random j) (server_name gid j) made)
        ≡ some (names, net')
      → make_ends random gid j (suc n) net ≡ some (random j ∷ names, net')
  unfolding make_ends
  make_ends-result j n net made names net' e h = rw (e, h, make_ends) refl

  first_names :
      (j n : ℕ) (names : List Str)
      → ((k : ℕ) → k < n → get_elem? names k ≡ some (random (j + 1 + k)))
      → (k : ℕ) → k < suc n
      → get_elem? (random j ∷ names) k ≡ some (random (j + k))
  first_names j n names at zero lt = ap (λ x. some (random x)) (omega arith)
  first_names j n names at (suc k) lt =
      at k (omega (arith, lt)) ∙ ap (λ x. some (random x)) (omega arith)

  make_ends-Makes :
      (j n : ℕ) (net : Network)
      → ((k l : ℕ) → j ≤ k → k < j + n → j ≤ l → l < j + n → random k ≡ random l → k ≡ l)
      → ((k : ℕ) → j ≤ k → k < j + n → get net.ends (random k) ≡ none)
      → (names : List Str) × (net' : Network) × (make_ends random gid j n net ≡ some (names, net'))
        × (length names ≡ n)
        × ((k : ℕ) → k < n → get_elem? names k ≡ some (random (j + k)))
        × ((k : ℕ) → j ≤ k → k < j + n → IsMade net' (random k) (server_name gid k))
        × ((e : Str) → IsOther j n e → Same net net' e)
  unfolding make_ends
  make_ends-Makes j zero net distinct new = (
    [],
    net,
    refl,
    refl,
    λ k lt. absurd (omega (arith, lt)),
    λ k le lt. absurd (omega (arith, le, lt)),
    λ e other. (refl, refl, refl),
  )
  make_ends-Makes j (suc n) net distinct new =
      let (made, e, own, others) =
        make_end-IsMade (random j) (server_name gid j) net (new j (omega arith) (omega arith)) in
      let next = connect (random j) (server_name gid j) made in
      let apart : (k : ℕ) → j + 1 ≤ k → k < j + 1 + n → random j ≢ random k = λ k le lt q. absurd (
        omega (
          arith,
          le,
          distinct j k (omega arith) (omega arith) (omega (arith, le)) (omega (arith, lt)) q,
        )) in
      let (names, net', eq, size, at, made', same) =
        make_ends-Makes (j + 1) n next
          (λ k l a b c d.
            distinct k l (omega (arith, a)) (omega (arith, b)) (omega (arith, c))
              (omega (arith, d)))
          (λ k le lt.
            (others (random k) (apart k le lt)).0
            ∙ new k (omega (arith, le)) (omega (arith, lt))) in
      (
        random j ∷ names,
        net',
        make_ends-result j n net made names net' e eq,
        ap suc size,
        first_names j n names at,
        λ k le lt. elim (Bool-cases (eqb j k)) [
          | inl hit ↦
              let at_j : j ≡ k = ground (arith, hit) in
              subst (λ x. IsMade net' (random x) (server_name gid x)) at_j
                (IsMade-Same next net' (random j) (server_name gid j)
                  (same (random j) (λ x a b q. apart x a b (sym q))) own)
          | inr miss ↦ made' k (ground (arith, le, miss)) (omega (arith, lt))
        ],
        λ e' other.
            Same-trans net next net' e' (others e' (other j (omega arith) (omega arith)))
              (same e' (λ k le lt. other k (omega (arith, le)) (omega (arith, lt)))),
      )

module _ (n : ℕ) (name : ℕ → ℕ → Str) (distinct : AreDistinct n name) (gid : ℤ) where
  -- What making the servers from `i` on, `k` of them, brings about.
  pub record Makes (i k : ℕ) (net : Network) (srvs : List Server) (net' : Network) : Type 0 where
    pub size : length srvs ≡ k
    pub ends : (a b : ℕ) → a < k → b < n → end_at srvs a b ≡ some (name (i + a) b)
    pub made : (a b : ℕ) → i ≤ a → a < i + k → b < n → IsMade net' (name a b) (server_name gid b)
    pub same : (e : Str) → ((a b : ℕ) → i ≤ a → a < i + k → b < n → name a b ≢ e) → Same net net' e

  make_server-result :
      (i : ℕ) (w : World) (names : List Str) (net' : Network)
      → make_ends (name i) gid 0 n w.net ≡ some (names, net')
      → make_server (name i) gid n w
        ≡ some (record { saved = none; svcs = []; end_names = names }, record w { net = net' })
  unfolding make_server
  make_server-result i w names net' e = rw (e, make_server) refl

  make_servers-result :
      (i k : ℕ) (w w1 w2 : World) (srv : Server) (srvs : List Server)
      → make_server (name i) gid n w ≡ some (srv, w1)
      → make_servers name gid n (i + 1) k w1 ≡ some (srvs, w2)
      → make_servers name gid n i (suc k) w ≡ some (srv ∷ srvs, w2)
  unfolding make_servers
  make_servers-result i k w w1 w2 srv srvs e h = rw (e, h, make_servers) refl

  first_ends :
      (i k : ℕ) (srv : Server) (srvs : List Server)
      → ((b : ℕ) → b < n → get_elem? srv.end_names b ≡ some (name i b))
      → ((a b : ℕ) → a < k → b < n → end_at srvs a b ≡ some (name (i + 1 + a) b))
      → (a b : ℕ) → a < suc k
      → b < n
      → end_at (srv ∷ srvs) a b ≡ some (name (i + a) b)
  first_ends i k srv srvs own others zero b la lb =
      own b lb ∙ ap (λ x. some (name x b)) (omega arith)
  first_ends i k srv srvs own others (suc a) b la lb =
      others a b (omega (arith, la)) lb ∙ ap (λ x. some (name x b)) (omega arith)

  make_servers-Makes :
      (i k : ℕ) (w : World)
      → i + k ≤ n
      → ((a b : ℕ) → i ≤ a → a < i + k → b < n → get w.net.ends (name a b) ≡ none)
      → (srvs : List Server) × (w' : World) × (make_servers name gid n i k w ≡ some (srvs, w'))
        × Makes i k w.net srvs w'.net
  unfolding make_servers
  make_servers-Makes i zero w fits new = (
    [],
    w,
    refl,
    record {
      size = refl;
      ends = λ a b la lb. absurd (omega (arith, la));
      made = λ a b le la lb. absurd (omega (arith, le, la));
      same = λ e other. (refl, refl, refl);
    },
  )
  make_servers-Makes i (suc k) w fits new =
      let li : i < n = omega (arith, fits) in
      let (names, net1, eq1, size1, at1, made1, same1) =
        make_ends-Makes (name i) gid 0 n w.net
          (λ a b x la y lb q. (distinct i a i b li (omega (arith, la)) li (omega (arith, lb)) q).1)
          (λ b x lb. new i b (omega arith) (omega arith) (omega (arith, lb))) in
      let apart : (a b : ℕ)
          → i + 1 ≤ a
          → a < i + 1 + k
          → b < n
          → IsOther (name i) gid 0 n (name a b) =
        λ a b le la lb c x lc q. absurd (
          omega (
            arith,
            le,
            (distinct i c a b li (omega (arith, lc)) (omega (arith, la, fits)) lb q).0,
          )) in
      let w1 : World = record w { net = net1 } in
      let (srvs, w2, eq2, makes) =
        make_servers-Makes (i + 1) k w1 (omega (arith, fits)) (λ a b le la lb.
          (same1 (name a b) (apart a b le la lb)).0
          ∙ new a b (omega (arith, le)) (omega (arith, la)) lb) in
      let srv : Server = record { saved = none; svcs = []; end_names = names } in
      (
        srv ∷ srvs,
        w2,
        make_servers-result i k w w1 w2 srv srvs (make_server-result i w names net1 eq1) eq2,
        record {
          size = ap suc makes.size;
          ends =
              first_ends i k srv srvs (λ b lb. at1 b lb ∙ ap (λ x. some (name i x)) (omega arith))
                makes.ends;
          made = λ a b le la lb. elim (Bool-cases (eqb i a)) [
            | inl hit ↦
                let at_i : i ≡ a = ground (arith, hit) in
                subst (λ x. IsMade w2.net (name x b) (server_name gid b)) at_i
                  (IsMade-Same net1 w2.net (name i b) (server_name gid b)
                    (makes.same (name i b) (λ c d x lc ld q.
                      apart c d x lc ld b (omega arith) (omega (arith, lb)) (sym q)))
                    (made1 b (omega arith) (omega (arith, lb))))
            | inr miss ↦ makes.made a b (ground (arith, le, miss)) (omega (arith, la)) lb
          ];
          same = λ e other.
              Same-trans w.net net1 w2.net e
                (same1 e (λ b x lb. other i b (omega arith) (omega arith) (omega (arith, lb))))
                (makes.same e
                  (λ a b le la lb. other a b (omega (arith, le)) (omega (arith, la)) lb));
        },
      )

  make_srv_grp-result :
      (w w' : World) (srvs : List Server)
      → make_servers name gid n 0 n w ≡ some (srvs, w')
      → make_srv_grp name gid n w
        ≡ some (
          record {
            srvs = srvs;
            servernames = map (server_name gid) (ids_from 0 n);
            gid = gid;
            connected = replicate n false;
          },
          w',
        )
  unfolding make_srv_grp
  make_srv_grp-result w w' srvs e = rw (e, make_srv_grp) refl

  -- When the random names are distinct and new, a group is made, and each of its servers has an end for
  -- every server, which is connected to it and is not enabled; every other end stays as it was.
  pub make_srv_grp-HasEnds :
      (w : World)
      → ((a b : ℕ) → a < n → b < n → get w.net.ends (name a b) ≡ none)
      → (sg : ServerGrp) × (w' : World) × (make_srv_grp name gid n w ≡ some (sg, w'))
        × HasEnds n name sg
        × ((a b : ℕ) → a < n → b < n → IsMade w'.net (name a b) (server_name gid b))
        × ((e : Str) → ((a b : ℕ) → a < n → b < n → name a b ≢ e) → Same w.net w'.net e)
  make_srv_grp-HasEnds w new =
      let (srvs, w', eq, makes) =
        make_servers-Makes 0 n w (omega arith) (λ a b le la lb. new a b (omega (arith, la)) lb) in
      (
        _,
        w',
        make_srv_grp-result w w' srvs eq,
        record {
          servers = makes.size;
          flags = length-replicate n false;
          ends = λ a b la lb. makes.ends a b la lb ∙ ap (λ x. some (name x b)) (omega arith);
        },
        λ a b la lb. makes.made a b (omega arith) (omega (arith, la)) lb,
        λ e other. makes.same e (λ a b le la lb. other a b (omega (arith, la)) lb),
      )
