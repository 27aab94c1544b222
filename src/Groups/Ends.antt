-- ===== src/Groups/Ends.antt =====
-- tester1/group.go and tester1/srv.go: which ends are enabled after `connect` and `disconnect`.
use distributed_system.Groups.{
  Server, ServerGrp, enable_each, disable_each, connect_out, connect_in, disconnect_out,
  disconnect_in, connect_server, disconnect_server, end_at,
}
use distributed_system.Labrpc.{Network, enable, is_enabled}
use distributed_system.Prelude.{
  comparable_nat, comparable_list, not, All, Bool, List, Option, Str, [], arith, false, get-put,
  get_elem?, if◌then◌else◌, length, none, refl, some, true, ℕ, ◌&&◌, ◌<◌, ◌==◌, ◌||◌, ◌∷◌, ◌≡◌,
  Bool-cases, contains, eqb, get_elem?-some, inl, inr, ==_refl, ap, length-set, set, subst, ◌∙◌,
  ◌>>=◌,
}

is_enabled-enable :
    (e e' : Str) (on : Bool) (net : Network)
    → is_enabled (enable e on net) e' ≡ (if e == e' then on else is_enabled net e')
unfolding enable
is_enabled-enable e e' on net = ground (arith, get-put net.enabled e e' on)

abbrev pub flag : List Bool → ℕ → Bool
flag connected j = elim (get_elem? connected j) [ none ↦ false | some on ↦ on ]

-- Whether `e` is the end of a listed server `j` with `on j`.
abbrev hits : (ℕ → Str) → (ℕ → Bool) → List ℕ → Str → Bool
hits name on [] e = false
hits name on (j ∷ to) e = (on j && name j == e) || hits name on to e

abbrev Enables : Option Network → (Str → Bool) → Type 0
Enables r P = (net : Network) × (r ≡ some net) × ((e : Str) → is_enabled net e ≡ P e)

module _ (n : ℕ) (end_of : ℕ → Option Str) (name : ℕ → Str)
    (named : (j : ℕ) → j < n → end_of j ≡ some (name j)) where
  -- What a pass over server `j` adds, when `after` is what it leaves.
  enable_each-first :
      (connected : List Bool) (j : ℕ) (to : List ℕ) (net : Network) (on : Bool)
      → get_elem? connected j ≡ some on
      → j < n
      → ((after : Network)
          → Enables
              (enable_each end_of connected to after)
              (λ e. hits name (flag connected) to e || is_enabled after e))
      → Enables
          (enable_each end_of connected (j ∷ to) net)
          (λ e. hits name (flag connected) (j ∷ to) e || is_enabled net e)
  unfolding enable_each
  enable_each-first connected j to net true found lt rest =
      let (net', eq, same) = rest (enable (name j) true net) in
      (
        net',
        rw (found, named j lt, enable_each) eq,
        λ e. ground (arith, found, same e, is_enabled-enable (name j) e true net),
      )
  enable_each-first connected j to net false found lt rest =
      let (net', eq, same) = rest net in
      (net', rw (found, enable_each) eq, λ e. ground (arith, found, same e))

  enable_each-Enables :
      (connected : List Bool) (to : List ℕ) (net : Network)
      → length connected ≡ n
      → All (λ j. j < n) to
      → Enables
          (enable_each end_of connected to net)
          (λ e. hits name (flag connected) to e || is_enabled net e)
  unfolding enable_each
  enable_each-Enables connected [] net h k = (net, refl, λ e. refl)
  enable_each-Enables connected (j ∷ to) net h k =
      let (on, found) = get_elem?-some connected j (omega (arith, h, k.0)) in
      enable_each-first connected j to net on found k.0
        (λ after. enable_each-Enables connected to after h k.1)

  disable_each-Enables :
      (from : List ℕ) (net : Network)
      → All (λ j. j < n) from
      → Enables
          (disable_each end_of from net)
          (λ e. not (hits name (λ _. true) from e) && is_enabled net e)
  unfolding disable_each
  disable_each-Enables [] net k = (net, refl, λ e. refl)
  disable_each-Enables (j ∷ from) net k =
      let (net', eq, same) = disable_each-Enables from (enable (name j) false net) k.1 in
      (
        net',
        rw (named j k.0, disable_each) eq,
        λ e. ground (arith, same e, is_enabled-enable (name j) e false net),
      )

connect_server-result :
    (i : ℕ) (to : List ℕ) (sg : ServerGrp) (net : Network) (was : Bool) (s : Server)
    (out net' : Network)
    → get_elem? sg.connected i ≡ some was
    → get_elem? sg.srvs i ≡ some s
    → enable_each (get_elem? s.end_names) (set sg.connected i true) to net ≡ some out
    → enable_each (λ j. end_at sg.srvs j i) (set sg.connected i true) to out ≡ some net'
    → connect_server i to sg net ≡ some (record sg { connected = set sg.connected i true }, net')
unfolding connect_server connect_out connect_in
connect_server-result i to sg net was s out net' known found e e' =
    rw (known, found, e, e', connect_server) refl

disconnect_server-result :
    (i : ℕ) (from : List ℕ) (sg : ServerGrp) (net : Network) (was : Bool) (s : Server)
    (out net' : Network)
    → get_elem? sg.connected i ≡ some was
    → get_elem? sg.srvs i ≡ some s
    → disable_each (get_elem? s.end_names) from net ≡ some out
    → disable_each (λ j. end_at sg.srvs j i) from out ≡ some net'
    → disconnect_server i from sg net
      ≡ some (record sg { connected = set sg.connected i false }, net')
unfolding disconnect_server disconnect_out disconnect_in
disconnect_server-result i from sg net was s out net' known found e e' =
    rw (known, found, e, e', disconnect_server) refl

-- A group of `n` servers, whose ends have the names `name`, no two alike.
pub record HasEnds (n : ℕ) (name : ℕ → ℕ → Str) (sg : ServerGrp) : Type 0 where
  pub servers : length sg.srvs ≡ n
  pub flags : length sg.connected ≡ n
  pub ends : (a b : ℕ) → a < n → b < n → end_at sg.srvs a b ≡ some (name a b)

abbrev pub AreDistinct : ℕ → (ℕ → ℕ → Str) → Type 0
AreDistinct n name =
    (a b c d : ℕ) → a < n → b < n → c < n → d < n → name a b ≡ name c d → (a ≡ c) × (b ≡ d)

module _ (n : ℕ) (name : ℕ → ℕ → Str) (distinct : AreDistinct n name) where
  twin : (a b c d : ℕ) → a ≡ c → b ≡ d → (name a b == name c d) ≡ true
  twin a b c d p q =
      subst (λ x. (name a b == name x d) ≡ true) p
        (subst (λ y. (name a b == name a y) ≡ true) q (==_refl (name a b)))

  same_end :
      (a b c d : ℕ) → a < n → b < n → c < n → d < n → (name a b == name c d) ≡ (eqb a c && eqb b d)
  same_end a b c d ha hb hc hd = elim (Bool-cases (name a b == name c d)) [
    | inl hit ↦
        let e =
          distinct a b c d ha hb hc hd ((comparable_list.exact (name a b) (name c d)).0 hit) in
        ground (arith, hit, e)
    | inr miss ↦ ground (arith, miss, twin a b c d)
  ]

  hits_out :
      (on : ℕ → Bool) (i a b : ℕ) (to : List ℕ)
      → i < n
      → a < n
      → b < n
      → All (λ j. j < n) to
      → hits (name i) on to (name a b) ≡ (eqb i a && contains b to && on b)
  hits_out on i a b [] hi ha hb h = ground arith
  hits_out on i a b (j ∷ to) hi ha hb h =
      let same : j ≡ b → on j ≡ on b = ap on in
      ground (arith, same_end i j a b hi h.0 ha hb, hits_out on i a b to hi ha hb h.1, same)

  hits_in :
      (on : ℕ → Bool) (i a b : ℕ) (to : List ℕ)
      → i < n
      → a < n
      → b < n
      → All (λ j. j < n) to
      → hits (λ j. name j i) on to (name a b) ≡ (eqb i b && contains a to && on a)
  hits_in on i a b [] hi ha hb h = ground arith
  hits_in on i a b (j ∷ to) hi ha hb h =
      let same : j ≡ a → on j ≡ on a = ap on in
      ground (arith, same_end j i a b h.0 hi ha hb, hits_in on i a b to hi ha hb h.1, same)

  -- Whether the end from `a` to `b` is between server `i` and a listed one with `on`.
  abbrev pub joins : ℕ → List ℕ → (ℕ → Bool) → ℕ → ℕ → Bool
  joins i to on a b = (eqb i a && contains b to && on b) || (eqb i b && contains a to && on a)

  abbrev pub Leads : Option (ServerGrp × Network) → List Bool → (ℕ → ℕ → Bool) → Type 0
  Leads r connected P =
      (st : ServerGrp × Network) × (r ≡ some st)
      × HasEnds n name st.0
      × (st.0.connected ≡ connected)
      × ((a b : ℕ) → a < n → b < n → is_enabled st.1 (name a b) ≡ P a b)

  named_out :
      (sg : ServerGrp) (i : ℕ) (s : Server)
      → HasEnds n name sg
      → i < n
      → get_elem? sg.srvs i ≡ some s
      → (j : ℕ) → j < n
      → get_elem? s.end_names j ≡ some (name i j)
  named_out sg i s h lt found j k =
      subst (λ o. (o >>= λ s'. get_elem? s'.end_names j) ≡ some (name i j)) found (h.ends i j lt k)

  pub connect_server-Leads :
      (i : ℕ) (to : List ℕ) (sg : ServerGrp) (net : Network)
      → HasEnds n name sg
      → i < n
      → All (λ j. j < n) to
      → Leads
          (connect_server i to sg net)
          (set sg.connected i true)
          (λ a b. joins i to (flag (set sg.connected i true)) a b || is_enabled net (name a b))
  unfolding connect_server connect_out connect_in
  connect_server-Leads i to sg net h lt k =
      let (was, known) = get_elem?-some sg.connected i (omega (arith, h.flags, lt)) in
      let (s, found) = get_elem?-some sg.srvs i (omega (arith, h.servers, lt)) in
      let on = set sg.connected i true in
      let size : length on ≡ n = length-set sg.connected i true ∙ h.flags in
      let (out, eq, same) =
        enable_each-Enables n (get_elem? s.end_names) (name i) (named_out sg i s h lt found) on to
          net size k in
      let (net', eq', same') =
        enable_each-Enables n (λ j. end_at sg.srvs j i) (λ j. name j i) (λ j le. h.ends j i le lt)
          on to out size k in
      (
        (record sg { connected = on }, net'),
        connect_server-result i to sg net was s out net' known found eq eq',
        record { servers = h.servers; flags = size; ends = h.ends },
        refl,
        λ a b ha hb. ground (
          arith,
          same (name a b),
          same' (name a b),
          hits_out (flag on) i a b to lt ha hb k,
          hits_in (flag on) i a b to lt ha hb k,
        ),
      )

  pub disconnect_server-Leads :
      (i : ℕ) (from : List ℕ) (sg : ServerGrp) (net : Network)
      → HasEnds n name sg
      → i < n
      → All (λ j. j < n) from
      → Leads
          (disconnect_server i from sg net)
          (set sg.connected i false)
          (λ a b. not (joins i from (λ _. true) a b) && is_enabled net (name a b))
  disconnect_server-Leads i from sg net h lt k =
      let (was, known) = get_elem?-some sg.connected i (omega (arith, h.flags, lt)) in
      let (s, found) = get_elem?-some sg.srvs i (omega (arith, h.servers, lt)) in
      let (out, eq, same) =
        disable_each-Enables n (get_elem? s.end_names) (name i) (named_out sg i s h lt found) from
          net k in
      let (net', eq', same') =
        disable_each-Enables n (λ j. end_at sg.srvs j i) (λ j. name j i) (λ j le. h.ends j i le lt)
          from out k in
      (
        (record sg { connected = set sg.connected i false }, net'),
        disconnect_server-result i from sg net was s out net' known found eq eq',
        record {
          servers = h.servers;
          flags = length-set sg.connected i false ∙ h.flags;
          ends = h.ends;
        },
        refl,
        λ a b ha hb. ground (
          arith,
          same (name a b),
          same' (name a b),
          hits_out (λ _. true) i a b from lt ha hb k,
          hits_in (λ _. true) i a b from lt ha hb k,
        ),
      )
