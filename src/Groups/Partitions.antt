-- ===== src/Groups/Partitions.antt =====
-- tester1/group.go: `Partition` cuts every connection between the parts and makes all within them.
use distributed_system.Groups.{ServerGrp, connect_server, disconnect_server}
use distributed_system.Groups.Operations.{isolate, partition_servers}
use distributed_system.Groups.Ends.{
  HasEnds, AreDistinct, flag, joins, Leads, connect_server-Leads, disconnect_server-Leads,
}
use distributed_system.Labrpc.{Network, is_enabled}
use distributed_system.Prelude.{
  comparable_nat, not, All, Bool, Bool-cases, List, Str, ap, arith, contains, eqb, false, get_elem?,
  get_elem?-set_ne, get_elem?-set_self, if◌then◌else◌, inl, inr, length, none, set, set-set, some,
  subst, true, ℕ, ◌&&◌, ◌<◌, ◌>>=◌, ◌||◌, ◌∙◌, ◌≡◌, ◌≢◌, Option, [], refl, ◌∷◌, sym,
}

abbrev pub AreDisjoint : List ℕ → List ℕ → Type 0
AreDisjoint xs ys = (j : ℕ) → contains j xs ≡ true → contains j ys ≡ false

flag-set :
    (xs : List Bool) (i j : ℕ)
    → i < length xs
    → flag (set xs i true) j ≡ (if eqb i j then true else flag xs j)
flag-set xs i j h = elim (Bool-cases (eqb i j)) [
  | inl same ↦
      let e : i ≡ j = ground (arith, same) in
      rw same (
        ap (λ o. elim o [ none ↦ false | some on ↦ on ])
          (subst (λ k. get_elem? (set xs i true) k ≡ some true) e (get_elem?-set_self xs i true h)))
  | inr differ ↦
      let ne : i ≢ j = ground (arith, differ) in
      rw differ (ap (λ o. elim o [ none ↦ false | some on ↦ on ]) (get_elem?-set_ne xs i j true ne))
]

module _ (n : ℕ) (name : ℕ → ℕ → Str) (distinct : AreDistinct n name) where
  -- One round of a loop of `Partition`.
  round-Leads :
      (i : ℕ) (own other : List ℕ) (sg : ServerGrp) (net : Network)
      → HasEnds n name sg
      → i < n
      → All (λ j. j < n) own
      → All (λ j. j < n) other
      → Leads n name distinct
          (disconnect_server i other sg net >>= λ st. connect_server i own st.0 st.1)
          (set sg.connected i true)
          (λ a b.
            joins n name distinct i own (flag (set sg.connected i true)) a b
            || (not (joins n name distinct i other (λ _. true) a b) && is_enabled net (name a b)))
  round-Leads i own other sg net h lt ko kr =
      let (cut, e, hc, conn, off) =
        disconnect_server-Leads n name distinct i other sg net h lt kr in
      let (st, e', hs, conn', on) =
        connect_server-Leads n name distinct i own cut.0 cut.1 hc lt ko in
      let again : set cut.0.connected i true ≡ set sg.connected i true =
        ap (λ c. set c i true) conn ∙ set-set sg.connected i false true in
      (
        st,
        rw (e, ◌>>=◌) e',
        hs,
        conn' ∙ again,
        λ a b ha hb.
            on a b ha hb
            ∙ ap (λ c. joins n name distinct i own (flag c) a b || is_enabled cut.1 (name a b))
                again
            ∙ ap (λ x. joins n name distinct i own (flag (set sg.connected i true)) a b || x)
                (off a b ha hb),
      )

  -- What holds of the servers that the loop has treated.
  record Split (other : List ℕ) (treated : ℕ → Bool) (st : ServerGrp × Network) : Type 0 where
    up : (a : ℕ) → a < n → treated a ≡ true → flag st.0.connected a ≡ true
    inside :
        (a b : ℕ)
        → a < n
        → b < n
        → treated a ≡ true
        → treated b ≡ true
        → is_enabled st.1 (name a b) ≡ true
    across :
        (a b : ℕ)
        → a < n
        → b < n
        → treated a ≡ true
        → contains b other ≡ true
        → (is_enabled st.1 (name a b) ≡ false) × (is_enabled st.1 (name b a) ≡ false)

  abbrev and_one : ℕ → (ℕ → Bool) → ℕ → Bool
  and_one i treated a = eqb i a || treated a

  contains_at :
      (i a : ℕ) (own : List ℕ) → contains i own ≡ true → eqb i a ≡ true → contains a own ≡ true
  contains_at i a own mine hit =
      let e : i ≡ a = ground (arith, hit) in subst (λ k. contains k own ≡ true) e mine

  round-Split :
      (i : ℕ) (own other : List ℕ) (treated : ℕ → Bool) (st st' : ServerGrp × Network)
      → i < n
      → contains i own ≡ true
      → AreDisjoint own other
      → ((a : ℕ) → treated a ≡ true → contains a own ≡ true)
      → Split other treated st
      → ((a : ℕ) → flag st'.0.connected a ≡ (if eqb i a then true else flag st.0.connected a))
      → ((a b : ℕ)
          → a < n
          → b < n
          → is_enabled st'.1 (name a b) ≡ (
              joins n name distinct i own (flag st'.0.connected) a b
              || (not (joins n name distinct i other (λ _. true) a b)
                  && is_enabled st.1 (name a b))))
      → Split other (and_one i treated) st'
  round-Split i own other treated st st' lt mine apart sub h ups enabled =
      let at = λ (a : ℕ). contains_at i a own mine in
      let ours : (a : ℕ) → and_one i treated a ≡ true → contains a own ≡ true =
        λ a t. ground (arith, t, at a, sub a) in
      let up : (a : ℕ) → a < n → and_one i treated a ≡ true → flag st'.0.connected a ≡ true =
        λ a ha t. ground (arith, ups a, t, h.up a ha) in
      record {
        up = up;
        inside = λ a b ha hb ta tb. ground (
          arith,
          enabled a b ha hb,
          ours a ta,
          ours b tb,
          up a ha ta,
          up b hb tb,
          apart a (ours a ta),
          apart b (ours b tb),
          h.inside a b ha hb,
          ta,
          tb,
        );
        across = λ a b ha hb ta cb.
            let foreign : contains b own ≡ false = ground (arith, apart b, cb) in
            (
              ground (
                arith,
                enabled a b ha hb,
                ours a ta,
                apart a (ours a ta),
                foreign,
                at b,
                ta,
                cb,
                λ (t : treated a ≡ true). (h.across a b ha hb t cb).0,
              ),
              ground (
                arith,
                enabled b a hb ha,
                ours a ta,
                apart a (ours a ta),
                foreign,
                at b,
                ta,
                cb,
                λ (t : treated a ≡ true). (h.across a b ha hb t cb).1,
              ),
            );
      }

  Split-imp :
      (other : List ℕ) (treated fewer : ℕ → Bool) (st : ServerGrp × Network)
      → ((a : ℕ) → fewer a ≡ true → treated a ≡ true)
      → Split other treated st
      → Split other fewer st
  Split-imp other treated fewer st f h = record {
    up = λ a ha t. h.up a ha (f a t);
    inside = λ a b ha hb ta tb. h.inside a b ha hb (f a ta) (f b tb);
    across = λ a b ha hb ta cb. h.across a b ha hb (f a ta) cb;
  }

  -- What a loop of `Partition` leaves, from `st` on.
  abbrev Isolates :
      List ℕ → List ℕ → (ℕ → Bool) → ServerGrp × Network → Option (ServerGrp × Network) → Type 0
  Isolates own other treated st r =
      (st' : ServerGrp × Network) × (r ≡ some st')
      × HasEnds n name st'.0
      × Split other treated st'
      × ((a b : ℕ)
          → a < n
          → b < n
          → contains a own ≡ false
          → contains b own ≡ false
          → is_enabled st'.1 (name a b) ≡ is_enabled st.1 (name a b))

  abbrev or_listed : List ℕ → (ℕ → Bool) → ℕ → Bool
  or_listed rest treated a = contains a rest || treated a

  isolate-Isolates :
      (rest own other : List ℕ) (treated : ℕ → Bool) (st : ServerGrp × Network)
      → All (λ j. j < n) rest
      → All (λ j. j < n) own
      → All (λ j. j < n) other
      → AreDisjoint own other
      → ((a : ℕ) → or_listed rest treated a ≡ true → contains a own ≡ true)
      → HasEnds n name st.0
      → Split other treated st
      → Isolates own other (or_listed rest treated) st (isolate rest own other st)
  unfolding isolate
  isolate-Isolates [] own other treated st kr ko kt apart sub h split =
      (st, refl, h, split, λ a b ha hb ca cb. refl)
  isolate-Isolates (i ∷ rest) own other treated (sg, net) kr ko kt apart sub h split =
      let mine : contains i own ≡ true = sub i (ground arith) in
      let at = λ (a : ℕ). contains_at i a own mine in
      let (st1, e, h1, conn, enabled) = round-Leads i own other sg net h kr.0 ko kt in
      let split1 : Split other (and_one i treated) st1 =
        round-Split i own other treated (sg, net) st1 kr.0 mine apart
          (λ a t. sub a (ground (arith, t))) split
          (λ a. ap (λ c. flag c a) conn ∙ flag-set sg.connected i a (omega (arith, kr.0, h.flags)))
          (λ a b ha hb.
            enabled a b ha hb
            ∙ ap
                (λ c.
                  joins n name distinct i own (flag c) a b
                  || (not (joins n name distinct i other (λ _. true) a b)
                      && is_enabled net (name a b)))
                (sym conn)) in
      let (st2, e2, h2, split2, frame2) =
        isolate-Isolates rest own other (and_one i treated) st1 kr.1 ko kt apart
          (λ a t. sub a (ground (arith, t))) h1 split1 in
      (
        st2,
        rw (e, isolate) e2,
        h2,
        Split-imp other _ _ st2 (λ a t. ground (arith, t)) split2,
        λ a b ha hb ca cb.
            frame2 a b ha hb ca cb ∙ ground (arith, enabled a b ha hb, ca, cb, at a, at b),
      )

  -- After Partition of a group, whatever was connected before, two servers of one part reach each
  -- other, and no server reaches one of the other part, when the ends have distinct names, the
  -- servers are there and the parts have none in common.
  pub partition_servers-Split :
      (p1 p2 : List ℕ) (st : ServerGrp × Network)
      → All (λ j. j < n) p1
      → All (λ j. j < n) p2
      → AreDisjoint p1 p2
      → HasEnds n name st.0
      → (st' : ServerGrp × Network) × (partition_servers p1 p2 st ≡ some st')
        × ((a b : ℕ)
            → a < n
            → b < n
            → (contains a p1 ≡ true → contains b p1 ≡ true → is_enabled st'.1 (name a b) ≡ true)
              × (contains a p2 ≡ true → contains b p2 ≡ true → is_enabled st'.1 (name a b) ≡ true)
              × (contains a p1 ≡ true
                  → contains b p2 ≡ true
                  → (is_enabled st'.1 (name a b) ≡ false) × (is_enabled st'.1 (name b a) ≡ false)))
  unfolding partition_servers
  partition_servers-Split p1 p2 st k1 k2 apart h =
      let other_way : AreDisjoint p2 p1 = λ j c. ground (arith, apart j, c) in
      let start : (own : List ℕ) (a : ℕ)
          → or_listed own (λ _. false) a ≡ true
          → contains a own ≡ true =
        λ own a t. ground (arith, t) in
      let nothing : (other : List ℕ) (st : ServerGrp × Network) → Split other (λ _. false) st =
        λ other st. record {
          up = λ a ha t. cc;
          inside = λ a b ha hb t. cc;
          across = λ a b ha hb t c. cc;
        } in
      let (st1, e1, h1, s1, f1) =
        isolate-Isolates p1 p1 p2 (λ _. false) st k1 k1 k2 apart (start p1) h (nothing p2 st) in
      let (st2, e2, h2, s2, f2) =
        isolate-Isolates p2 p2 p1 (λ _. false) st1 k2 k2 k1 other_way (start p2) h1
          (nothing p1 st1) in
      (
        st2,
        rw (e1, ◌>>=◌) e2,
        λ a b ha hb. (
          λ ca cb.
              f2 a b ha hb (apart a ca) (apart b cb)
              ∙ s1.inside a b ha hb (ground (arith, ca)) (ground (arith, cb)),
          λ ca cb. s2.inside a b ha hb (ground (arith, ca)) (ground (arith, cb)),
          λ ca cb. let (off, off') = s2.across b a hb ha (ground (arith, cb)) ca in (off', off),
        ),
      )
