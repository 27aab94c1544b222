-- ===== src/KvTest/Tallies.antt =====
-- kvtest1/kvtest.go: what `CheckAppends` has seen of entries that the clients have put one by one, each
-- answered by OK.
use distributed_system.KvTest.{ClntRes}
use distributed_system.KvTest.Rounds.{EntryN, tallied}
use distributed_system.KvTest.Appends.{
  Seen, value, zeros, count_entries-refused, count_entries-counted, value-put, value-zeros,
  value-nil, count_entry, count_entries, within, check_appends,
}
use distributed_system.Prelude.{
  comparable_nat, comparable_list, List, arith, All, All-imp, Bool-cases, Map, [], eqb, get_elem?,
  get_elem?-lt, get_elem?-set_ne, get_elem?-set_self, ids_from, inl, inr, put, refl, set, some,
  subst, true, ℕ, ◌++◌, ◌+◌, ◌∙◌, ◌∷◌, ◌≡◌, ◌≤◌, Option-cases, ap, if◌then◌else◌, none,
  none-ne-some, some_inj, sym, get_elem?-some, length, length-replicate, replicate, suc, zero, ◌<◌,
}

-- The number of the next round of a client.

abbrev pub next_round : ClntRes → ℕ
next_round r = r.nok + r.nmaybe

-- A client of the map has a result that reaches the number.
abbrev HasRounds : List ClntRes → ℕ × ℕ → Type 0
HasRounds rs p = (r : ClntRes) × (get_elem? rs p.0 ≡ some r) × (p.1 ≤ next_round r)

All-put : (P : ℕ × ℕ → Type 0) (m : Map ℕ ℕ) (k v : ℕ) → All P m → P (k, v) → All P (put m k v)
unfolding put
All-put P [] k v h p = (p, tt)
All-put P ((k', v') ∷ m) k v (h, hs) p = elim (Bool-cases (eqb k' k)) [
  | inl hit ↦
      let at : k ≡ k' = ground (arith, hit) in rw (hit, put) (subst (λ x. P (x, v)) at p, hs)
  | inr miss ↦ rw (miss, put) (h, All-put P m k v hs p)
]

-- What CheckAppends has seen agrees with the results.
pub record Agree (nclnt : ℕ) (es : List EntryN) (rs : List ClntRes) (seen : Seen) : Type 0 where
  begun :
      count_entries es
        (record { expect = zeros (ids_from 0 nclnt) []; skipped = zeros (ids_from 0 nclnt) [] })
      ≡ some seen
  next : (c : ℕ) (r : ClntRes) → get_elem? rs c ≡ some r → value seen.expect c ≡ next_round r
  none_skipped : (c : ℕ) → value seen.skipped c ≡ 0
  known : All (HasRounds rs) seen.expect

count_entry-next :
    (c n : ℕ) (seen : Seen)
    → value seen.expect c ≡ n
    → count_entry (record { id = c; n = n }) seen
      ≡ some (record seen { expect = put seen.expect c (n + 1) })
unfolding count_entry
count_entry-next c n seen h = ground (arith, h)

count_entries-behind :
    (es : List EntryN) (e : EntryN) (seen mid last : Seen)
    → count_entries es seen ≡ some mid
    → count_entry e mid ≡ some last
    → count_entries (es ++ e ∷ []) seen ≡ some last
unfolding count_entries
count_entries-behind [] e seen mid last h k =
    let k' = subst (λ x. count_entry e x ≡ some last) (sym (some_inj h)) k in
    ap (λ o. elim o [ none ↦ none | some s ↦ some s ]) k'
count_entries-behind (x ∷ es) e seen mid last h k = elim (Option-cases (count_entry x seen)) [
  | inl gone ↦ absurd (none-ne-some (sym (count_entries-refused x es seen gone) ∙ h))
  | inr (s, e1) ↦
      count_entries-counted x (es ++ e ∷ []) seen s e1
      ∙ count_entries-behind es e s mid last (sym (count_entries-counted x es seen s e1) ∙ h) k
]

HasRounds-set :
    (rs : List ClntRes) (c : ℕ) (r r' : ClntRes)
    → get_elem? rs c ≡ some r
    → next_round r ≤ next_round r'
    → (p : ℕ × ℕ) → HasRounds rs p
    → HasRounds (set rs c r') p
HasRounds-set rs c r r' at le p (q, there, top) = elim (Bool-cases (eqb c p.0)) [
  | inl hit ↦
      let at_c : c ≡ p.0 = ground (arith, hit) in
      let same : r ≡ q = some_inj (sym (subst (λ x. get_elem? rs x ≡ some r) at_c at) ∙ there) in
      let more = ap next_round same in
      (
        r',
        subst (λ x. get_elem? (set rs c r') x ≡ some r') at_c
            (get_elem?-set_self rs c r' (get_elem?-lt rs c at)),
        omega (arith, top, le, more),
      )
  | inr miss ↦ (q, get_elem?-set_ne rs c p.0 r' (λ e. ground (arith, miss, e)) ∙ there, top)
]

pub Agree-tallied :
    (nclnt : ℕ) (es : List EntryN) (rs : List ClntRes) (seen : Seen) (c : ℕ) (r : ClntRes)
    → Agree nclnt es rs seen
    → get_elem? rs c ≡ some r
    → (seen' : Seen) × Agree nclnt
        (es ++ record { id = c; n = next_round r } ∷ [])
        (set rs c (tallied true r))
        seen'
Agree-tallied nclnt es rs seen c r h at =
    let n = next_round r in
    let seen' : Seen = record seen { expect = put seen.expect c (n + 1) } in
    let self = get_elem?-set_self rs c (tallied true r) (get_elem?-lt rs c at) in
    (
      seen',
      record {
        begun =
            count_entries-behind es _ _ seen seen' h.begun
              (count_entry-next c n seen (h.next c r at));
        next = λ d q there. elim (Bool-cases (eqb c d)) [
          | inl hit ↦
              let at_d : c ≡ d = ground (arith, hit) in
              let same = some_inj (
                sym (
                  subst (λ x. get_elem? (set rs c (tallied true r)) x ≡ some (tallied true r)) at_d
                    self)
                ∙ there) in
              let more : n + 1 ≡ next_round (tallied true r) = omega arith in
              value-put seen.expect c d (n + 1)
              ∙ ap (λ b. if b then n + 1 else value seen.expect d) hit
              ∙ more
              ∙ ap next_round same
          | inr miss ↦
              value-put seen.expect c d (n + 1)
              ∙ ap (λ b. if b then n + 1 else value seen.expect d) miss
              ∙ h.next d q (
                  sym (get_elem?-set_ne rs c d (tallied true r) (λ e. ground (arith, miss, e)))
                  ∙ there)
        ];
        none_skipped = h.none_skipped;
        known =
            All-put (HasRounds (set rs c (tallied true r))) seen.expect c (n + 1)
              (All-imp (HasRounds-set rs c r (tallied true r) at (omega arith)) seen.expect h.known)
              (tallied true r, self, omega arith);
      },
    )

within-known :
    (expect skipped : Map ℕ ℕ) (rs : List ClntRes)
    → ((c : ℕ) → value skipped c ≡ 0)
    → All (HasRounds rs) expect
    → within expect skipped rs ≡ true
unfolding within
within-known [] skipped rs none_yet h = refl
within-known ((c, n) ∷ expect) skipped rs none_yet ((r, at, le), h) =
    ground (arith, at, le, none_yet c, within-known expect skipped rs none_yet h)

-- The results of clients that have not begun.
abbrev pub no_rounds : ℕ → List ClntRes
no_rounds n = replicate n (record { nok = 0; nmaybe = 0 })

no_rounds-none : (n c : ℕ) (r : ClntRes) → get_elem? (no_rounds n) c ≡ some r → next_round r ≡ 0
no_rounds-none zero c r h = absurd (none-ne-some h)
no_rounds-none (suc n) zero r h = ap next_round (sym (some_inj h))
no_rounds-none (suc n) (suc c) r h = no_rounds-none n c r h

no_rounds-HasRounds : (n c : ℕ) → c < n → HasRounds (no_rounds n) (c, 0)
no_rounds-HasRounds n c lt =
    let (r, at) =
      get_elem?-some (no_rounds n) c
        (omega (arith, lt, length-replicate {A = ClntRes} n (record { nok = 0; nmaybe = 0 }))) in
    (r, at, omega arith)

zeros-known :
    (n j k : ℕ) (m : Map ℕ ℕ)
    → j + k ≤ n
    → All (HasRounds (no_rounds n)) m
    → All (HasRounds (no_rounds n)) (zeros (ids_from j k) m)
zeros-known n j zero m fits h = h
zeros-known n j (suc k) m fits h =
    zeros-known n (j + 1) k (put m j 0) (omega (arith, fits))
      (All-put (HasRounds (no_rounds n)) m j 0 h (no_rounds-HasRounds n j (omega (arith, fits))))

pub Agree-begun :
    (n : ℕ)
    → Agree n []
        (no_rounds n)
        (record { expect = zeros (ids_from 0 n) []; skipped = zeros (ids_from 0 n) [] })
unfolding count_entries
Agree-begun n = record {
  begun = refl;
  next = λ c r at. value-zeros (ids_from 0 n) [] c (value-nil c) ∙ sym (no_rounds-none n c r at);
  none_skipped = λ c. value-zeros (ids_from 0 n) [] c (value-nil c);
  known = zeros-known n 0 n [] (omega arith) tt;
}

pub Agree-check_appends :
    (n : ℕ) (es : List EntryN) (rs : List ClntRes) (seen : Seen)
    → Agree n es rs seen
    → check_appends es n rs (length es + 1) ≡ true
unfolding check_appends
Agree-check_appends n es rs seen h =
    let inside = within-known seen.expect seen.skipped rs h.none_skipped h.known in
    rw (h.begun, inside, check_appends) (ground arith)
