-- ===== src/KvTest/Appends.antt =====
-- kvtest1/kvtest.go: `CheckAppends`, and what its verdict says of the entries.
use distributed_system.Prelude.{
  comparable_nat, Bool, List, Map, Option, [], arith, eqb, false, get, get-put, get_elem?, ids_from,
  if◌then◌else◌, inl, leb, length, ltb, none, put, refl, some, true, ℕ, ◌&&◌, ◌+◌, ◌-◌, ◌∷◌, ◌≡◌,
  ◌≤◌, Bool-cases, Option-cases, ap, inr, none-ne-some, some_inj, subst, sym, ◌∙◌,
}
use distributed_system.KvTest.{ClntRes}
use distributed_system.KvTest.Rounds.{EntryN}

-- A Go map of numbers: a missing key has 0.
abbrev pub value : Map ℕ ℕ → ℕ → ℕ
value m c = elim (get m c) [ none ↦ 0 | some n ↦ n ]

pub record Seen : Type 0 where
  pub expect : Map ℕ ℕ
  pub skipped : Map ℕ ℕ

abbrev pub zeros : List ℕ → Map ℕ ℕ → Map ℕ ℕ
zeros [] m = m
zeros (i ∷ is) m = zeros is (put m i 0)

-- The body of the loop over the entries: `none` is an old put.
unfoldable pub count_entry : EntryN → Seen → Option Seen
count_entry e seen =
    let expected = value seen.expect e.id in
    if ltb e.n expected
    then none
    else if eqb expected e.n
    then some (record seen { expect = put seen.expect e.id (expected + 1) })
    else some (record {
      expect = put seen.expect e.id (e.n + 1);
      skipped = put seen.skipped e.id (value seen.skipped e.id + (e.n - expected));
    })

unfoldable pub count_entries : List EntryN → Seen → Option Seen
count_entries [] seen = some seen
count_entries (e ∷ es) seen = elim (count_entry e seen) [
  | none ↦ none
  | some seen' ↦ count_entries es seen'
]

-- The loop over `expect`; a client without a result is a panic.
unfoldable pub within : Map ℕ ℕ → Map ℕ ℕ → List ClntRes → Bool
within [] skipped rs = true
within ((c, n) ∷ expect) skipped rs =
    let rest = within expect skipped rs in
    elim (get_elem? rs c) [
      | none ↦ false
      | some r ↦ leb (value skipped c) r.nmaybe && leb n (r.nok + r.nmaybe) && rest
    ]

-- Whether the check ends without a fatal error.
unfoldable pub check_appends : List EntryN → ℕ → List ClntRes → ℕ → Bool
check_appends es nclnt rs ver =
    let start = zeros (ids_from 0 nclnt) [] in
    elim (count_entries es (record { expect = start; skipped = start })) [
      | none ↦ false
      | some seen ↦ eqb (length es + 1) ver && within seen.expect seen.skipped rs
    ]

-- The numbers of the entries of a client.
abbrev pub ns_of : ℕ → List EntryN → List ℕ
ns_of c [] = []
ns_of c (e ∷ es) = if eqb e.id c then e.n ∷ ns_of c es else ns_of c es

abbrev pub Increasing : ℕ → List ℕ → Type 0
Increasing low [] = Unit
Increasing low (n ∷ ns) = (low ≤ n) × Increasing (n + 1) ns

-- One more than the last number.
abbrev pub end_of : ℕ → List ℕ → ℕ
end_of low [] = low
end_of low (n ∷ ns) = end_of (n + 1) ns

pub value-put : (m : Map ℕ ℕ) (k c v : ℕ) → value (put m k v) c ≡ (if eqb k c then v else value m c)
value-put m k c v = ground (arith, get-put m k c v)

pub value-nil : (c : ℕ) → value [] c ≡ 0
unfolding get
value-nil c = refl

pub value-zeros : (is : List ℕ) (m : Map ℕ ℕ) (c : ℕ) → value m c ≡ 0 → value (zeros is m) c ≡ 0
value-zeros [] m c h = h
value-zeros (i ∷ is) m c h = value-zeros is (put m i 0) c (ground (arith, value-put m i c 0, h))

-- What a counted entry changes for client `c`.
abbrev Entered : EntryN → Seen → ℕ → Seen → Type 0
Entered e seen c seen' =
    (value seen.expect e.id ≤ e.n)
    × (value seen'.expect c ≡ (if eqb e.id c then e.n + 1 else value seen.expect c))
    × (value seen'.skipped c ≡ (
        if eqb e.id c
        then value seen.skipped c + (e.n - value seen.expect c)
        else value seen.skipped c))

count_entry-Entered :
    (e : EntryN) (seen seen' : Seen) (c : ℕ)
    → count_entry e seen ≡ some seen'
    → Entered e seen c seen'
unfolding count_entry
count_entry-Entered e seen seen' c h =
    let expected = value seen.expect e.id in
    let same : e.id ≡ c → value seen.expect e.id ≡ value seen.expect c = ap (value seen.expect) in
    let same' : e.id ≡ c → value seen.skipped e.id ≡ value seen.skipped c =
      ap (value seen.skipped) in
    elim (Bool-cases (ltb e.n expected)) [
      | inl old ↦
          let refused : count_entry e seen ≡ none = rw (old, count_entry) refl in
          absurd (none-ne-some (sym refused ∙ h))
      | inr fine ↦ elim (Bool-cases (eqb expected e.n)) [
        | inl next ↦
            let counted : count_entry e seen
                ≡ some (record seen { expect = put seen.expect e.id (expected + 1) }) =
              rw (fine, next, count_entry) refl in
            subst (Entered e seen c) (some_inj (sym counted ∙ h)) (
              ground (arith, fine),
              ground (arith, value-put seen.expect e.id c (expected + 1), next),
              ground (arith, next, same),
            )
        | inr gap ↦
            let skip = value seen.skipped e.id + (e.n - expected) in
            let counted : count_entry e seen
                ≡ some (record {
                  expect = put seen.expect e.id (e.n + 1);
                  skipped = put seen.skipped e.id skip;
                }) =
              rw (fine, gap, count_entry) refl in
            subst (Entered e seen c) (some_inj (sym counted ∙ h)) (
              ground (arith, fine),
              ground (arith, value-put seen.expect e.id c (e.n + 1)),
              ground (arith, value-put seen.skipped e.id c skip, same, same'),
            )
      ]
    ]

-- Numbers of entries from `low` on, with `s` skipped before: `low'` comes next, and `s'` are skipped.
abbrev Tally : ℕ → ℕ → List ℕ → ℕ → ℕ → Type 0
Tally low s ns low' s' =
    Increasing low ns × (low' ≡ end_of low ns) × (s' + length ns + low ≡ s + end_of low ns)

end_of-le : (low : ℕ) (ns : List ℕ) → Increasing low ns → low ≤ end_of low ns
end_of-le low [] h = omega arith
end_of-le low (n ∷ ns) h = omega (arith, h.0, end_of-le (n + 1) ns h.1)

Tally-entry :
    (low s n m t : ℕ) (ns : List ℕ) (low' s' : ℕ)
    → low ≤ n
    → m ≡ n + 1
    → t ≡ s + (n - low)
    → Tally m t ns low' s'
    → Tally low s (n ∷ ns) low' s'
Tally-entry low s n m t ns low' s' le e f h =
    let (inc, next, total) = subst (λ x. Tally x t ns low' s') e h in
    ((le, inc), next, omega (arith, le, f, total, end_of-le (n + 1) ns inc))

Tally-same :
    (low s m t : ℕ) (ns : List ℕ) (low' s' : ℕ)
    → m ≡ low
    → t ≡ s
    → Tally m t ns low' s'
    → Tally low s ns low' s'
Tally-same low s m t ns low' s' e f h =
    subst (λ x. Tally low x ns low' s') f (subst (λ x. Tally x t ns low' s') e h)

abbrev Counted : ℕ → List EntryN → Seen → Seen → Type 0
Counted c es seen seen' =
    Tally (value seen.expect c) (value seen.skipped c) (ns_of c es) (value seen'.expect c)
      (value seen'.skipped c)

pub count_entries-refused :
    (e : EntryN) (es : List EntryN) (seen : Seen)
    → count_entry e seen ≡ none
    → count_entries (e ∷ es) seen ≡ none
unfolding count_entries
count_entries-refused e es seen h = rw (h, count_entries) refl

pub count_entries-counted :
    (e : EntryN) (es : List EntryN) (seen mid : Seen)
    → count_entry e seen ≡ some mid
    → count_entries (e ∷ es) seen ≡ count_entries es mid
unfolding count_entries
count_entries-counted e es seen mid h = rw (h, count_entries) refl

count_entries-Counted :
    (c : ℕ) (es : List EntryN) (seen seen' : Seen)
    → count_entries es seen ≡ some seen'
    → Counted c es seen seen'
unfolding count_entries
count_entries-Counted c [] seen seen' h =
    subst (Counted c [] seen) (some_inj h) (tt, refl, omega arith)
count_entries-Counted c (e ∷ es) seen seen' h = elim (Option-cases (count_entry e seen)) [
  | inl refused ↦ absurd (none-ne-some (sym (count_entries-refused e es seen refused) ∙ h))
  | inr (mid, counted) ↦
      let first = count_entry-Entered e seen mid c counted in
      let rest =
        count_entries-Counted c es mid seen'
          (sym (count_entries-counted e es seen mid counted) ∙ h) in
      elim (Bool-cases (eqb e.id c)) [
        | inl hit ↦
            let same : value seen.expect e.id ≡ value seen.expect c =
              ap (value seen.expect) (ground (arith, hit)) in
            rw hit (
              Tally-entry (value seen.expect c) (value seen.skipped c) e.n _ _ (ns_of c es) _ _
                (omega (arith, same, first.0)) (ground (arith, hit, first.1))
                (ground (arith, hit, first.2)) rest)
        | inr miss ↦ rw miss (
            Tally-same (value seen.expect c) (value seen.skipped c) _ _ (ns_of c es) _ _
              (ground (arith, miss, first.1)) (ground (arith, miss, first.2)) rest)
      ]
]

-- The bounds of one client, in Booleans.
abbrev in_bounds : Map ℕ ℕ → ℕ → ClntRes → ℕ → Bool
in_bounds skipped c r n = leb (value skipped c) r.nmaybe && leb n (r.nok + r.nmaybe)

within-first :
    (c n : ℕ) (expect skipped : Map ℕ ℕ) (rs : List ClntRes)
    → within ((c, n) ∷ expect) skipped rs ≡ true
    → ((r : ClntRes) → get_elem? rs c ≡ some r → in_bounds skipped c r n ≡ true)
      × (within expect skipped rs ≡ true)
unfolding within
within-first c n expect skipped rs h = elim (Option-cases (get_elem? rs c)) [
  | inl missing ↦
      let no : within ((c, n) ∷ expect) skipped rs ≡ false = rw (missing, within) refl in
      absurd (ground (arith, no, h))
  | inr (r, there) ↦
      let is : within ((c, n) ∷ expect) skipped rs ≡ (
          leb (value skipped c) r.nmaybe && leb n (r.nok + r.nmaybe) && within expect skipped rs) =
        rw (there, within) refl in
      let all_true = sym is ∙ h in
      (
        λ r' k.
            subst (λ x. in_bounds skipped c x n ≡ true) (some_inj (sym there ∙ k))
              (ground (arith, all_true)),
        ground (arith, all_true),
      )
]

within-in_bounds :
    (expect skipped : Map ℕ ℕ) (rs : List ClntRes) (c n : ℕ) (r : ClntRes)
    → within expect skipped rs ≡ true
    → get expect c ≡ some n
    → get_elem? rs c ≡ some r
    → in_bounds skipped c r n ≡ true
unfolding get
within-in_bounds [] skipped rs c n r h q k = cc
within-in_bounds ((c', n') ∷ expect) skipped rs c n r h q k =
    let (first, rest) = within-first c' n' expect skipped rs h in
    elim (Bool-cases (eqb c' c)) [
      | inl hit ↦
          let same : c' ≡ c = ground (arith, hit) in
          let same_n : n' ≡ n =
            some_inj (subst (λ b. (if b then some n' else get expect c) ≡ some n) hit q) in
          subst (λ x. in_bounds skipped x r n ≡ true) same
            (subst (λ x. in_bounds skipped c' r x ≡ true) same_n
              (first r (subst (λ x. get_elem? rs x ≡ some r) (sym same) k)))
      | inr miss ↦
          within-in_bounds expect skipped rs c n r rest
            (subst (λ b. (if b then some n' else get expect c) ≡ some n) miss q) k
    ]

bound_ends :
    (seen : Seen) (rs : List ClntRes) (c : ℕ) (r : ClntRes) (ns : List ℕ)
    → within seen.expect seen.skipped rs ≡ true
    → get_elem? rs c ≡ some r
    → Tally 0 0 ns (value seen.expect c) (value seen.skipped c)
    → (end_of 0 ns ≤ r.nok + r.nmaybe) × (end_of 0 ns ≤ length ns + r.nmaybe)
bound_ends seen rs c r ns h k (inc, next, skips) = elim (Option-cases (get seen.expect c)) [
  | inl missing ↦
      let zero_next : value seen.expect c ≡ 0 = ground (arith, missing) in
      (omega (arith, zero_next, next), omega (arith, zero_next, next))
  | inr (n, there) ↦
      let b = within-in_bounds seen.expect seen.skipped rs c n r h there k in
      let top : n ≤ r.nok + r.nmaybe = ground (arith, b) in
      let gaps : value seen.skipped c ≤ r.nmaybe = ground (arith, b) in
      let same : value seen.expect c ≡ n = ground (arith, there) in
      (omega (arith, top, same, next), omega (arith, gaps, skips))
]

-- When CheckAppends ends without an error, the server has counted one put for each entry and one
-- more, and of each client with a result: its entries have increasing numbers, all below its puts
-- that may have succeeded, and no more numbers are missing than it had puts in doubt.
pub check_appends-Increasing :
    (es : List EntryN) (nclnt : ℕ) (rs : List ClntRes) (ver : ℕ)
    → check_appends es nclnt rs ver ≡ true
    → (length es + 1 ≡ ver)
      × ((c : ℕ) (r : ClntRes)
          → get_elem? rs c ≡ some r
          → Increasing 0 (ns_of c es)
            × (end_of 0 (ns_of c es) ≤ r.nok + r.nmaybe)
            × (end_of 0 (ns_of c es) ≤ length (ns_of c es) + r.nmaybe))
unfolding check_appends
check_appends-Increasing es nclnt rs ver h =
    let zero_map = zeros (ids_from 0 nclnt) [] in
    let begun : Seen = record { expect = zero_map; skipped = zero_map } in
    elim (Option-cases (count_entries es begun)) [
      | inl refused ↦
          let no : check_appends es nclnt rs ver ≡ false = rw (refused, check_appends) refl in
          absurd (ground (arith, no, h))
      | inr (seen, counted) ↦
          let is : check_appends es nclnt rs ver
              ≡ (eqb (length es + 1) ver && within seen.expect seen.skipped rs) =
            rw (counted, check_appends) refl in
          let passed = sym is ∙ h in
          let both : (length es + 1 ≡ ver) × (within seen.expect seen.skipped rs ≡ true) =
            (ground (arith, passed), ground (arith, passed)) in
          (
            both.0,
            λ c r k.
                let none_yet = value-zeros (ids_from 0 nclnt) [] c (value-nil c) in
                let sums =
                  Tally-same 0 0 _ _ (ns_of c es) _ _ none_yet none_yet
                    (count_entries-Counted c es begun seen counted) in
                let (top, gaps) = bound_ends seen rs c r (ns_of c es) both.1 k sums in
                (sums.0, top, gaps),
          )
    ]
