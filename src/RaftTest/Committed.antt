-- ===== src/RaftTest/Committed.antt =====
-- nCommitted of raft1/test.go on the logs that the appliers accept.
use distributed_system.Prelude.{
  ℕ, zero, suc, ◌+◌, ◌<◌, ◌≡◌, refl, ap, sym, ◌∙◌, ◌⊎◌, inl, inr, none, some, List, [], ◌∷◌, arith,
  get_elem?, if◌then◌else◌, Option-cases, comparable_nat, Comparable, get,
}
use distributed_system.RaftTest.{ok, Server, Tester, ApplyMsg, has_log, applier_all, n_committed}
use distributed_system.RaftTest.Agreement.{entry_at, start, applier_all-start-IsSafe}

module _ {Entry : Type 0} ⦃cmp : Comparable Entry⦄ where
  -- How many servers have an entry at the index.
  abbrev pub holders : ℕ → List (Server Entry) → ℕ
  holders i [] = 0
  holders i (rs ∷ rest) = if has_log rs i then suc (holders i rest) else holders i rest

  -- Every server of the list that has an entry at the index has this one.
  abbrev AllHave : ℕ → Entry → List (Server Entry) → Type 0
  AllHave i c srvs =
      (j : ℕ) (rs : Server Entry) (v : Entry)
      → get_elem? srvs j ≡ some rs
      → get rs.logs i ≡ some v
      → v ≡ c

  n_committed-holders :
      (i count : ℕ) (entry c : Entry) (srvs : List (Server Entry))
      → AllHave i c srvs
      → (0 < count → entry ≡ c)
      → (entry' : Entry) × (n_committed i count entry srvs ≡ ok (count + holders i srvs, entry'))
        × (0 < count + holders i srvs → entry' ≡ c)
        × (entry ≡ c → entry' ≡ c)
  unfolding n_committed
  n_committed-holders i count entry c [] all same =
      (entry, ground arith, ground (arith, same), λ e. e)
  n_committed-holders i count entry c (rs ∷ srvs) all same =
      let rest : AllHave i c srvs = λ j. all (suc j) in
      elim (Option-cases (get rs.logs i)) [
        | inl missing ↦
            let (entry', run, last, stays) = n_committed-holders i count entry c srvs rest same in
            (entry', ground (arith, missing, run), ground (arith, missing, last), stays)
        | inr (v, e) ↦
            let here : v ≡ c = all 0 rs v refl e in
            let (entry', run, last, stays) =
              n_committed-holders i (count + 1) v c srvs rest (λ p. here) in
            (
              entry',
              ground (arith, e, run, here, same, cmp.exact entry v),
              ground (arith, e, last),
              λ p. stays here,
            )
      ]

  cons-AllHave :
      (i : ℕ) (c : Entry) (rs : Server Entry) (srvs : List (Server Entry))
      → get rs.logs i ≡ none
      → AllHave i c srvs
      → AllHave i c (rs ∷ srvs)
  cons-AllHave i c rs srvs missing all zero rs' v e g =
      let same : rs ≡ rs' = cc in ground (arith, ap (λ r. get r.logs i) same, missing, g)
  cons-AllHave i c rs srvs missing all (suc j) rs' v e g = all j rs' v e g

  -- Some server has an entry at the index, or none has.
  record Holder (i : ℕ) (srvs : List (Server Entry)) : Type 0 where
    number : ℕ
    rs : Server Entry
    entry : Entry
    found : get_elem? srvs number ≡ some rs
    has : get rs.logs i ≡ some entry
    counted : 0 < holders i srvs

  Holder-cases : (i : ℕ) (srvs : List (Server Entry)) (c : Entry) → Holder i srvs ⊎ AllHave i c srvs
  Holder-cases i [] c = inr (λ j rs v e g. cc)
  Holder-cases i (rs ∷ srvs) c = elim (Option-cases (get rs.logs i)) [
    | inr (v, e) ↦ inl (record {
      number = 0;
      rs = rs;
      entry = v;
      found = refl;
      has = e;
      counted = ground (arith, e);
    })
    | inl missing ↦ elim (Holder-cases i srvs c) [
      | inl h ↦ inl (record {
        number = suc h.number;
        rs = h.rs;
        entry = h.entry;
        found = h.found;
        has = h.has;
        counted = ground (arith, missing, h.counted);
      })
      | inr none_has ↦ inr (cons-AllHave i c rs srvs missing none_has)
    ]
  ]

  entry_at-get :
      (ts : Tester Entry) (j i : ℕ) (rs : Server Entry)
      → get_elem? ts.srvs j ≡ some rs
      → entry_at ts j i ≡ get rs.logs i
  entry_at-get ts j i rs found = rw (entry_at, found) refl

  -- When the appliers report no error, nCommitted never fails the test: for every index it returns
  -- the number of servers that have an entry there, and the entry that they all have.
  pub applier_all-n_committed :
      (n : ℕ) (ms : List (ℕ × ApplyMsg Entry)) (ts : Tester Entry) (i : ℕ) (nil : Entry)
      → applier_all ms (start n) ≡ ok ts
      → (entry : Entry) × (n_committed i 0 nil ts.srvs ≡ ok (holders i ts.srvs, entry))
        × ((j : ℕ) (v : Entry) → entry_at ts j i ≡ some v → v ≡ entry)
  applier_all-n_committed n ms ts i nil h =
      let s = applier_all-start-IsSafe n ms ts h in
      elim (Holder-cases i ts.srvs nil) [
        | inl x ↦
            let first = entry_at-get ts x.number i x.rs x.found ∙ x.has in
            let all : AllHave i x.entry ts.srvs = λ j rs v found has.
              s.agree j x.number i v x.entry (entry_at-get ts j i rs found ∙ has) first in
            let (entry, run, last, stays) =
              n_committed-holders i 0 nil x.entry ts.srvs all (ground arith) in
            (
              entry,
              ground (arith, run),
              λ j v e.
                  s.agree j x.number i v x.entry e first ∙ sym (last (omega (arith, x.counted))),
            )
        | inr all ↦
            let (entry, run, last, stays) =
              n_committed-holders i 0 nil nil ts.srvs all (ground arith) in
            (
              entry,
              ground (arith, run),
              λ j v e. elim (Option-cases (get_elem? ts.srvs j)) [
                | inl missing ↦ ground (arith, missing, e)
                | inr (rs, found) ↦
                    all j rs v found (sym (entry_at-get ts j i rs found) ∙ e) ∙ sym (stays refl)
              ],
            )
      ]
