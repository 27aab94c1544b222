-- ===== src/RaftTest/Terms.antt =====
-- checkTerms of raft1/test.go.
use distributed_system.Prelude.{
  ℕ, zero, suc, ◌≡◌, refl, ap, sym, ◌∙◌, inl, inr, true, false, Option, none, some, List, [], ◌∷◌,
  arith, get_elem?, Bool-cases, comparable_nat,
}
use distributed_system.RaftTest.{ok, Peer, check_terms}

-- Every connected server has this term.

abbrev ConnectedIn : ℕ → List Peer → Type 0
ConnectedIn t ps = (j : ℕ) (q : Peer) → get_elem? ps j ≡ some q → q.connected ≡ true → q.term ≡ t

cons-ConnectedIn :
    (t : ℕ) (p : Peer) (ps : List Peer)
    → (p.connected ≡ true → p.term ≡ t)
    → ConnectedIn t ps
    → ConnectedIn t (p ∷ ps)
cons-ConnectedIn t p ps here all zero q e c =
    let same : p ≡ q = cc in sym (ap (λ r. r.term) same) ∙ here (ap (λ r. r.connected) same ∙ c)
cons-ConnectedIn t p ps here all (suc j) q e c = all j q e c

check_terms-from :
    (t : ℕ) (ps : List Peer) (term : Option ℕ)
    → check_terms (some t) ps ≡ ok term
    → (term ≡ some t) × ConnectedIn t ps
unfolding check_terms
check_terms-from t [] term h = (ground (arith, h), λ j q e c. cc)
check_terms-from t (p ∷ ps) term h =
    let run : check_terms (some t) ps ≡ ok term = ground (arith, h) in
    let here : p.connected ≡ true → p.term ≡ t = λ c. ground (arith, h, c) in
    let (e, all) = check_terms-from t ps term run in (e, cons-ConnectedIn t p ps here all)

skip_off :
    (p : Peer) (ps : List Peer) (term : Option ℕ)
    → p.connected ≡ false
    → ((j : ℕ) (q : Peer) → get_elem? ps j ≡ some q → q.connected ≡ true → term ≡ some q.term)
    → (j : ℕ) (q : Peer) → get_elem? (p ∷ ps) j ≡ some q
    → q.connected ≡ true
    → term ≡ some q.term
skip_off p ps term off all zero q e c =
    let same : p ≡ q = cc in
    absurd (let no : true ≡ false = sym c ∙ sym (ap (λ r. r.connected) same) ∙ off in cc)
skip_off p ps term off all (suc j) q e c = all j q e c

check_terms-connected :
    (ps : List Peer) (term : Option ℕ)
    → check_terms none ps ≡ ok term
    → (j : ℕ) (q : Peer) → get_elem? ps j ≡ some q
    → q.connected ≡ true
    → term ≡ some q.term
unfolding check_terms
check_terms-connected [] term h j q e c = cc
check_terms-connected (p ∷ ps) term h j q e c = elim (Bool-cases p.connected) [
  | inl on ↦
      let (last, all) = check_terms-from p.term ps term (ground (arith, h, on)) in
      last ∙ ap some (sym (cons-ConnectedIn p.term p ps (λ _. refl) all j q e c))
  | inr off ↦
      skip_off p ps term off (check_terms-connected ps term (ground (arith, h, off))) j q e c
]

check_terms-off :
    (ps : List Peer) (term : Option ℕ)
    → check_terms none ps ≡ ok term
    → ((j : ℕ) (q : Peer) → get_elem? ps j ≡ some q → q.connected ≡ false)
    → term ≡ none
unfolding check_terms
check_terms-off [] term h off = ground (arith, h)
check_terms-off (p ∷ ps) term h off =
    check_terms-off ps term (ground (arith, h, off 0 p refl)) (λ j q e. off (suc j) q e)

-- When checkTerms passes, the connected servers all have the term that it returns, and it returns -1
-- when none is connected.
pub check_terms-agree :
    (ps : List Peer) (term : Option ℕ)
    → check_terms none ps ≡ ok term
    → ((j : ℕ) (q : Peer) → get_elem? ps j ≡ some q → q.connected ≡ true → term ≡ some q.term)
      × (((j : ℕ) (q : Peer) → get_elem? ps j ≡ some q → q.connected ≡ false) → term ≡ none)
check_terms-agree ps term h = (check_terms-connected ps term h, check_terms-off ps term h)
