-- ===== src/Models/Versions.antt =====
-- What a sequence of operations that the model of models1/kv.go accepts says of the versions.
use distributed_system.Prelude.{
  ℕ, zero, suc, ◌+◌, ◌%◌, ◌^◌, ◌≤◌, ◌<◌, ◌≡◌, ◌≢◌, refl, sym, ap, subst, ◌⊎◌, inl, inr, Bool, true,
  false, ◌&&◌, ◌||◌, none, some, List, [], ◌∷◌, length, get_elem?, eqb, eqb_iff, arith, ◌==◌,
  Bool-cases, Str, bytes, comparable_nat, comparable_list,
}
use distributed_system.Models.{KvState, Operation, init, step}

-- The checker looks for an order of the operations in which each step is allowed.
unfoldable pub accepts : KvState → List Operation → Bool
accepts st [] = true
accepts st (o ∷ os) = elim (step st o.input o.output).1 [
  | none ↦ false
  | some st' ↦ (step st o.input o.output).0 && accepts st' os
]

-- A put that was answered by OK.
abbrev pub is_ok_put : Operation → Bool
is_ok_put o = eqb o.input.op 1 && (o.output.err == bytes "OK")

record Stepped (st : KvState) (o : Operation) (os : List Operation) : Type 0 where
  st' : KvState
  rest : accepts st' os ≡ true
  version : (st'.version ≡ st.version) ⊎ (st'.version ≡ (st.version + 1) % 2 ^ 64)
  ok_put :
      is_ok_put o ≡ true
      → (o.input.version ≡ st.version) × (st'.version ≡ (st.version + 1) % 2 ^ 64)

ok_not_error :
    (err : Str) → err ≡ bytes "OK" → (err == bytes "ErrVersion" || err == bytes "ErrMaybe") ≢ true
ok_not_error err e h =
    let no : false ≡ true =
      subst (λ x. (x == bytes "ErrVersion" || x == bytes "ErrMaybe") ≡ true) e h in
    cc

accepts-Stepped :
    (st : KvState) (o : Operation) (os : List Operation)
    → accepts st (o ∷ os) ≡ true
    → Stepped st o os
unfolding accepts step
accepts-Stepped st o os h = elim (Bool-cases (eqb o.input.op 0)) [
  | inl is_get ↦ record {
    st' = st;
    rest = ground (arith, h, is_get);
    version = inl refl;
    ok_put = λ p. ground (arith, is_get, p);
  }
  | inr no_get ↦ elim (Bool-cases (eqb o.input.op 1)) [
    | inr invalid ↦ ground (arith, h, no_get, invalid)
    | inl is_put ↦ elim (Bool-cases (eqb st.version o.input.version)) [
      | inl hit ↦ record {
        st' = record { value = o.input.value; version = (st.version + 1) % 2 ^ 64 };
        rest = ground (arith, h, no_get, is_put, hit);
        version = inr refl;
        ok_put = λ p. (sym ((eqb_iff st.version o.input.version).0 hit), refl);
      }
      | inr miss ↦ record {
        st' = st;
        rest = ground (arith, h, no_get, is_put, miss);
        version = inl refl;
        ok_put = λ p.
            let e = (comparable_list.exact o.output.err (bytes "OK")).0 (ground (arith, p)) in
            let allowed : (o.output.err == bytes "ErrVersion" || o.output.err == bytes "ErrMaybe")
                ≡ true =
              ground (arith, h, no_get, is_put, miss) in
            absurd (ok_not_error o.output.err e allowed);
      }
    ]
  ]
]

-- An answer OK tells a version that is not smaller than the state's, while no version wraps.
ok_put-le :
    (st : KvState) (os : List Operation) (j : ℕ) (o : Operation)
    → accepts st os ≡ true
    → st.version + length os < 2 ^ 64
    → get_elem? os j ≡ some o
    → is_ok_put o ≡ true
    → st.version ≤ o.input.version
ok_put-le st [] j o h small e p = cc
ok_put-le st (x ∷ os) zero o h small e p =
    let a = accepts-Stepped st x os h in
    let same : x ≡ o = cc in
    let p' : is_ok_put x ≡ true = subst (λ y. is_ok_put y ≡ true) (sym same) p in
    omega (arith, (a.ok_put p').0, ap (λ y. y.input.version) same)
ok_put-le st (x ∷ os) (suc j) o h small e p =
    let a = accepts-Stepped st x os h in
    let next : (st.version ≤ a.st'.version) × (a.st'.version ≤ st.version + 1) =
      ground (arith, a.version, small) in
    let rest = ok_put-le a.st' os j o a.rest (omega (arith, next)) e p in omega (arith, next, rest)

ok_put-lt_from :
    (st : KvState) (os : List Operation) (i j : ℕ) (o o' : Operation)
    → accepts st os ≡ true
    → st.version + length os < 2 ^ 64
    → i < j
    → get_elem? os i ≡ some o
    → get_elem? os j ≡ some o'
    → is_ok_put o ≡ true
    → is_ok_put o' ≡ true
    → o.input.version < o'.input.version
ok_put-lt_from st [] i j o o' h small lt e e' p p' = cc
ok_put-lt_from st (x ∷ os) i zero o o' h small lt e e' p p' = absurd (omega (arith, lt))
ok_put-lt_from st (x ∷ os) zero (suc j) o o' h small lt e e' p p' =
    let a = accepts-Stepped st x os h in
    let same : x ≡ o = cc in
    let ok = a.ok_put (subst (λ y. is_ok_put y ≡ true) (sym same) p) in
    let next : a.st'.version ≡ st.version + 1 = omega (arith, ok.1, small) in
    let later = ok_put-le a.st' os j o' a.rest (omega (arith, next, small)) e' p' in
    omega (arith, next, later, ok.0, ap (λ y. y.input.version) same)
ok_put-lt_from st (x ∷ os) (suc i) (suc j) o o' h small lt e e' p p' =
    let a = accepts-Stepped st x os h in
    let next : a.st'.version ≤ st.version + 1 = ground (arith, a.version, small) in
    ok_put-lt_from a.st' os i j o o' a.rest (omega (arith, next, small)) (omega (arith, lt)) e e' p
      p'

-- In an order that the model accepts, from the initial state and with fewer than 2^64 operations,
-- a later put that was answered by OK has a larger version than an earlier one: of two puts with
-- one version, one at most is answered by OK.
pub ok_put-lt :
    (os : List Operation) (i j : ℕ) (o o' : Operation)
    → accepts init os ≡ true
    → length os < 2 ^ 64
    → i < j
    → get_elem? os i ≡ some o
    → get_elem? os j ≡ some o'
    → is_ok_put o ≡ true
    → is_ok_put o' ≡ true
    → o.input.version < o'.input.version
unfolding init
ok_put-lt os i j o o' h small lt e e' p p' =
    ok_put-lt_from init os i j o o' h (omega (arith, small)) lt e e' p p'
