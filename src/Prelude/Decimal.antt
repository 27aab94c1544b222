-- ===== src/Prelude/Decimal.antt =====
-- Decimal numerals, as `strconv.Itoa` and the verb `%d` print a number that is not negative.
use Prim.Native.Nat.{ℕ, zero, suc, ◌+◌, ◌-◌, ◌*◌, ◌/◌, ◌%◌, ◌≤◌, ◌<◌}
use mathlib.Core.Path.{◌≡◌, refl, ap, sym, ◌∙◌}
use mathlib.Core.Logic.{inl, inr, ◌≢◌}
use mathlib.Core.List.{[], ◌∷◌, ◌++◌}
use native.Mathlib.Omega.{arith}
use distributed_system.Prelude.Tests.{eqb, if◌then◌else◌, if_cases, Bool-cases}
use distributed_system.Prelude.Lists.{All}
use distributed_system.Prelude.Equality.{Str, bytes}

-- The digits of `n` in front of `rest`, with more fuel than `n`.
print_digits : ℕ → ℕ → Str → Str
print_digits zero n rest = rest
print_digits (suc fuel) n rest =
    let more = print_digits fuel (n / 10) ((b'0' + n % 10) ∷ rest) in
    if eqb (n / 10) 0 then (b'0' + n % 10) ∷ rest else more

unfoldable pub itoa : ℕ → Str
unfolding print_digits
itoa n = print_digits (suc n) n []

value_from : ℕ → Str → ℕ
value_from v [] = v
value_from v (c ∷ cs) = value_from (v * 10 + (c - b'0')) cs

print_digits_value :
    (fuel n : ℕ) (rest : Str)
    → n < fuel
    → value_from 0 (print_digits fuel n rest) ≡ value_from n rest
unfolding print_digits value_from
print_digits_value zero n rest h = elim h [ ]
print_digits_value (suc fuel) n rest h = elim (Bool-cases (eqb (n / 10) 0)) [
  | inl last ↦
      rw last
        (let e : 0 + (b'0' + n % 10 - b'0') ≡ n = ground arith in ap (λ v. value_from v rest) e)
  | inr more ↦ rw more (
      print_digits_value fuel (n / 10) ((b'0' + n % 10) ∷ rest) (ground arith)
      ∙ ap (λ v. value_from v rest) (omega arith))
]

-- Two numbers with the same numeral are equal.
pub itoa_inj : (m n : ℕ) → itoa m ≡ itoa n → m ≡ n
unfolding itoa value_from
itoa_inj m n e =
    sym (print_digits_value (suc m) m [] (omega arith))
    ∙ ap (value_from 0) e
    ∙ print_digits_value (suc n) n [] (omega arith)

abbrev pub IsNumeral : ℕ → Type 0
IsNumeral c = (b'0' ≤ c) × (c ≤ b'9')

print_digits-IsNumeral :
    (fuel n : ℕ) (rest : Str) → All IsNumeral rest → All IsNumeral (print_digits fuel n rest)
unfolding print_digits
print_digits-IsNumeral zero n rest h = h
print_digits-IsNumeral (suc fuel) n rest h =
    let here : All IsNumeral ((b'0' + n % 10) ∷ rest) = ((omega arith, omega arith), h) in
    elim (Bool-cases (eqb (n / 10) 0)) [
      | inl last ↦ rw last here
      | inr more ↦ rw more (print_digits-IsNumeral fuel (n / 10) ((b'0' + n % 10) ∷ rest) here)
    ]

pub itoa-IsNumeral : (n : ℕ) → All IsNumeral (itoa n)
unfolding itoa
itoa-IsNumeral n = print_digits-IsNumeral (suc n) n [] tt

-- A numeral ends at the first dash.
pub split_at_dash :
    (xs ys a b : Str)
    → All IsNumeral xs
    → All IsNumeral ys
    → xs ++ (b'-' ∷ a) ≡ ys ++ (b'-' ∷ b)
    → (xs ≡ ys) × (a ≡ b)
split_at_dash [] [] a b h k e = ground (arith, e)
split_at_dash [] (y ∷ ys) a b h k e = ground (arith, e, k.0)
split_at_dash (x ∷ xs) [] a b h k e = ground (arith, e, h.0)
split_at_dash (x ∷ xs) (y ∷ ys) a b h k e = ground (arith, e, split_at_dash xs ys a b h.1 k.1)

print_digits-ne-nil : (fuel n c : ℕ) (rest : Str) → print_digits fuel n (c ∷ rest) ≢ []
unfolding print_digits
print_digits-ne-nil zero n c rest = λ e. ground (arith, e)
print_digits-ne-nil (suc fuel) n c rest =
    if_cases (λ xs. xs ≢ []) (eqb (n / 10) 0) _ _ (λ _ e. ground (arith, e))
      (λ _. print_digits-ne-nil fuel (n / 10) (b'0' + n % 10) (c ∷ rest))

pub itoa-ne-nil : (n : ℕ) → itoa n ≢ []
unfolding itoa print_digits
itoa-ne-nil n =
    if_cases (λ xs. xs ≢ []) (eqb (n / 10) 0) _ _ (λ _ e. ground (arith, e))
      (λ _. print_digits-ne-nil n (n / 10) (b'0' + n % 10) [])

itoa_test : itoa 10250 ≡ bytes "10250"
unfolding itoa
itoa_test = refl
