-- ===== src/Prelude/Equality.antt =====
-- Go strings as lists of bytes, and the types that Go compares by `==`.
use Prim.Native.Nat.{ℕ, suc}
use Prim.Native.Char.{code}
use Prim.Native.String.{String}
use mathlib.Core.Path.{◌≡◌, refl}
use mathlib.Core.Logic.{◌↔◌, ◌≢◌}
use mathlib.Core.Bool.{Bool, true, false, ◌&&◌, ◌||◌}
use mathlib.Core.List.{List, [], ◌∷◌}
use native.Mathlib.Omega.{arith}
use distributed_system.Prelude.Tests.{eqb, eqb_iff, if◌then◌else◌}

-- A Go string is its bytes.
abbrev pub Str : Type 0
Str = List ℕ

-- The bytes of an ASCII literal.
abbrev pub bytes : String → Str
bytes String.[] = []
bytes (String.◌∷◌ c rest) = code c ∷ bytes rest

-- A comparable type: its test, which is exact.
pub record Comparable {ℓ} (T : Type ℓ) : Type ℓ where
  pub same : T → T → Bool
  pub exact : (x y : T) → (same x y ≡ true) ↔ (x ≡ y)

instance abbrev pub comparable_nat : Comparable ℕ
comparable_nat = record { same = eqb; exact = eqb_iff }

infix 50 ◌==◌
abbrev pub ◌==◌ {ℓ} : {T : Type ℓ} ⦃cmp : Comparable T⦄ → T → T → Bool
◌==◌ ⦃cmp⦄ x y = cmp.same x y

module _ {ℓ} {T : Type ℓ} ⦃cmp : Comparable T⦄ where
  pub ==_refl : (x : T) → (x == x) ≡ true
  ==_refl x = (cmp.exact x x).1 refl

  pub ==_ne : (x y : T) → x ≢ y → (x == y) ≡ false
  ==_ne x y h = ground (arith, cmp.exact x y)

  pub ==_false : (x y : T) → (x == y) ≡ false → x ≢ y
  ==_false x y h e = ground (arith, cmp.exact x y, h, e)

  abbrev pub same_list : List T → List T → Bool
  same_list [] [] = true
  same_list (x ∷ xs) (y ∷ ys) = x == y && same_list xs ys
  same_list _ _ = false

  pub same_list_exact : (xs ys : List T) → (same_list xs ys ≡ true) ↔ (xs ≡ ys)
  same_list_exact [] [] = ground arith
  same_list_exact (x ∷ xs) (y ∷ ys) = ground (arith, cmp.exact x y, same_list_exact xs ys)
  same_list_exact _ _ = ground arith

  instance abbrev pub comparable_list : Comparable (List T)
  comparable_list = record { same = same_list; exact = same_list_exact }

module _ {ℓ} {T : Type ℓ} ⦃cmp : Comparable T⦄ where
  -- How often `x` occurs.
  abbrev pub count : T → List T → ℕ
  count x [] = 0
  count x (y ∷ ys) = if y == x then suc (count x ys) else count x ys

  abbrev pub contains : T → List T → Bool
  contains x [] = false
  contains x (y ∷ ys) = y == x || contains x ys
