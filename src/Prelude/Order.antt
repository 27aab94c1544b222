-- ===== src/Prelude/Order.antt =====
-- Go's order of strings.
use mathlib.Core.Path.{◌≡◌, refl}
use mathlib.Core.Bool.{Bool, true, false, ◌&&◌, ◌||◌}
use mathlib.Core.List.{[], ◌∷◌}
use native.Mathlib.Omega.{arith}
use distributed_system.Prelude.Tests.{ltb, eqb}
use distributed_system.Prelude.Equality.{Str}

-- Byte by byte, and a proper prefix comes first.
abbrev pub str_lt : Str → Str → Bool
str_lt [] [] = false
str_lt [] (y ∷ ys) = true
str_lt (x ∷ xs) [] = false
str_lt (x ∷ xs) (y ∷ ys) = ltb x y || (eqb x y && str_lt xs ys)

pub str_lt_antisymm : (a b : Str) → str_lt a b ≡ false → str_lt b a ≡ false → a ≡ b
str_lt_antisymm [] [] h h' = refl
str_lt_antisymm [] (y ∷ ys) h h' = ground arith
str_lt_antisymm (x ∷ xs) [] h h' = ground arith
str_lt_antisymm (x ∷ xs) (y ∷ ys) h h' = ground (arith, str_lt_antisymm xs ys)

pub str_lt_asym : (a b : Str) → str_lt a b ≡ true → str_lt b a ≡ false
str_lt_asym [] [] h = refl
str_lt_asym [] (y ∷ b) h = refl
str_lt_asym (x ∷ a) [] h = ground arith
str_lt_asym (x ∷ a) (y ∷ b) h = ground (arith, str_lt_asym a b)

pub not_lt_trans : (a b c : Str) → str_lt b a ≡ false → str_lt c b ≡ false → str_lt c a ≡ false
not_lt_trans [] [] [] h k = refl
not_lt_trans [] [] (z ∷ c) h k = ground arith
not_lt_trans [] (y ∷ b) [] h k = ground arith
not_lt_trans [] (y ∷ b) (z ∷ c) h k = refl
not_lt_trans (x ∷ a) [] [] h k = ground arith
not_lt_trans (x ∷ a) [] (z ∷ c) h k = ground arith
not_lt_trans (x ∷ a) (y ∷ b) [] h k = ground arith
not_lt_trans (x ∷ a) (y ∷ b) (z ∷ c) h k = ground (arith, not_lt_trans a b c)
