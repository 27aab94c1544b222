-- ===== src/Groups/Names.antt =====
-- tester1/group.go: the names of servers.
use distributed_system.Groups.{server_name, itoa_int}
use distributed_system.Prelude.Decimal.{
  itoa, itoa_inj, IsNumeral, itoa-IsNumeral, itoa-ne-nil, split_at_dash,
}
use distributed_system.Prelude.{
  ℤ, pos, negsuc, All, Str, [], ap, arith, refl, sym, ℕ, ◌++◌, ◌∷◌, ◌≡◌, ◌≢◌, ◌+◌,
}

-- A numeral does not start with a dash.
numeral_no_dash : (xs a rest : Str) → All IsNumeral xs → xs ≢ [] → xs ++ (b'-' ∷ a) ≢ b'-' ∷ rest
numeral_no_dash [] a rest h ne e = ne refl
numeral_no_dash (x ∷ xs) a rest h ne e = ground (arith, e, h.0)

-- The numbers of a name, printed.
tails_inj :
    (gid gid' : ℤ) (i i' : ℕ)
    → itoa_int gid ++ (b'-' ∷ itoa i) ≡ itoa_int gid' ++ (b'-' ∷ itoa i')
    → (gid ≡ gid') × (i ≡ i')
unfolding itoa_int
tails_inj (pos m) (pos n) i i' e =
    let (g, k) = split_at_dash (itoa m) (itoa n) _ _ (itoa-IsNumeral m) (itoa-IsNumeral n) e in
    (ap pos (itoa_inj m n g), itoa_inj i i' k)
tails_inj (pos m) (negsuc n) i i' e =
    absurd (numeral_no_dash (itoa m) _ _ (itoa-IsNumeral m) (itoa-ne-nil m) e)
tails_inj (negsuc m) (pos n) i i' e =
    absurd (numeral_no_dash (itoa n) _ _ (itoa-IsNumeral n) (itoa-ne-nil n) (sym e))
tails_inj (negsuc m) (negsuc n) i i' e =
    let digits : itoa (m + 1) ++ (b'-' ∷ itoa i) ≡ itoa (n + 1) ++ (b'-' ∷ itoa i') = cc in
    let (g, k) =
      split_at_dash (itoa (m + 1)) (itoa (n + 1)) _ _ (itoa-IsNumeral (m + 1))
        (itoa-IsNumeral (n + 1)) digits in
    let same : m ≡ n = omega (arith, itoa_inj (m + 1) (n + 1) g) in
    (ap negsuc same, itoa_inj i i' k)

-- Two servers of the groups of a test never have the same name.
pub server_name_inj :
    (gid gid' : ℤ) (i i' : ℕ) → server_name gid i ≡ server_name gid' i' → (gid ≡ gid') × (i ≡ i')
unfolding server_name
server_name_inj gid gid' i i' e =
    let tails : itoa_int gid ++ (b'-' ∷ itoa i) ≡ itoa_int gid' ++ (b'-' ∷ itoa i') = cc in
    tails_inj gid gid' i i' tails
