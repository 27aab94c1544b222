-- ===== src/Mr/Worker/Names.antt =====
-- The file names of mr/worker.go and mr/coordinator.go: "mr-%d-%d" and "mr-out-%d".
use distributed_system.Prelude.Decimal.{itoa, itoa_inj, IsNumeral, itoa-IsNumeral, split_at_dash}
use distributed_system.Mr.Coordinator.{intermediate_name}
use distributed_system.Mr.Worker.{output_name}
use distributed_system.Prelude.{All, Str, [], arith, ℕ, ◌++◌, ◌∷◌, ◌≡◌, ◌≢◌}

numeral_no_letter : (xs a rest : Str) → All IsNumeral xs → xs ++ (b'-' ∷ a) ≢ b'o' ∷ rest
numeral_no_letter [] a rest h e = ground (arith, e)
numeral_no_letter (x ∷ xs) a rest h e = ground (arith, e, h.0)

-- Two map tasks, or two partitions, never share an intermediate file.
pub intermediate_name_inj :
    (j i j' i' : ℕ) → intermediate_name j i ≡ intermediate_name j' i' → (j ≡ j') × (i ≡ i')
unfolding intermediate_name
intermediate_name_inj j i j' i' e =
    let tails : itoa j ++ (b'-' ∷ itoa i) ≡ itoa j' ++ (b'-' ∷ itoa i') = cc in
    let (same_j, same_i) =
      split_at_dash (itoa j) (itoa j') (itoa i) (itoa i') (itoa-IsNumeral j) (itoa-IsNumeral j')
        tails in
    (itoa_inj j j' same_j, itoa_inj i i' same_i)

-- The output of a reduce task is no intermediate file.
pub output_name-ne-intermediate_name : (r j i : ℕ) → intermediate_name j i ≢ output_name r
unfolding intermediate_name output_name
output_name-ne-intermediate_name r j i e =
    let tails : itoa j ++ (b'-' ∷ itoa i) ≡ b'o' ∷ (b'u' ∷ (b't' ∷ (b'-' ∷ itoa r))) = cc in
    numeral_no_letter (itoa j) (itoa i) _ (itoa-IsNumeral j) tails
