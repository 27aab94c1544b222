-- ===== src/Fnv.antt =====
-- The 32-bit FNV-1a hash of Go's hash/fnv, by which src/mr/worker.go and
-- src/shardkv1/shardcfg/shardcfg.go spread keys.
use Prim.Native.Nat.{bit_xor}
use distributed_system.Prelude.{ℕ, ◌*◌, ◌%◌, ◌^◌, ◌≡◌, refl, [], ◌∷◌, Str, bytes}

-- `h ^= b; h *= 16777619` on a uint32, for each byte.
unfoldable pub fnv32a_from : ℕ → Str → ℕ
fnv32a_from h [] = h
fnv32a_from h (b ∷ bs) = fnv32a_from (bit_xor h b * 16777619 % 2 ^ 32) bs

unfoldable pub fnv32a : Str → ℕ
unfolding fnv32a_from
fnv32a key = fnv32a_from 2166136261 key

fnv32a_test : fnv32a (bytes "foobar") ≡ 0xbf9cf968
unfolding fnv32a
fnv32a_test = refl
