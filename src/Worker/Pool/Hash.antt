-- ===== src/Worker/Pool/Hash.antt =====
-- src/github.com/t3chguy/matrix-static/workers.go: `hash`, the 32-bit FNV-1a of the standard library.
use Prim.Native.Nat.{bit_xor}
use matrix_static.Prelude.{ℕ, ◌*◌, ◌%◌, ◌^◌, ◌<◌, [], ◌∷◌, arith, Text}

-- `Write` of the hash: for each byte, exclusive or and then the product with the prime.
unfoldable pub fnv32a : ℕ → Text → ℕ
fnv32a h [] = h
fnv32a h (c ∷ s) = fnv32a ((bit_xor h c * 16777619) % 2 ^ 32) s

unfoldable pub hash : Text → ℕ
unfolding fnv32a
hash room_id = fnv32a 2166136261 room_id

fnv32a-lt : (h : ℕ) (s : Text) → h < 2 ^ 32 → fnv32a h s < 2 ^ 32
unfolding fnv32a
fnv32a-lt h [] small = small
fnv32a-lt h (c ∷ s) small = fnv32a-lt ((bit_xor h c * 16777619) % 2 ^ 32) s (omega arith)

-- Every hash has 32 bits.
pub hash-lt : (room_id : Text) → hash room_id < 2 ^ 32
unfolding hash
hash-lt room_id = fnv32a-lt 2166136261 room_id (omega arith)
