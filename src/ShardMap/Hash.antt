-- ===== src/ShardMap/Hash.antt =====
-- The hash is a 32-bit number.
use objy.Common.{ℕ, ◌<◌, ◌^◌, ◌*◌, ◌%◌, bit_xor, [], ◌∷◌, arith}
use objy.Common.Text.{Text}
use objy.ShardMap.{hash_from, hash_string}

hash_from-lt : (h : ℕ) (value : Text) → h < 2 ^ 32 → hash_from h value < 2 ^ 32
unfolding hash_from
hash_from-lt h [] l = l
hash_from-lt h (u ∷ us) l = hash_from-lt ((bit_xor h u * 0x01000193) % 2 ^ 32) us (omega arith)

-- A hash is below 2 ^ 32.
pub hash_string-lt : (value : Text) → hash_string value < 2 ^ 32
unfolding hash_string
hash_string-lt value = hash_from-lt 0x811c9dc5 value (omega arith)
