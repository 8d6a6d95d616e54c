-- ===== src/Hash.antt =====
-- src/common/hash.cc: the 32-bit hash of a name, which decides on its server. The two callers give `h` a
-- buffer of 64 bytes; a C string is the text before its zero byte.
pub mod Names
pub mod Tests
use Prim.Native.Nat.{bit_xor}
use velox_dfs.Base.{
  ℕ, zero, suc, ◌+◌, ◌-◌, ◌*◌, ◌/◌, ◌%◌, ◌^◌, List, [], ◌∷◌, ◌++◌, Text, length, ltb, ◌==◌,
  if◌then◌else◌,
}
use velox_dfs.Disk.{padded}

-- `HASHLENGTH`.
abbrev pub hash_length : ℕ
hash_length = 64

-- `+`, `<<` and `>>` on `uint32_t`.
add_32 : ℕ → ℕ → ℕ
add_32 a b = (a + b) % 2 ^ 32

shift_left : ℕ → ℕ → ℕ
shift_left a n = (a * 2 ^ n) % 2 ^ 32

shift_right : ℕ → ℕ → ℕ
shift_right a n = a / 2 ^ n

-- A `signed char`, converted to `uint32_t`.
signed_char : ℕ → ℕ
signed_char c = if ltb c 128 then c else c + (2 ^ 32 - 256)

-- `hash += hash >> n`.
abbrev add_right : ℕ → ℕ → ℕ
add_right n hash = add_32 hash (shift_right hash n)

-- `hash ^= hash << n`.
abbrev xor_left : ℕ → ℕ → ℕ
xor_left n hash = bit_xor hash (shift_left hash n)

get_16_bits : ℕ → ℕ → ℕ
unfolding add_32 shift_left
get_16_bits a b = add_32 (shift_left b 8) a

-- A round of the main loop, on four bytes.
mix : ℕ → ℕ → ℕ → ℕ → ℕ → ℕ
unfolding add_32 shift_left shift_right get_16_bits
mix hash a b c d =
    let hash' = add_32 hash (get_16_bits a b) in
    let tmp = bit_xor (shift_left (get_16_bits c d) 11) hash' in
    add_right 11 (bit_xor (shift_left hash' 16) tmp)

-- The main loop and the end cases.
mix_all : ℕ → Text → ℕ
unfolding mix signed_char
mix_all hash [] = hash
mix_all hash (a ∷ []) = add_right 1 (xor_left 10 (add_32 hash (signed_char a)))
mix_all hash (a ∷ b ∷ []) = add_right 17 (xor_left 11 (add_32 hash (get_16_bits a b)))
mix_all hash (a ∷ b ∷ c ∷ []) =
    add_right 11
      (bit_xor (xor_left 16 (add_32 hash (get_16_bits a b))) (shift_left (signed_char c) 18))
mix_all hash (a ∷ b ∷ c ∷ d ∷ rest) = mix_all (mix hash a b c d) rest

-- "Force avalanching of final 127 bits".
avalanche : ℕ → ℕ
unfolding add_32 shift_left shift_right
avalanche hash =
    add_right 6 (xor_left 25 (add_right 17 (xor_left 4 (add_right 5 (xor_left 3 hash)))))

-- `h(data, len)`, with `len` the length of the data.
unfoldable pub h : Text → ℕ
unfolding mix_all avalanche
h [] = 0
h (c ∷ data_) = avalanche (mix_all (length (c ∷ data_) % 2 ^ 32) (c ∷ data_))

-- The text before the first zero byte: what `strncpy` copies.
unfoldable pub before_zero : Text → Text
before_zero [] = []
before_zero (c ∷ s) = let rest = before_zero s in if c == 0 then [] else c ∷ rest

pub hash_ruby : Text → ℕ
unfolding before_zero
hash_ruby s = h (padded hash_length (before_zero s))

-- `h(std::string)`.
pub h_string : Text → ℕ
h_string s = h (padded hash_length s)
