-- ===== src/Message/Words.antt =====
-- `htonl`, `ntohl` and the conversion of an `int` to a `size_t`.
use bserver.Base.{
  ℕ, ◌+◌, ◌-◌, ◌*◌, ◌/◌, ◌%◌, ◌^◌, ◌<◌, ◌≤◌, ◌≡◌, ◌++◌, [], ◌∷◌, Bytes, ltb, if◌then◌else◌, arith,
}

-- The bytes of `htonl(w)`, the highest first.
unfoldable pub word_bytes : ℕ → Bytes
word_bytes w = (w / 16777216 % 256) ∷ (w / 65536 % 256) ∷ (w / 256 % 256) ∷ (w % 256) ∷ []

-- `ntohl` of the four bytes at the front. The callers' buffers hold them.
unfoldable pub read_word : Bytes → ℕ
read_word (a ∷ b ∷ c ∷ d ∷ s) = a * 16777216 + b * 65536 + c * 256 + d
read_word _ = 0

-- `(size_t)(len - 12)`: an `int` is extended by its sign. For the twelve least values the subtraction
-- overflows in C++; the model goes on without a bound.
unfoldable pub size_of_int : ℕ → ℕ
size_of_int w =
    let extended = if ltb w (2 ^ 31) then w else w + (2 ^ 64 - 2 ^ 32) in
    (extended + (2 ^ 64 - 12)) % 2 ^ 64

pub read_word-word_bytes : (w : ℕ) (s : Bytes) → w < 2 ^ 32 → read_word (word_bytes w ++ s) ≡ w
unfolding read_word word_bytes
read_word-word_bytes w s h = omega arith

-- A length of twelve or more is one for which the subtraction gives the size of the body.
pub size_of_int_small : (n : ℕ) → n < 2 ^ 31 - 12 → size_of_int (12 + n) ≡ n
unfolding size_of_int
size_of_int_small n h = ground arith

-- Any other length, a negative one included, gives a size that no body has.
pub size_of_int_bounds : (w : ℕ) → w < 2 ^ 32 → size_of_int w ≤ 1048576 → (12 ≤ w) × (w ≤ 1048588)
unfolding size_of_int
size_of_int_bounds w h k = ground arith
