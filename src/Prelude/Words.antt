-- ===== src/Prelude/Words.antt =====
-- The bytes of a `size_t`: 8, the least significant first, as `memcpy` of the object copies them.
use Prim.Native.Nat.{ℕ, zero, suc, ◌+◌, ◌-◌, ◌*◌, ◌/◌, ◌%◌, ◌^◌, ◌<◌}
use mathlib.Core.Path.{◌≡◌, refl, sym}
use mathlib.Core.List.{List, [], ◌∷◌, ◌++◌, append_assoc}
use native.Mathlib.Omega.{arith}
use native.Mathlib.Nat.{pow-suc}
use mofka.Prelude.Lists.{length, length-append, take, drop, All, take-append_eq, drop-append_eq}

abbrev pub Bytes : Type 0
Bytes = List ℕ

-- Values of a 64-bit unsigned type.
abbrev pub IsU64 : ℕ → Type 0
IsU64 n = n < 2 ^ 64

abbrev pub u64_mod : ℕ
u64_mod = 2 ^ 64

-- `a - b` and `a * b` on `size_t`.
abbrev pub sub64 : ℕ → ℕ → ℕ
sub64 a b = (a + 2 ^ 64 - b) % 2 ^ 64

unfoldable pub encode_le : ℕ → ℕ → Bytes
encode_le zero n = []
encode_le (suc k) n = (n % 256) ∷ encode_le k (n / 256)

unfoldable pub decode_le : Bytes → ℕ
decode_le [] = 0
decode_le (b ∷ bs) = b + 256 * decode_le bs

pub length-encode_le : (k n : ℕ) → length (encode_le k n) ≡ k
unfolding encode_le
length-encode_le zero n = refl
length-encode_le (suc k) n = omega (arith, length-encode_le k (n / 256))

pub decode_le-encode_le : (k n : ℕ) → n < 256 ^ k → decode_le (encode_le k n) ≡ n
unfolding encode_le decode_le
decode_le-encode_le zero n h = omega arith
decode_le-encode_le (suc k) n h =
    let h' : n < 256 ^ k * 256 = rw pow-suc at h in
    omega (arith, decode_le-encode_le k (n / 256) (omega arith))

-- sizeof(size_t)
abbrev pub word : ℕ
word = 8

unfoldable pub encode_u64 : ℕ → Bytes
unfolding encode_le
encode_u64 n = encode_le word n

unfoldable pub decode_u64 : Bytes → ℕ
unfolding decode_le
decode_u64 bs = decode_le bs

pub length-encode_u64 : (n : ℕ) → length (encode_u64 n) ≡ word
unfolding encode_u64
length-encode_u64 n = refl

pub decode_u64-encode_u64 : (n : ℕ) → IsU64 n → decode_u64 (encode_u64 n) ≡ n
unfolding encode_u64 decode_u64
decode_u64-encode_u64 n h = decode_le-encode_le word n h

-- The memory of a `std::vector<size_t>`.
unfoldable pub encode_words : List ℕ → Bytes
encode_words [] = []
encode_words (n ∷ ns) = encode_u64 n ++ encode_words ns

pub length-encode_words : (ns : List ℕ) → length (encode_words ns) ≡ length ns * word
unfolding encode_words
length-encode_words [] = refl
length-encode_words (n ∷ ns) = omega (
  arith,
  length-append (encode_u64 n) (encode_words ns),
  length-encode_u64 n,
  length-encode_words ns,
)

-- The words of a vector of `n`, of whose memory the first bytes were written.
unfoldable pub decode_words : ℕ → Bytes → List ℕ
decode_words zero bytes = []
decode_words (suc n) bytes = decode_u64 (take word bytes) ∷ decode_words n (drop word bytes)

pub decode_words-encode_words :
    (ns : List ℕ) (rest : Bytes)
    → All IsU64 ns
    → decode_words (length ns) (encode_words ns ++ rest) ≡ ns
unfolding decode_words encode_words
decode_words-encode_words [] rest h = refl
decode_words-encode_words (n ∷ ns) rest h =
    rw (append_assoc (encode_u64 n) (encode_words ns) rest) (
      rw (
        take-append_eq word (encode_u64 n) (encode_words ns ++ rest) (sym (length-encode_u64 n)),
        drop-append_eq word (encode_u64 n) (encode_words ns ++ rest) (sym (length-encode_u64 n)),
        decode_u64-encode_u64 n h.0,
        decode_words-encode_words ns rest h.1,
      ))

pub encode_words-append :
    (ms ns : List ℕ) → encode_words (ms ++ ns) ≡ encode_words ms ++ encode_words ns
unfolding encode_words
encode_words-append [] ns = refl
encode_words-append (m ∷ ms) ns =
    rw (encode_words-append ms ns)
      (sym (append_assoc (encode_u64 m) (encode_words ms) (encode_words ns)))
