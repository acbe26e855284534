-- ===== src/Descriptor/Views/Strides.antt =====
-- The size of a strided view.
use mofka.Prelude.{
  IsU64, sub64, ℕ, ◌+◌, ◌-◌, ◌*◌, ◌/◌, ◌%◌, ◌^◌, ◌≤◌, ◌<◌, min, ◌≡◌, ap, some, [], ◌∷◌, ◌++◌, arith,
}
use mofka.Descriptor.{strided, DataDescriptor}
use mofka.Descriptor.Views.{strided_size, make_strided_view}

-- What is assumed of `std::ceil((double)a/(double)b)`: it is exact below 2 ^ 53.
abbrev pub IsCeilQuotient : (ℕ → ℕ → ℕ) → Type 0
IsCeilQuotient f = (a b : ℕ) → a < 2 ^ 53 → 0 < b → b < 2 ^ 53 → f a b ≡ (a + b - 1) / b

wrapped_product :
    (x y s : ℕ) → y + x ≡ 2 ^ 64 → 0 < x * s → x * s < 2 ^ 64 → y * s % 2 ^ 64 ≡ 2 ^ 64 - x * s
wrapped_product x y s e p h =
    let m : y * s + x * s ≡ 2 ^ 64 * s = omega (arith, ap (λ (t : ℕ). t * s) e) in omega arith

-- With fewer blocks than fit, the size is that of all the blocks that fit, and one more.
strided_size_fewer :
    (sub_size s n b : ℕ)
    → 0 < n
    → n < sub_size / s
    → 0 < s
    → IsU64 sub_size
    → strided_size sub_size s n b ≡ (sub_size / s + 1) * b % 2 ^ 64
unfolding strided_size
strided_size_fewer sub_size s n b p h q u =
    let k = sub_size / s in
    let x : ℕ = k - n in
    let e : x + n ≡ k = omega arith in
    let below : k * s ≤ sub_size = omega arith in
    let big : s ≤ n * s = grind arith in
    let small : x * s + n * s ≡ k * s = omega (arith, ap (λ (t : ℕ). t * s) e) in
    let pos : 0 < x * s = grind arith in
    let wrapped : sub64 n k * s % 2 ^ 64 ≡ 2 ^ 64 - x * s =
      wrapped_product x (sub64 n k) s (omega arith) pos (omega arith) in
    rw wrapped (ground arith)

-- When the blocks fill the rest of the data exactly, the size is right.
strided_size_whole : (s n b : ℕ) → 0 < s → IsU64 (n * b) → strided_size (n * s) s n b ≡ n * b
unfolding strided_size
strided_size_whole s n b p u = let k : n * s / s ≡ n = grind arith in rw k (ground arith)

-- Of data that `k` blocks with their gaps fill exactly, as in the example of
-- DataDescriptor.hpp, a view of `k` blocks or more has the size of `k` blocks, and is recorded
-- as `k` blocks. The blocks are not empty, the quotient of doubles is rounded up rightly below
-- 2 ^ 53, and the sizes are below that.
pub make_strided_view_whole :
    (f : ℕ → ℕ → ℕ) (d : DataDescriptor) (offset k n b gap : ℕ)
    → IsCeilQuotient f
    → 0 < b
    → 0 < n
    → k ≤ n
    → d.size ≡ offset + k * (b + gap)
    → k * (b + gap) < 2 ^ 53
    → b + gap < 2 ^ 53
    → make_strided_view f d offset n b gap
      ≡ some (record d {
        views =
            d.views
            ++ (strided (record { offset = offset; numblocks = k; blocksize = b; gapsize = gap })
                ∷ []);
        size = k * b;
      })
unfolding make_strided_view
make_strided_view_whole f d offset k n b gap c p q h e u v =
    let s : ℕ = b + gap in
    let whole : (k * s + s - 1) / s ≡ k = grind arith in
    let less : k * b ≤ k * s = grind arith in ground (arith, c (k * s) s, strided_size_whole s k b)

-- Of data that more blocks fit, a view of `n` blocks is recorded as `n` blocks, but gets the
-- size of all the blocks that fit and one more. The blocks are not empty, the quotient of
-- doubles is rounded up rightly below 2 ^ 53, and the sizes are below that.
pub make_strided_view_fewer :
    (f : ℕ → ℕ → ℕ) (d : DataDescriptor) (offset n b gap : ℕ)
    → IsCeilQuotient f
    → d.size < 2 ^ 53
    → b + gap < 2 ^ 53
    → 0 < b
    → 0 < n
    → offset ≤ d.size
    → n < (d.size - offset) / (b + gap)
    → make_strided_view f d offset n b gap
      ≡ some (record d {
        views =
            d.views
            ++ (strided (record { offset = offset; numblocks = n; blocksize = b; gapsize = gap })
                ∷ []);
        size = ((d.size - offset) / (b + gap) + 1) * b % 2 ^ 64;
      })
unfolding make_strided_view
make_strided_view_fewer f d offset n b gap c u v p q h less =
    let s : (b + gap) % 2 ^ 64 ≡ b + gap = omega arith in
    let quotient : f (d.size - offset) (b + gap) ≡ (d.size - offset + (b + gap) - 1) / (b + gap) =
      c (d.size - offset) (b + gap) (omega arith) (omega arith) v in
    let more : (d.size - offset) / (b + gap) ≤ (d.size - offset + (b + gap) - 1) / (b + gap) =
      grind arith in
    let blocks : min n (f (d.size - offset) (b + gap)) ≡ n = omega arith in
    let size =
      strided_size_fewer (d.size - offset) (b + gap) n b q less (omega arith) (omega arith) in
    rw (s, blocks, size) (ground arith)
