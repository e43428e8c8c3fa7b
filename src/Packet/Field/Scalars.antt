-- ===== src/Packet/Field/Scalars.antt =====
-- PacketStructure::read_scalar and its writers are inverse: integers travel big-endian.
use mmocraft.Prelude.{
  ℕ, zero, suc, ◌+◌, ◌*◌, ◌/◌, ◌%◌, ◌^◌, ◌<◌, ◌≡◌, refl, sym, ap, ◌∙◌, some, [], ◌∷◌, ◌++◌, reverse,
  arith, length, length-reverse, All, All-append,
}
use mathlib.Core.List.{reverse-reverse, reverse-cons}
use native.Mathlib.Nat.{pow-suc}
use mmocraft.Packet.Field.{Bytes, ◌>>=◌, read_bytes, to_memory, of_memory, byteswap, read_scalar}

abbrev pub IsBytes : Bytes → Type 0
IsBytes = All (λ b. b < 256)

pub length-to_memory : (n v : ℕ) → length (to_memory n v) ≡ n
unfolding to_memory
length-to_memory zero v = refl
length-to_memory (suc n) v = ap suc (length-to_memory n (v / 256))

pub to_memory-IsBytes : (n v : ℕ) → IsBytes (to_memory n v)
unfolding to_memory
to_memory-IsBytes zero v = tt
to_memory-IsBytes (suc n) v = (omega arith, to_memory-IsBytes n (v / 256))

of_memory-to_memory : (n v : ℕ) → v < 256 ^ n → of_memory (to_memory n v) ≡ v
unfolding to_memory of_memory
of_memory-to_memory zero v h = omega arith
of_memory-to_memory (suc n) v h =
    omega (arith, pow-suc 256 n, of_memory-to_memory n (v / 256) (omega (arith, pow-suc 256 n)))

to_memory-of_memory : (bs : Bytes) → IsBytes bs → to_memory (length bs) (of_memory bs) ≡ bs
unfolding to_memory of_memory
to_memory-of_memory [] h = refl
to_memory-of_memory (b ∷ bs) h =
    let low : (b + 256 * of_memory bs) % 256 ≡ b = omega arith in
    let high : (b + 256 * of_memory bs) / 256 ≡ of_memory bs = omega arith in
    rw (low, high, to_memory-of_memory bs h.1)

reverse-IsBytes : (bs : Bytes) → IsBytes bs → IsBytes (reverse bs)
reverse-IsBytes [] h = tt
reverse-IsBytes (b ∷ bs) h =
    rw (reverse-cons b bs)
      (All-append (λ x. x < 256) (reverse bs) (b ∷ []) (reverse-IsBytes bs h.1) (h.0, tt))

-- The bytes that a writer of an integer appends.
abbrev pub scalar : ℕ → ℕ → Bytes
scalar n v = to_memory n (byteswap n v)

pub length-scalar : (n v : ℕ) → length (scalar n v) ≡ n
length-scalar n v = length-to_memory n (byteswap n v)

-- Most significant byte first.
pub scalar-eq-reverse : (n v : ℕ) → scalar n v ≡ reverse (to_memory n v)
unfolding byteswap
scalar-eq-reverse n v =
    let size : length (reverse (to_memory n v)) ≡ n =
      omega (arith, length-reverse (to_memory n v), length-to_memory n v) in
    ap (λ k. to_memory k (of_memory (reverse (to_memory n v)))) (sym size)
    ∙ to_memory-of_memory (reverse (to_memory n v))
        (reverse-IsBytes (to_memory n v) (to_memory-IsBytes n v))

pub byteswap-of_memory-scalar : (n v : ℕ) → v < 256 ^ n → byteswap n (of_memory (scalar n v)) ≡ v
byteswap-of_memory-scalar n v h =
    ap (λ bs. byteswap n (of_memory bs)) (scalar-eq-reverse n v) ∙ unfolded
  where
    unfolded : byteswap n (of_memory (reverse (to_memory n v))) ≡ v
    unfolded =
        unfold byteswap in
        ap (λ bs. of_memory (reverse bs)) (scalar-eq-reverse n v)
        ∙ ap of_memory (reverse-reverse (to_memory n v))
        ∙ of_memory-to_memory n v h

pub read_bytes-append :
    (xs rest : Bytes) (n : ℕ) → length xs ≡ n → read_bytes n (xs ++ rest) ≡ some (xs, rest)
unfolding read_bytes
read_bytes-append [] rest zero h = refl
read_bytes-append [] rest (suc n) h = absurd (omega arith)
read_bytes-append (x ∷ xs) rest zero h = absurd (omega arith)
read_bytes-append (x ∷ xs) rest (suc n) h = rw (read_bytes-append xs rest n (omega arith))

-- An integer that fits `n` bytes is read back as it was written.
pub read_scalar-scalar :
    (n v : ℕ) (rest : Bytes) → v < 256 ^ n → read_scalar n (scalar n v ++ rest) ≡ some (v, rest)
unfolding read_scalar
read_scalar-scalar n v rest h =
    rw (read_bytes-append (scalar n v) rest n (length-scalar n v), read_scalar, ◌>>=◌)
      (ap (λ w. some (w, rest)) (byteswap-of_memory-scalar n v h))
