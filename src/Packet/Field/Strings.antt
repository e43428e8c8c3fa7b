-- ===== src/Packet/Field/Strings.antt =====
-- PacketStructure::read_string and write_string: a string is padded with spaces to 64 bytes, and a
-- reader strips the spaces at the end.
use mmocraft.Prelude.{
  ℕ, zero, suc, ◌+◌, ◌-◌, ◌≤◌, ◌<◌, min, ◌≡◌, refl, sym, ap, ◌∙◌, ◌≢◌, ◌⊎◌, inl, inr, some, [], ◌∷◌,
  ◌++◌, arith, length, take-min, get_or, take, replicate, length-append, length-take,
  length-replicate, take-append,
}
use mmocraft.Packet.Field.{Bytes, ◌>>=◌, unpadded_size, read_string, max_string_length}
use mmocraft.Packet.Field.Scalars.{read_bytes-append}

-- The string is empty or does not end in a space.
abbrev pub EndsClean : Bytes → Type 0
EndsClean s = (length s ≡ 0) ⊎ (get_or s (length s - 1) 0 ≢ b' ')

-- The 64 bytes that a writer of a string appends.
abbrev pub padded : Bytes → Bytes
padded str =
    take (min (length str) max_string_length) str
    ++ replicate (max_string_length - min (length str) max_string_length) b' '

pub length-padded : (s : Bytes) → length (padded s) ≡ 64
length-padded s =
    let n : ℕ = min (length s) 64 in
    omega (
      arith,
      length-append (take n s) (replicate (64 - n) b' '),
      length-take n s,
      length-replicate {A = ℕ} (64 - n) b' ',
    )

get_or-padding :
    (s : Bytes) (n i : ℕ)
    → length s ≤ i
    → i < length s + n
    → get_or (s ++ replicate n b' ') i 0 ≡ b' '
get_or-padding [] zero i h k = absurd (omega arith)
get_or-padding [] (suc n) zero h k = refl
get_or-padding [] (suc n) (suc i) h k = get_or-padding [] n i (omega arith) (omega arith)
get_or-padding (x ∷ s) n zero h k = absurd (omega arith)
get_or-padding (x ∷ s) n (suc i) h k = get_or-padding s n i (omega arith) (omega arith)

get_or-append_left : (s t : Bytes) (i : ℕ) → i < length s → get_or (s ++ t) i 0 ≡ get_or s i 0
get_or-append_left [] t i h = absurd (omega arith)
get_or-append_left (x ∷ s) t zero h = refl
get_or-append_left (x ∷ s) t (suc i) h = get_or-append_left s t i (omega arith)

-- The loop passes over the padding.
unpadded_size-padding :
    (s : Bytes) (n k : ℕ)
    → k ≤ n
    → unpadded_size (s ++ replicate n b' ') (k + length s)
      ≡ unpadded_size (s ++ replicate n b' ') (length s)
unfolding unpadded_size
unpadded_size-padding s n zero h =
    let e : 0 + length s ≡ length s = omega arith in ap (unpadded_size (s ++ replicate n b' ')) e
unpadded_size-padding s n (suc k) h =
    let e : suc k + length s ≡ suc (k + length s) = omega arith in
    let space : get_or (s ++ replicate n b' ') (k + length s) 0 ≡ b' ' =
      get_or-padding s n (k + length s) (omega arith) (omega arith) in
    ap (unpadded_size (s ++ replicate n b' ')) e
    ∙ ground (arith, space, unpadded_size-padding s n k (omega arith))

-- It stops at the last byte of a string that ends in no space.
unpadded_size-clean :
    (s t : Bytes) (n : ℕ) → length s ≡ n → EndsClean s → unpadded_size (s ++ t) n ≡ n
unfolding unpadded_size
unpadded_size-clean s t zero e h = refl
unpadded_size-clean s t (suc n) e (inl z) = absurd (omega arith)
unpadded_size-clean s t (suc n) e (inr c) =
    let i : length s - 1 ≡ n = omega arith in
    let last : get_or (s ++ t) n 0 ≡ get_or s (length s - 1) 0 =
      get_or-append_left s t n (omega arith) ∙ ap (λ k. get_or s k 0) (sym i) in
    ground (arith, last)

unpadded_size-padded :
    (s : Bytes) (n : ℕ)
    → length s + n ≡ 64
    → EndsClean s
    → unpadded_size (s ++ replicate n b' ') 64 ≡ length s
unpadded_size-padded s n e h =
    let f : 64 ≡ n + length s = omega arith in
    ap (unpadded_size (s ++ replicate n b' ')) f
    ∙ unpadded_size-padding s n n (omega arith)
    ∙ unpadded_size-clean s (replicate n b' ') (length s) refl h

-- A reader gets back what of the string fits 64 bytes, if that does not end in a space.
pub read_string-padded :
    (s rest : Bytes)
    → EndsClean (take 64 s)
    → read_string (padded s ++ rest) ≡ some (take 64 s, rest)
unfolding read_string
read_string-padded s rest h =
    rw (read_bytes-append (padded s) rest 64 (length-padded s), read_string, ◌>>=◌)
      (ap (λ w. some (w, rest)) value)
  where
    n : ℕ
    n = min (length s) 64

    size : length (take n s) ≡ n
    size = omega (arith, length-take n s)

    clean : EndsClean (take n s)
    clean = rw (take-min 64 s) h

    count : unpadded_size (padded s) 64 ≡ n
    count = unpadded_size-padded (take n s) (64 - n) (omega (arith, size)) clean ∙ size

    value : take (unpadded_size (padded s) 64) (padded s) ≡ take 64 s
    value =
        ap (λ k. take k (padded s)) count
        ∙ take-append n (take n s) (replicate (64 - n) b' ') size
        ∙ take-min 64 s
