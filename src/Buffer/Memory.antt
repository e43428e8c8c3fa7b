-- ===== src/Buffer/Memory.antt =====
-- A block of memory as the list of its bytes: std::memcpy into it, and the bytes of a range.
use mmocraft.Prelude.{
  ℕ, zero, suc, ◌+◌, ◌-◌, ◌≤◌, ◌≡◌, refl, sym, ap, ◌∙◌, List, [], ◌∷◌, ◌++◌, append_assoc, arith,
  length, take, drop, length-append, length-take, length-drop, take-append,
}

abbrev pub Memory : Type 0
Memory = List ℕ

-- std::memcpy(mem + off, bytes, size of bytes)
unfoldable pub write_at : Memory → ℕ → List ℕ → Memory
write_at mem off bytes = take off mem ++ (bytes ++ drop (off + length bytes) mem)

-- The bytes from `first` up to `last`.
abbrev pub range : Memory → ℕ → ℕ → List ℕ
range mem first last = drop first (take last mem)

pub length-write_at :
    (mem : Memory) (off : ℕ) (bytes : List ℕ)
    → off + length bytes ≤ length mem
    → length (write_at mem off bytes) ≡ length mem
unfolding write_at
length-write_at mem off bytes h = omega (
  arith,
  length-append (take off mem) (bytes ++ drop (off + length bytes) mem),
  length-append bytes (drop (off + length bytes) mem),
  length-take off mem,
  length-drop (off + length bytes) mem,
)

take-append_le : (n : ℕ) (xs ys : List ℕ) → n ≤ length xs → take n (xs ++ ys) ≡ take n xs
take-append_le zero xs ys h = refl
take-append_le (suc n) [] ys h = absurd (omega arith)
take-append_le (suc n) (x ∷ xs) ys h = ap (◌∷◌ x) (take-append_le n xs ys (omega arith))

pub drop-append_le : (n : ℕ) (xs ys : List ℕ) → n ≤ length xs → drop n (xs ++ ys) ≡ drop n xs ++ ys
drop-append_le zero xs ys h = refl
drop-append_le (suc n) [] ys h = absurd (omega arith)
drop-append_le (suc n) (x ∷ xs) ys h = drop-append_le n xs ys (omega arith)

pub take-take : (m n : ℕ) (xs : List ℕ) → m ≤ n → take m (take n xs) ≡ take m xs
take-take zero n xs h = refl
take-take (suc m) zero xs h = absurd (omega arith)
take-take (suc m) (suc n) [] h = refl
take-take (suc m) (suc n) (x ∷ xs) h = ap (◌∷◌ x) (take-take m n xs (omega arith))

-- Up to the end of what is written, memory is what lay before it and the bytes written.
pub take-write_at :
    (mem : Memory) (off : ℕ) (bytes : List ℕ)
    → off ≤ length mem
    → take (off + length bytes) (write_at mem off bytes) ≡ take off mem ++ bytes
unfolding write_at
take-write_at mem off bytes h =
    let size : length (take off mem ++ bytes) ≡ off + length bytes =
      omega (arith, length-append (take off mem) bytes, length-take off mem) in
    ap (take (off + length bytes))
      (sym (append_assoc (take off mem) bytes (drop (off + length bytes) mem)))
    ∙ take-append (off + length bytes) (take off mem ++ bytes) (drop (off + length bytes) mem) size

-- A range that ends where a write begins grows by the bytes written.
pub range-write_at :
    (mem : Memory) (first last : ℕ) (bytes : List ℕ)
    → first ≤ last
    → last ≤ length mem
    → range (write_at mem last bytes) first (last + length bytes) ≡ range mem first last ++ bytes
range-write_at mem first last bytes h k =
    ap (drop first) (take-write_at mem last bytes k)
    ∙ drop-append_le first (take last mem) bytes (omega (arith, length-take last mem))

pub range_self : (mem : Memory) (n : ℕ) → range mem n n ≡ []
range_self mem zero = refl
range_self [] (suc n) = refl
range_self (x ∷ mem) (suc n) = range_self mem n

pub length-range :
    (mem : Memory) (first last : ℕ)
    → last ≤ length mem
    → length (range mem first last) ≡ last - first
length-range mem first last h =
    omega (arith, length-drop first (take last mem), length-take last mem)

-- memmove(mem, mem + n, rest) of the last `rest` bytes of the first `n + rest`.
pub take-move :
    (mem : Memory) (n rest : ℕ)
    → n + rest ≤ length mem
    → take rest (write_at mem 0 (range mem n (n + rest))) ≡ range mem n (n + rest)
take-move mem n rest h =
    let size : length (range mem n (n + rest)) ≡ rest =
      omega (arith, length-range mem n (n + rest) h) in
    let e : 0 + length (range mem n (n + rest)) ≡ rest = omega (arith, size) in
    ap (λ k. take k (write_at mem 0 (range mem n (n + rest)))) (sym e)
    ∙ take-write_at mem 0 (range mem n (n + rest)) (omega arith)
