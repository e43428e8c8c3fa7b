-- ===== src/Buffer/LockFree/Bytes.antt =====
-- The bytes of a memory one at a time: what std::memcpy changes, and ranges compared byte by byte.
use mmocraft.Prelude.{
  ℕ, zero, suc, ◌+◌, ◌-◌, ◌≤◌, ◌<◌, ◌≡◌, refl, sym, ap, ◌∙◌, ◌⊎◌, inl, inr, some, List, [], ◌∷◌,
  ◌++◌, arith, length, get_elem?, take, drop, length-take, length-drop, take-append-drop,
}
use mmocraft.Buffer.Memory.{Memory, write_at, range}

pub get_elem?-append_lt :
    (xs ys : List ℕ) (p : ℕ) → p < length xs → get_elem? (xs ++ ys) p ≡ get_elem? xs p
get_elem?-append_lt [] ys p h = absurd (omega arith)
get_elem?-append_lt (x ∷ xs) ys zero h = refl
get_elem?-append_lt (x ∷ xs) ys (suc p) h = get_elem?-append_lt xs ys p (omega arith)

pub get_elem?-append_ge :
    (xs ys : List ℕ) (p : ℕ) → length xs ≤ p → get_elem? (xs ++ ys) p ≡ get_elem? ys (p - length xs)
get_elem?-append_ge [] ys p h = let e : p ≡ p - 0 = omega arith in ap (get_elem? ys) e
get_elem?-append_ge (x ∷ xs) ys zero h = absurd (omega arith)
get_elem?-append_ge (x ∷ xs) ys (suc p) h =
    let e : p - length xs ≡ suc p - suc (length xs) = omega arith in
    get_elem?-append_ge xs ys p (omega arith) ∙ ap (get_elem? ys) e

pub get_elem?-drop : (n : ℕ) (xs : List ℕ) (p : ℕ) → get_elem? (drop n xs) p ≡ get_elem? xs (n + p)
get_elem?-drop zero xs p = let e : p ≡ 0 + p = omega arith in ap (get_elem? xs) e
get_elem?-drop (suc n) [] p = refl
get_elem?-drop (suc n) (x ∷ xs) p =
    let e : suc (n + p) ≡ suc n + p = omega arith in
    get_elem?-drop n xs p ∙ ap (get_elem? (x ∷ xs)) e

pub get_elem?-take :
    (n : ℕ) (xs : List ℕ) (p : ℕ) → p < n → get_elem? (take n xs) p ≡ get_elem? xs p
get_elem?-take zero xs p h = absurd (omega arith)
get_elem?-take (suc n) [] p h = refl
get_elem?-take (suc n) (x ∷ xs) zero h = refl
get_elem?-take (suc n) (x ∷ xs) (suc p) h = get_elem?-take n xs p (omega arith)

pub write_at_nil :
    (mem : Memory) (off : ℕ) (bytes : List ℕ) → length bytes ≡ 0 → write_at mem off bytes ≡ mem
unfolding write_at
write_at_nil mem off [] h =
    let e : off + 0 ≡ off = omega arith in
    ap (λ k. take off mem ++ drop k mem) e ∙ take-append-drop off mem
write_at_nil mem off (x ∷ bytes) h = absurd (omega arith)

-- A byte that the copy does not reach stays.
pub get_elem?-write_at_ne :
    (mem : Memory) (off : ℕ) (bytes : List ℕ) (p : ℕ)
    → off + length bytes ≤ length mem
    → (p < off) ⊎ (off + length bytes ≤ p)
    → get_elem? (write_at mem off bytes) p ≡ get_elem? mem p
unfolding write_at
get_elem?-write_at_ne mem off bytes p h (inl before) =
    get_elem?-append_lt (take off mem) (bytes ++ drop (off + length bytes) mem) p
      (omega (arith, length-take off mem))
    ∙ get_elem?-take off mem p before
get_elem?-write_at_ne mem off bytes p h (inr after) =
    let behind : length (take off mem) ≡ off = omega (arith, length-take off mem) in
    let e : off + length bytes + (p - length (take off mem) - length bytes) ≡ p =
      omega (arith, behind) in
    get_elem?-append_ge (take off mem) (bytes ++ drop (off + length bytes) mem) p
      (omega (arith, behind))
    ∙ get_elem?-append_ge bytes (drop (off + length bytes) mem) (p - length (take off mem))
        (omega (arith, behind))
    ∙ get_elem?-drop (off + length bytes) mem (p - length (take off mem) - length bytes)
    ∙ ap (get_elem? mem) e

-- A byte that the copy reaches is the one of the bytes copied.
pub get_elem?-write_at :
    (mem : Memory) (off : ℕ) (bytes : List ℕ) (p : ℕ)
    → off + length bytes ≤ length mem
    → off ≤ p
    → p < off + length bytes
    → get_elem? (write_at mem off bytes) p ≡ get_elem? bytes (p - off)
unfolding write_at
get_elem?-write_at mem off bytes p h first last =
    let behind : length (take off mem) ≡ off = omega (arith, length-take off mem) in
    let e : p - length (take off mem) ≡ p - off = omega (arith, behind) in
    get_elem?-append_ge (take off mem) (bytes ++ drop (off + length bytes) mem) p
      (omega (arith, behind))
    ∙ get_elem?-append_lt bytes (drop (off + length bytes) mem) (p - length (take off mem))
        (omega (arith, behind))
    ∙ ap (get_elem? bytes) e

pub ext_get_elem? :
    (xs ys : List ℕ)
    → length xs ≡ length ys
    → ((p : ℕ) → p < length xs → get_elem? xs p ≡ get_elem? ys p)
    → xs ≡ ys
ext_get_elem? [] [] e h = refl
ext_get_elem? [] (y ∷ ys) e h = absurd (omega arith)
ext_get_elem? (x ∷ xs) [] e h = absurd (omega arith)
ext_get_elem? (x ∷ xs) (y ∷ ys) e h =
    let same : xs ≡ ys = ext_get_elem? xs ys (omega arith) (λ p k. h (suc p) (omega arith)) in
    let first : some x ≡ some y = h 0 (omega arith) in cc

-- Two memories that agree on a range have the same bytes there.
pub range-ext :
    (a b : Memory) (first last : ℕ)
    → last ≤ length a
    → last ≤ length b
    → ((p : ℕ) → first ≤ p → p < last → get_elem? a p ≡ get_elem? b p)
    → range a first last ≡ range b first last
range-ext a b first last ha hb h =
    ext_get_elem? (range a first last) (range b first last) (omega (arith, size a ha, size b hb))
      (λ p k.
        let below : first + p < last = omega (arith, size a ha) in
        get_elem?-drop first (take last a) p
        ∙ get_elem?-take last a (first + p) below
        ∙ h (first + p) (omega arith) below
        ∙ sym (get_elem?-drop first (take last b) p ∙ get_elem?-take last b (first + p) below))
  where
    size : (c : Memory) → last ≤ length c → length (range c first last) ≡ last - first
    size c k = omega (arith, length-drop first (take last c), length-take last c)
