-- ===== src/ObjectPool/Slots.antt =====
-- Which slots of an ObjectPool are in use.
use mmocraft.Prelude.{
  ℕ, zero, suc, ◌+◌, ◌-◌, ◌*◌, ◌/◌, ◌%◌, ◌^◌, ◌≤◌, ◌<◌, ◌≡◌, refl, sym, ap, ◌∙◌, ◌⊎◌, inl, inr,
  Bool, true, false, Option, none, some, List, [], ◌∷◌, arith, ltb, Bool-cases, length, get_or, set,
  All,
}
use mmocraft.ObjectPool.{
  ObjectPool, Word, size_type_bit_size, invalid_index, bit_scan_forward, find_free,
}

-- What bit_scan_forward finds: no bit that is set, or the lowest.
data Scanned (w : Word) : Option ℕ → Type 0 where
  nothing : ((j : ℕ) → get_or w j false ≡ false) → Scanned w none
  lowest :
      (k : ℕ)
      → k < length w
      → get_or w k false ≡ true
      → ((j : ℕ) → j < k → get_or w j false ≡ false)
      → Scanned w (some k)

bit_scan_forward_lem : (w : Word) → Scanned w (bit_scan_forward w)
unfolding bit_scan_forward
bit_scan_forward_lem [] = nothing (λ j. refl)
bit_scan_forward_lem (true ∷ bs) = lowest 0 (omega arith) refl (λ j h. absurd (omega arith))
bit_scan_forward_lem (false ∷ bs) = scanned (bit_scan_forward bs) (bit_scan_forward_lem bs)
  where
    scanned :
        (r : Option ℕ)
        → Scanned bs r
        → Scanned (false ∷ bs) (elim r [ none ↦ none | some k ↦ some (suc k) ])
    scanned r (nothing f) = nothing (elim [ zero ↦ refl | suc j ↦ f j ])
    scanned r (lowest k h set f) =
        lowest (suc k) (omega arith) set
          (elim [ zero ↦ λ l. refl | suc j ↦ λ l. f j (omega arith) ])

-- The bit of a slot among the words of a bitmap.
abbrev pub bit_at : List Word → ℕ → Bool
bit_at ws j = get_or (get_or ws (j / 64) []) (j % 64) false

-- The bitmap has a bit for each slot and at least one more, no more slots are committed than there
-- are, and the slots that are not committed are free, as is the first bit that stands for no slot.
pub record IsValid (p : ObjectPool) : Type 0 where
  pub within : p.capacity ≤ p.max_capacity
  pub words : length p.free_storage_bitmaps ≡ 1 + p.max_capacity / 64
  pub bits : All (λ w. length w ≡ 64) p.free_storage_bitmaps
  pub small : p.max_capacity + 64 < 2 ^ 32
  pub beyond :
      (j : ℕ) → p.capacity ≤ j → j ≤ p.max_capacity → bit_at p.free_storage_bitmaps j ≡ true

bit_at-first : (w : Word) (ws : List Word) (j : ℕ) → j < 64 → bit_at (w ∷ ws) j ≡ get_or w j false
bit_at-first w ws j h =
    let q : j / 64 ≡ 0 = omega arith in let r : j % 64 ≡ j = omega arith in rw (q, r) refl

bit_at-rest : (w : Word) (ws : List Word) (j : ℕ) → bit_at (w ∷ ws) (64 + j) ≡ bit_at ws j
bit_at-rest w ws j =
    let q : (64 + j) / 64 ≡ suc (j / 64) = omega arith in
    let r : (64 + j) % 64 ≡ j % 64 = omega arith in rw (q, r) refl

bit_at-cases :
    (w : Word) (ws : List Word) (j : ℕ)
    → ((j < 64) × (bit_at (w ∷ ws) j ≡ get_or w j false))
      ⊎ ((64 ≤ j) × (bit_at (w ∷ ws) j ≡ bit_at ws (j - 64)))
bit_at-cases w ws j = elim (Bool-cases (ltb j 64)) [
  | inl first ↦ let h : j < 64 = ground arith in inl (h, bit_at-first w ws j h)
  | inr later ↦
      let h : 64 ≤ j = ground arith in
      let e : 64 + (j - 64) ≡ j = omega arith in
      inr (h, ap (bit_at (w ∷ ws)) (sym e) ∙ bit_at-rest w ws (j - 64))
]

-- What find_free finds from word `i` on: no free slot, or the lowest.
pub data Found (i : ℕ) (ws : List Word) (r : ℕ) : Type 0 where
  all_used : ((j : ℕ) → bit_at ws j ≡ false) → r ≡ invalid_index → Found i ws r
  found :
      (k : ℕ)
      → k < 64 * length ws
      → bit_at ws k ≡ true
      → ((j : ℕ) → j < k → bit_at ws j ≡ false)
      → r ≡ (i * 64 + k) % 2 ^ 32
      → Found i ws r

find_free-none :
    (i : ℕ) (w : Word) (ws : List Word) (r : ℕ)
    → ((j : ℕ) → get_or w j false ≡ false)
    → Found (suc i) ws r
    → Found i (w ∷ ws) r
find_free-none i w ws r empty (all_used f e) =
    all_used
      (λ j. elim (bit_at-cases w ws j) [ inl (_, b) ↦ b ∙ empty j | inr (_, b) ↦ b ∙ f (j - 64) ]) e
find_free-none i w ws r empty (found k h set f e) =
    let at : (suc i * 64 + k) % 2 ^ 32 ≡ (i * 64 + (64 + k)) % 2 ^ 32 =
      ap (λ t. t % 2 ^ 32) (omega arith) in
    found (64 + k) (omega arith) (bit_at-rest w ws k ∙ set)
      (λ j l. elim (bit_at-cases w ws j) [
        | inl (_, b) ↦ b ∙ empty j
        | inr (m, b) ↦ b ∙ f (j - 64) (omega arith)
      ])
      (e ∙ at)

pub find_free_lem :
    (i : ℕ) (ws : List Word) → All (λ w. length w ≡ 64) ws → Found i ws (find_free i ws)
unfolding find_free
find_free_lem i [] v = all_used (λ j. refl) refl
find_free_lem i (w ∷ ws) v =
    scanned (bit_scan_forward w) (bit_scan_forward_lem w) (find_free_lem (suc i) ws v.1)
  where
    scanned :
        (r : Option ℕ)
        → Scanned w r
        → Found (suc i) ws (find_free (suc i) ws)
        → Found i (w ∷ ws) (elim r [
          | none ↦ find_free (suc i) ws
          | some bit_index ↦ (i * size_type_bit_size + bit_index) % 2 ^ 32
        ])
    scanned r (nothing f) later = find_free-none i w ws (find_free (suc i) ws) f later
    scanned r (lowest k h set f) later =
        let small : k < 64 = omega (arith, v.0) in
        found k (omega arith) (bit_at-first w ws k small ∙ set)
          (λ j l. bit_at-first w ws j (omega arith) ∙ f j l) refl
