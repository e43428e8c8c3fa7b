-- ===== src/ObjectPool/Allocation.antt =====
-- What ObjectPool hands out, and what it takes back.
use mmocraft.Prelude.{
  ℕ, zero, suc, ◌/◌, ◌%◌, ◌≤◌, ◌<◌, ◌≡◌, refl, ap, ◌∙◌, ◌≢◌, inl, inr, Bool, true, false, not, List,
  [], ◌∷◌, arith, ltb, ◌==◌, ltb→lt, Bool-cases, length, get_or, set, length-set, All,
}
use mmocraft.ObjectPool.{
  ObjectPool, Word, find_free, get_free_object_index, is_free, set_bit, transition_to_free,
}
use mmocraft.ObjectPool.Slots.{IsValid, bit_at, all_used, found, find_free_lem}

module _ {A : Type 0} where
  get_or-set_self : (xs : List A) (i : ℕ) (v d : A) → i < length xs → get_or (set xs i v) i d ≡ v
  get_or-set_self [] i v d h = absurd (omega arith)
  get_or-set_self (x ∷ xs) zero v d h = refl
  get_or-set_self (x ∷ xs) (suc i) v d h = get_or-set_self xs i v d (omega arith)

  get_or-set_ne :
      (xs : List A) (i j : ℕ) (v d : A) → i ≢ j → get_or (set xs i v) j d ≡ get_or xs j d
  get_or-set_ne [] i j v d h = refl
  get_or-set_ne (x ∷ xs) zero zero v d h = absurd (h refl)
  get_or-set_ne (x ∷ xs) zero (suc j) v d h = refl
  get_or-set_ne (x ∷ xs) (suc i) zero v d h = refl
  get_or-set_ne (x ∷ xs) (suc i) (suc j) v d h = get_or-set_ne xs i j v d (λ e. h (ap suc e))

  All-set : (P : A → Type 0) (xs : List A) (i : ℕ) (v : A) → All P xs → P v → All P (set xs i v)
  All-set P [] i v h k = tt
  All-set P (x ∷ xs) zero v h k = (k, h.1)
  All-set P (x ∷ xs) (suc i) v h k = (h.0, All-set P xs i v h.1 k)

  All-get_or :
      (P : A → Type 0) (xs : List A) (i : ℕ) (d : A) → All P xs → i < length xs → P (get_or xs i d)
  All-get_or P [] i d h k = absurd (omega arith)
  All-get_or P (x ∷ xs) zero d h k = h.0
  All-get_or P (x ∷ xs) (suc i) d h k = All-get_or P xs i d h.1 (omega arith)

-- Every slot has a word, of 64 bits.
word_lem :
    (p : ObjectPool) (i : ℕ)
    → IsValid p
    → i ≤ p.max_capacity
    → (i / 64 < length p.free_storage_bitmaps)
      × (length (get_or p.free_storage_bitmaps (i / 64) []) ≡ 64)
word_lem p i v h =
    let at : i / 64 < length p.free_storage_bitmaps = omega (arith, v.words) in
    (at, All-get_or (λ w. length w ≡ 64) p.free_storage_bitmaps (i / 64) [] v.bits at)

pub is_free-set_bit :
    (p : ObjectPool) (i : ℕ) (b : Bool)
    → IsValid p
    → i ≤ p.max_capacity
    → is_free (set_bit p i b) i ≡ b
is_free-set_bit p i b v h =
    let ws : List Word = p.free_storage_bitmaps in
    let w : Word = get_or ws (i / 64) [] in
    let (at, size) = word_lem p i v h in
    ap (λ t. get_or t (i % 64) false) (get_or-set_self ws (i / 64) (set w (i % 64) b) [] at)
    ∙ get_or-set_self w (i % 64) b false (omega (arith, size))

pub is_free-set_bit_ne :
    (p : ObjectPool) (i j : ℕ) (b : Bool)
    → IsValid p
    → i ≤ p.max_capacity
    → i ≢ j
    → is_free (set_bit p i b) j ≡ is_free p j
is_free-set_bit_ne p i j b v h ne =
    let ws : List Word = p.free_storage_bitmaps in
    let w : Word = get_or ws (i / 64) [] in
    let (at, size) = word_lem p i v h in
    elim (Bool-cases (i / 64 == j / 64)) [
      | inl same ↦
          let e : j / 64 ≡ i / 64 = ground arith in
          let apart : i % 64 ≢ j % 64 = λ k. ne (omega arith) in
          rw e (
            ap (λ t. get_or t (j % 64) false) (get_or-set_self ws (i / 64) (set w (i % 64) b) [] at)
            ∙ get_or-set_ne w (i % 64) (j % 64) b false apart)
      | inr other ↦
          let apart : i / 64 ≢ j / 64 = ground arith in
          ap (λ t. get_or t (j % 64) false)
            (get_or-set_ne ws (i / 64) (j / 64) (set w (i % 64) b) [] apart)
    ]

pub set_bit-IsValid :
    (p : ObjectPool) (i : ℕ) (b : Bool) → IsValid p → i < p.capacity → IsValid (set_bit p i b)
set_bit-IsValid p i b v h =
    let ws : List Word = p.free_storage_bitmaps in
    let w : Word = get_or ws (i / 64) [] in
    let h' : i ≤ p.max_capacity = omega (arith, v.within) in
    let (_, size) = word_lem p i v h' in
    record {
      within = v.within;
      words = length-set ws (i / 64) (set w (i % 64) b) ∙ v.words;
      bits =
          All-set (λ w. length w ≡ 64) ws (i / 64) (set w (i % 64) b) v.bits
            (length-set w (i % 64) b ∙ size);
      small = v.small;
      beyond = λ j l m. is_free-set_bit_ne p i j b v h' (omega arith) ∙ v.beyond j l m;
    }

-- Giving a slot back reports whether it was in use, makes it free, leaves every other slot as it is
-- and keeps the invariant.
pub transition_to_free_lem :
    (p : ObjectPool) (i j : ℕ)
    → IsValid p
    → i < p.capacity
    → i ≢ j
    → ((transition_to_free p i).1 ≡ not (is_free p i))
      × (is_free (transition_to_free p i).0 i ≡ true)
      × (is_free (transition_to_free p i).0 j ≡ is_free p j)
      × IsValid (transition_to_free p i).0
unfolding transition_to_free
transition_to_free_lem p i j v h ne =
    let h' : i ≤ p.max_capacity = omega (arith, v.within) in
    (
      refl,
      is_free-set_bit p i true v h',
      is_free-set_bit_ne p i j true v h' ne,
      set_bit-IsValid p i true v h,
    )

-- The lowest free slot is the first that is not committed, or a slot before it.
pub lowest_free :
    (p : ObjectPool)
    → IsValid p
    → (get_free_object_index p ≤ p.capacity)
      × (is_free p (get_free_object_index p) ≡ true)
      × ((j : ℕ) → j < get_free_object_index p → is_free p j ≡ false)
unfolding get_free_object_index
lowest_free p v =
    let end : bit_at p.free_storage_bitmaps p.capacity ≡ true =
      v.beyond p.capacity (omega arith) v.within in
    elim (find_free_lem 0 p.free_storage_bitmaps v.bits) [
      | all_used f e ↦ let none_left = f p.capacity in absurd cc
      | found k h free f e ↦
          let near : k ≤ p.capacity = elim (Bool-cases (ltb p.capacity k)) [
            | inl past ↦ let used = f p.capacity (ltb→lt p.capacity k past) in absurd cc
            | inr not_past ↦ ground arith
          ] in
          let same : find_free 0 p.free_storage_bitmaps ≡ k =
            omega (arith, e, near, v.within, v.small) in
          rw same (near, free, f)
    ]
