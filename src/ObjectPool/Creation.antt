-- ===== src/ObjectPool/Creation.antt =====
-- ObjectPool::new_object: no slot is handed out twice, and it fails only when the pool is full or
-- the system commits no more memory.
use mmocraft.Prelude.{
  ℕ, ◌+◌, ◌*◌, ◌/◌, ◌%◌, ◌≤◌, ◌<◌, min, max, ◌≡◌, refl, ap, ◌∙◌, ◌≢◌, inl, inr, Bool, true, false,
  [], arith, ltb, leb, if◌then◌else◌, ltb→lt, Bool-cases, get_or,
}
use mmocraft.ObjectPool.{
  ObjectPool, invalid_index, reserve, extend_capacity, get_free_object_index, is_free,
  transition_to_ready, new_object,
}
use mmocraft.ObjectPool.Slots.{IsValid}
use mmocraft.ObjectPool.Allocation.{
  lowest_free, set_bit-IsValid, is_free-set_bit, is_free-set_bit_ne,
}

-- What new_object leaves: nothing is handed out and all the committed slots are in use, or the
-- lowest free slot is, which no one else holds; no other slot changes.
pub data Created (p : ObjectPool) : ObjectPool × ℕ → Type 0 where
  refused : ((j : ℕ) → j < p.capacity → is_free p j ≡ false) → Created p (p, invalid_index)
  created :
      (q : ObjectPool) (i : ℕ)
      → i < q.capacity
      → p.capacity ≤ q.capacity
      → is_free p i ≡ true
      → is_free q i ≡ false
      → ((j : ℕ) → i ≢ j → is_free q j ≡ is_free p j)
      → ((j : ℕ) → j < i → is_free p j ≡ false)
      → Created p (q, i)

-- A pool with more slots committed.
abbrev grown : ObjectPool → ℕ → ObjectPool
grown p n = record p { capacity = n }

grown-IsValid :
    (p : ObjectPool) (n : ℕ) → IsValid p → p.capacity ≤ n → n ≤ p.max_capacity → IsValid (grown p n)
grown-IsValid p n v h k = record {
  within = k;
  words = v.words;
  bits = v.bits;
  small = v.small;
  beyond = λ j l m. v.beyond j (omega arith) m;
}

-- What extend_capacity does to a pool whose slots are all in use: it fails and keeps the pool, or
-- commits more slots, though no more than there are.
data Extended (commit : ℕ → Bool) (p : ObjectPool) : ObjectPool × Bool → Type 0 where
  full : p.max_capacity ≤ p.capacity → Extended commit p (p, false)
  no_memory : (n : ℕ) → commit n ≡ false → Extended commit p (p, false)
  more : (n : ℕ) → p.capacity < n → n ≤ p.max_capacity → Extended commit p (grown p n, true)

extend_capacity_lem :
    (commit : ℕ → Bool) (p : ObjectPool)
    → Extended commit p (extend_capacity commit p (p.capacity + 1))
unfolding extend_capacity reserve
extend_capacity_lem commit p =
    let n : ℕ = max (p.capacity * 2) (p.capacity + 1) in
    let short : leb n p.capacity ≡ false = ground arith in
    elim (Bool-cases (leb p.max_capacity p.capacity)) [
      | inl at_max ↦ rw (short, at_max) (full (ground arith))
      | inr room ↦ elim (Bool-cases (commit (min n p.max_capacity))) [
        | inl given ↦
            rw (short, room, given) (more (min n p.max_capacity) (ground arith) (omega arith))
        | inr denied ↦ rw (short, room, denied) (no_memory (min n p.max_capacity) denied)
      ]
    ]

created_here :
    (p q : ObjectPool) (i : ℕ)
    → IsValid q
    → q.free_storage_bitmaps ≡ p.free_storage_bitmaps
    → p.capacity ≤ q.capacity
    → i < q.capacity
    → is_free p i ≡ true
    → ((j : ℕ) → j < i → is_free p j ≡ false)
    → Created p (transition_to_ready q i, i) × IsValid (transition_to_ready q i)
unfolding transition_to_ready
created_here p q i v same grows h free below =
    let h' : i ≤ q.max_capacity = omega (arith, v.within) in
    (
      created (transition_to_ready q i) i h grows free (is_free-set_bit q i false v h')
          (λ j ne.
            is_free-set_bit_ne q i j false v h' ne
            ∙ ap (λ ws. get_or (get_or ws (j / 64) []) (j % 64) false) same)
          below,
      set_bit-IsValid q i false v h,
    )

-- The end of new_object, for `r` the result of extend_capacity.
abbrev finish : ℕ → ObjectPool × Bool → ObjectPool × ℕ
finish index (q, done) = if done then (transition_to_ready q index, index) else (q, invalid_index)

finish-Created :
    (commit : ℕ → Bool) (p : ObjectPool) (index : ℕ) (r : ObjectPool × Bool)
    → IsValid p
    → index ≡ p.capacity
    → is_free p index ≡ true
    → ((j : ℕ) → j < index → is_free p j ≡ false)
    → Extended commit p r
    → Created p (finish index r) × IsValid (finish index r).0
finish-Created commit p index r v at free below (full h) =
    (refused (λ j l. below j (omega arith)), v)
finish-Created commit p index r v at free below (no_memory n h) =
    (refused (λ j l. below j (omega arith)), v)
finish-Created commit p index r v at free below (more n l m) =
    created_here p (grown p n) index (grown-IsValid p n v (omega arith) m) refl (omega arith)
      (omega arith) free below

-- new_object either hands out nothing, which it does only if every committed slot is in use, or the
-- lowest free slot: it was free, it lies in committed memory, it is in use afterwards and no
-- other slot changes. The invariant is kept.
pub new_object-Created :
    (commit : ℕ → Bool) (p : ObjectPool)
    → IsValid p
    → Created p (new_object commit p) × IsValid (new_object commit p).0
unfolding new_object
new_object-Created commit p v =
    let index : ℕ = get_free_object_index p in
    let (near, free, below) = lowest_free p v in
    elim (Bool-cases (ltb index p.capacity)) [
      | inl inside ↦
          simp (inside) (
            created_here p p index v refl (omega arith) (ltb→lt index p.capacity inside) free below)
      | inr outside ↦
          let at : index ≡ p.capacity = ground arith in
          let ext : Extended commit p (extend_capacity commit p (index + 1)) =
            rw at (extend_capacity_lem commit p) in
          simp (outside) (
            finish-Created commit p index (extend_capacity commit p (index + 1)) v at free below
              ext)
    ]

finish-full :
    (commit : ℕ → Bool) (p : ObjectPool) (index : ℕ) (r : ObjectPool × Bool)
    → IsValid p
    → ((n : ℕ) → commit n ≡ true)
    → index ≡ p.capacity
    → Extended commit p r
    → (finish index r).1 ≡ invalid_index
    → p.max_capacity ≤ p.capacity
finish-full commit p index r v given at (full h) e = h
finish-full commit p index r v given at (no_memory n h) e = let yes = given n in absurd cc
finish-full commit p index r v given at (more n l m) e = absurd (omega (arith, e, v.small))

-- If the system always commits memory, new_object fails only when every slot of the pool is in use.
pub new_object-full :
    (commit : ℕ → Bool) (p : ObjectPool) (j : ℕ)
    → IsValid p
    → ((n : ℕ) → commit n ≡ true)
    → (new_object commit p).1 ≡ invalid_index
    → j < p.max_capacity
    → is_free p j ≡ false
unfolding new_object
new_object-full commit p j v given e h =
    let index : ℕ = get_free_object_index p in
    let (near, free, below) = lowest_free p v in
    elim (Bool-cases (ltb index p.capacity)) [
      | inl inside ↦
          let same : index ≡ invalid_index = simp (inside) at e in
          absurd (omega (arith, near, v.within, v.small))
      | inr outside ↦
          let at : index ≡ p.capacity = ground arith in
          let ext : Extended commit p (extend_capacity commit p (index + 1)) =
            rw at (extend_capacity_lem commit p) in
          let done : p.max_capacity ≤ p.capacity =
            finish-full commit p index (extend_capacity commit p (index + 1)) v given at ext
              (simp (outside) at e) in
          below j (omega arith)
    ]
