-- ===== src/ObjectPool.antt =====
-- win/object_pool.h ObjectPool: which of its slots are in use, and how far its memory is committed.
-- The objects are not modelled. Whether VirtualAlloc commits so many slots is an argument.
pub mod Slots
pub mod Allocation
pub mod Creation
pub mod Start
pub mod Global
use mmocraft.Prelude.{
  ℕ, suc, ◌+◌, ◌-◌, ◌*◌, ◌/◌, ◌%◌, ◌^◌, min, max, Bool, true, false, not, Option, none, some, List,
  [], ◌∷◌, ltb, leb, if◌then◌else◌, get_or, set, replicate,
}

abbrev pub size_type_bit_size : ℕ
size_type_bit_size = 64

abbrev pub default_capacity : ℕ
default_capacity = 512

-- The greatest 32-bit number.
abbrev pub invalid_index : ℕ
invalid_index = 2 ^ 32 - 1

-- A word of the bitmap, its lowest bit first. A bit that is set marks a free slot.
abbrev pub Word : Type 0
Word = List Bool

pub record ObjectPool : Type 0 where
  pub capacity : ℕ
  pub max_capacity : ℕ
  pub free_storage_bitmaps : List Word

-- The constructor, when the memory is reserved and the first slots are committed.
unfoldable pub new_pool : ℕ → ObjectPool
new_pool max_capacity = record {
  capacity = min default_capacity max_capacity;
  max_capacity = max_capacity;
  free_storage_bitmaps =
      replicate (1 + max_capacity / size_type_bit_size) (replicate size_type_bit_size true);
}

unfoldable pub reserve : (ℕ → Bool) → ObjectPool → ℕ → ObjectPool × Bool
reserve commit p new_capacity =
    let wanted = min new_capacity p.max_capacity in
    if leb new_capacity p.capacity
    then (p, true)
    else if leb p.max_capacity p.capacity
    then (p, false)
    else if commit wanted
    then (record p { capacity = wanted }, true)
    else (p, false)

unfoldable pub extend_capacity : (ℕ → Bool) → ObjectPool → ℕ → ObjectPool × Bool
extend_capacity commit p minimum_capacity = reserve commit p (max (p.capacity * 2) minimum_capacity)

-- _BitScanForward64: the position of the lowest bit that is set; `none` for the word 0.
unfoldable pub bit_scan_forward : Word → Option ℕ
bit_scan_forward [] = none
bit_scan_forward (b ∷ bs) =
    if b then some 0 else (elim (bit_scan_forward bs) [ none ↦ none | some k ↦ some (suc k) ])

-- The loop of get_free_object_index from word `i` on.
unfoldable pub find_free : ℕ → List Word → ℕ
find_free i [] = invalid_index
find_free i (w ∷ ws) =
    let rest = find_free (suc i) ws in
    elim (bit_scan_forward w) [
      | none ↦ rest
      | some bit_index ↦ (i * size_type_bit_size + bit_index) % 2 ^ 32
    ]

unfoldable pub get_free_object_index : ObjectPool → ℕ
get_free_object_index p = find_free 0 p.free_storage_bitmaps

-- The bit of a slot in the bitmap; false past its end.
abbrev pub is_free : ObjectPool → ℕ → Bool
is_free p index =
    get_or (get_or p.free_storage_bitmaps (index / size_type_bit_size) [])
      (index % size_type_bit_size) false

abbrev pub set_bit : ObjectPool → ℕ → Bool → ObjectPool
set_bit p index b =
    let word = index / size_type_bit_size in
    record p {
      free_storage_bitmaps =
          set p.free_storage_bitmaps word
            (set (get_or p.free_storage_bitmaps word []) (index % size_type_bit_size) b);
    }

unfoldable pub transition_to_ready : ObjectPool → ℕ → ObjectPool
transition_to_ready p index = set_bit p index false

-- The pool and whether the slot was in use.
unfoldable pub transition_to_free : ObjectPool → ℕ → ObjectPool × Bool
transition_to_free p index = (set_bit p index true, not (is_free p index))

-- new_object_internal: the index of the new object, or invalid_index.
unfoldable pub new_object : (ℕ → Bool) → ObjectPool → ObjectPool × ℕ
new_object commit p =
    let index = get_free_object_index p in
    let (extended, done) = extend_capacity commit p (index + 1) in
    if ltb index p.capacity
    then (transition_to_ready p index, index)
    else if done
    then (transition_to_ready extended index, index)
    else (extended, invalid_index)
