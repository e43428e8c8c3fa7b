-- ===== src/ObjectPool/Global.antt =====
-- win/object_pool.h ObjectGlobalPool: pools that are found by the identifiers of their objects, and
-- the pointer that owns an object. The objects stay out of the model; `destructed` has the
-- identifiers whose destructor ran.
pub mod Ownership
pub mod Exhausted
use mmocraft.Prelude.{
  ℕ, ◌+◌, ◌-◌, ◌*◌, ◌/◌, ◌%◌, ◌^◌, Bool, false, Option, none, some, List, [], ◌∷◌, ◌++◌, ◌==◌,
  if◌then◌else◌, update,
}
use mmocraft.ObjectPool.{ObjectPool, invalid_index, new_object, transition_to_free, new_pool}

abbrev pub invalid_object_id : ℕ
invalid_object_id = 0

pub record Pools : Type 0 where
  pub pool_table : ℕ → Option ObjectPool
  pub num_of_free_object_pool : ℕ  -- 8 bits
  pub destructed : List ℕ

-- The constructor of a pool: its index, or none if it throws TOO_MANY_POOL_ERROR.
unfoldable pub new_global_pool : ℕ → Pools → Pools × Option ℕ
new_global_pool max_capacity s =
    let index = s.num_of_free_object_pool in
    let taken = record s { num_of_free_object_pool = (index + 2 ^ 8 - 1) % 2 ^ 8 } in
    if index == 0 then (taken, none) else (
      record taken { pool_table = update s.pool_table index (some (new_pool max_capacity)) },
      some index,
    )

unfoldable pub delete_pool : ℕ → Pools → Pools
delete_pool index s = record s { pool_table = update s.pool_table index none }

-- `(ObjectID(_pool_index) << 32) | object_index` of 32-bit indices.
unfoldable pub make_id : ℕ → ℕ → ℕ
make_id pool_index object_index = pool_index * 2 ^ 32 + object_index

unfoldable pub get_object_index : ℕ → ℕ
get_object_index id = id % 2 ^ 32

unfoldable pub find_pool : ℕ → Pools → Option ObjectPool
find_pool id s = s.pool_table (id / 2 ^ 32)

-- What new_object_unsafe makes of the index that new_object_internal returns.
unfoldable pub with_object_id : ℕ → Pools → ObjectPool × ℕ → Pools × ℕ
with_object_id pool_index s (after, object_index) =
    let s' = record s { pool_table = update s.pool_table pool_index (some after) } in
    if object_index == invalid_index
    then (s', invalid_object_id)
    else (s', make_id pool_index object_index)

-- new_object_unsafe of the pool with an index: the identifier of the new object.
unfoldable pub new_object_unsafe : (ℕ → Bool) → ℕ → Pools → Pools × ℕ
new_object_unsafe commit pool_index s = elim (s.pool_table pool_index) [
  | none ↦ (s, invalid_object_id)
  | some p ↦ with_object_id pool_index s (new_object commit p)
]

-- free_object: the destructor runs before the slot is looked at.
unfoldable pub free_object : ℕ → Pools → Pools × Bool
free_object id s = if id == invalid_object_id then (s, false) else (elim (find_pool id s) [
  | none ↦ (s, false)
  | some p ↦
      let (after, was_used) = transition_to_free p (get_object_index id) in
      (
        record s {
          pool_table = update s.pool_table (id / 2 ^ 32) (some after);
          destructed = s.destructed ++ id ∷ [];
        },
        was_used,
      )
])

-- find_object: the index of the pool and of the object.
unfoldable pub find_object : ℕ → Pools → Option (ℕ × ℕ)
find_object id s =
    if id == invalid_object_id
    then none
    else (elim (find_pool id s) [ none ↦ none | some p ↦ some (id / 2 ^ 32, get_object_index id) ])

-- Pointer, by its _id.
pub record Pointer : Type 0 where
  pub id : ℕ

unfoldable pub release : Pointer → Pointer
release p = record { id = invalid_object_id }

unfoldable pub reset : Pointer → Pools → Pointer × Pools × Bool
unfolding free_object
reset p s = let (s', freed) = free_object p.id s in (record { id = invalid_object_id }, s', freed)

-- The move constructor: the new pointer and what is left of the other.
unfoldable pub move_construct : Pointer → Pointer × Pointer
move_construct other = (record { id = other.id }, record { id = invalid_object_id })

-- The move assignment of another pointer than `p` itself.
unfoldable pub move_assign : Pointer → Pointer → Pools → Pointer × Pointer × Pools
unfolding reset
move_assign p other s =
    let (empty, s', freed) = reset p s in (record { id = other.id }, record { id = empty.id }, s')
