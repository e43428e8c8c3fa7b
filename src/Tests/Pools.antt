-- ===== src/Tests/Pools.antt =====
-- The pools of objects at concrete values.
use mmocraft.Prelude.{
  ℕ, ◌<◌, ◌≡◌, refl, ◌⊎◌, true, false, none, some, [], arith, update, update-same,
}
use mmocraft.ObjectPool.{new_pool, is_free}
use mmocraft.ObjectPool.Start
use mmocraft.ObjectPool.Global.{Pools, invalid_object_id, new_object_unsafe, new_global_pool}
use mmocraft.ObjectPool.Global.Ownership
use mmocraft.ObjectPool.Global.Ownership.{Lent}
use mmocraft.ObjectPool.Global.Exhausted

-- The pool 255 alone, with no index left.
abbrev pools : Pools
pools = record {
  pool_table = update (λ i. none) 255 (some (new_pool 2));
  num_of_free_object_pool = 0;
  destructed = [];
}

new_object_unsafe-Lent_example :
    (((new_object_unsafe (λ n. true) 255 pools).1 ≡ invalid_object_id)
      × ((j : ℕ) → j < (new_pool 2).capacity → is_free (new_pool 2) j ≡ false))
    ⊎ Lent 255
        (new_pool 2)
        pools
        (new_object_unsafe (λ n. true) 255 pools).0
        (new_object_unsafe (λ n. true) 255 pools).1
new_object_unsafe-Lent_example =
    Ownership.new_object_unsafe-Lent (λ n. true) 255 pools (new_pool 2) (omega arith)
      (update-same (λ i. none) 255 (some (new_pool 2)))
      (Start.new_pool-IsValid 2 0 (omega arith) (omega arith)).0

new_global_pool_wraps_example :
    ((new_global_pool 4 pools).1 ≡ none)
    × ((new_global_pool 5 (new_global_pool 4 pools).0).1 ≡ some 255)
    × ((new_global_pool 5 (new_global_pool 4 pools).0).0.pool_table 255 ≡ some (new_pool 5))
new_global_pool_wraps_example = Exhausted.new_global_pool_wraps 4 5 pools refl
