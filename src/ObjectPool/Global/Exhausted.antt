-- ===== src/ObjectPool/Global/Exhausted.antt =====
-- More pools than ObjectGlobalPool (win/object_pool.h) has indices for.
use mmocraft.Prelude.{ℕ, ◌≡◌, refl, true, none, some, arith, ◌==◌, update-same}
use mmocraft.ObjectPool.{new_pool}
use mmocraft.ObjectPool.Global.{Pools, new_global_pool}

-- When no index is free, the constructor of a pool throws; but the counter of free indices wraps
-- around to 255, so the constructor of the next pool succeeds and takes the index 255, whose pool is
-- no longer found.
pub new_global_pool_wraps :
    (n m : ℕ) (s : Pools)
    → s.num_of_free_object_pool ≡ 0
    → ((new_global_pool n s).1 ≡ none)
      × ((new_global_pool m (new_global_pool n s).0).1 ≡ some 255)
      × ((new_global_pool m (new_global_pool n s).0).0.pool_table 255 ≡ some (new_pool m))
unfolding new_global_pool
new_global_pool_wraps n m s h =
    let none_free : (s.num_of_free_object_pool == 0) ≡ true = ground arith in
    let taken : Pools = record s { num_of_free_object_pool = 255 } in
    let first : new_global_pool n s ≡ (taken, none) = rw (new_global_pool, h) refl in
    rw (first) (refl, refl, update-same s.pool_table 255 (some (new_pool m)))
