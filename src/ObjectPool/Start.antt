-- ===== src/ObjectPool/Start.antt =====
-- The ObjectPool that the constructor makes.
use mmocraft.Prelude.{
  ℕ, zero, suc, ◌+◌, ◌/◌, ◌%◌, ◌^◌, ◌≤◌, ◌<◌, ◌≡◌, refl, ap, ◌∙◌, Bool, true, false, List, [],
  arith, length, get_or, replicate, length-replicate, All,
}
use mmocraft.ObjectPool.{new_pool, is_free, size_type_bit_size}
use mmocraft.ObjectPool.Slots.{IsValid}

module _ {A : Type 0} where
  get_or-replicate : (n k : ℕ) (a d : A) → k < n → get_or (replicate n a) k d ≡ a
  get_or-replicate zero k a d h = absurd (omega arith)
  get_or-replicate (suc n) zero a d h = refl
  get_or-replicate (suc n) (suc k) a d h = get_or-replicate n k a d (omega arith)

  All-replicate : (P : A → Type 0) (n : ℕ) (a : A) → P a → All P (replicate n a)
  All-replicate P zero a h = tt
  All-replicate P (suc n) a h = (h, All-replicate P n a h)

all_free : (max_capacity j : ℕ) → j ≤ max_capacity → is_free (new_pool max_capacity) j ≡ true
unfolding new_pool
all_free max_capacity j h =
    let full : List Bool = replicate size_type_bit_size true in
    ap (λ w. get_or w (j % 64) false)
      (get_or-replicate (1 + max_capacity / 64) (j / 64) full [] (omega arith))
    ∙ get_or-replicate 64 (j % 64) true false (omega arith)

-- A new pool for few enough objects to have 32-bit indices is valid, and all of its slots are free.
pub new_pool-IsValid :
    (max_capacity j : ℕ)
    → max_capacity + 64 < 2 ^ 32
    → j ≤ max_capacity
    → IsValid (new_pool max_capacity) × (is_free (new_pool max_capacity) j ≡ true)
unfolding new_pool
new_pool-IsValid max_capacity j h k = (
  record {
    within = omega arith;
    words = length-replicate (1 + max_capacity / 64) (replicate size_type_bit_size true);
    bits = All-replicate (λ w. length w ≡ 64) (1 + max_capacity / 64) (replicate 64 true) refl;
    small = h;
    beyond = λ j l m. all_free max_capacity j m;
  },
  all_free max_capacity j k,
)
