-- ===== src/ConnectionKey.antt =====
-- net/connection_key.h: a 64-bit key, the index of a slot below and the tick of its creation above.
use mmocraft.Prelude.{ℕ, ◌+◌, ◌*◌, ◌/◌, ◌%◌, ◌^◌, ◌<◌, ◌≡◌, ◌↔◌, arith}

-- `index | (created_at << 32)` of a 32-bit index and a 64-bit tick, in 64 bits.
unfoldable pub make : ℕ → ℕ → ℕ
make index created_at = index % 2 ^ 32 + created_at % 2 ^ 32 * 2 ^ 32

unfoldable pub index : ℕ → ℕ
index key = key % 2 ^ 32

unfoldable pub created_at : ℕ → ℕ
created_at key = key / 2 ^ 32 % 2 ^ 32

-- A key gives back the index and the low 32 bits of the tick that it was made from, and two keys of
-- one index are equal only if their ticks agree in these bits.
pub make_fields :
    (i t t' : ℕ)
    → i < 2 ^ 32
    → (index (make i t) ≡ i)
      × (created_at (make i t) ≡ t % 2 ^ 32)
      × (make i t < 2 ^ 64)
      × ((make i t ≡ make i t') ↔ (t % 2 ^ 32 ≡ t' % 2 ^ 32))
unfolding make index created_at
make_fields i t t' h = (omega arith, omega arith, omega arith, (λ e. omega arith, λ e. omega arith))
