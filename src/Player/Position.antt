-- ===== src/Player/Position.antt =====
-- game/player.h PlayerPosition: a union of a 64-bit word and the view of its fields. The value is
-- the word; a 16-bit coordinate is its bit pattern. `x & (2^k - 1)` is written `x % 2 ^ k`, and `|`
-- of fields that share no bit is written `+`.
pub mod Fields
use mmocraft.Prelude.{ℕ, ◌+◌, ◌-◌, ◌*◌, ◌/◌, ◌%◌, ◌^◌, ltb, if◌then◌else◌}

abbrev pub u16 : ℕ → ℕ
u16 v = v % 2 ^ 16

abbrev pub u8 : ℕ → ℕ
u8 v = v % 2 ^ 8

pub record View : Type 0 where
  pub x : ℕ
  pub y : ℕ
  pub z : ℕ
  pub yaw : ℕ
  pub pitch : ℕ

-- `PlayerPosition::view`, read from the word and written to it.
unfoldable pub view : ℕ → View
view raw = record {
  x = u16 raw;
  y = u16 (raw / 2 ^ 16);
  z = u16 (raw / 2 ^ 32);
  yaw = u8 (raw / 2 ^ 48);
  pitch = u8 (raw / 2 ^ 56);
}

unfoldable pub of_view : View → ℕ
of_view v = v.x + v.y * 2 ^ 16 + v.z * 2 ^ 32 + v.yaw * 2 ^ 48 + v.pitch * 2 ^ 56

unfoldable pub raw_coordinate : ℕ → ℕ
raw_coordinate raw = raw % 2 ^ 48

unfoldable pub raw_orientation : ℕ → ℕ
raw_orientation raw = raw / 2 ^ 48 % 2 ^ 16 * 2 ^ 48

unfoldable pub set_raw_coordinate : ℕ → ℕ → ℕ → ℕ → ℕ
unfolding raw_orientation
set_raw_coordinate raw x y z = u16 x + u16 y * 2 ^ 16 + u16 z * 2 ^ 32 + raw_orientation raw

unfoldable pub set_raw_orientation : ℕ → ℕ → ℕ → ℕ
unfolding raw_coordinate
set_raw_orientation raw yaw pitch = raw_coordinate raw + u8 yaw * 2 ^ 48 + u8 pitch * 2 ^ 56

-- `int16_t` and `uint8_t` subtraction, cut to the field's width.
abbrev pub sub16 : ℕ → ℕ → ℕ
sub16 a b = u16 (a + 2 ^ 16 - b)

abbrev pub sub8 : ℕ → ℕ → ℕ
sub8 a b = u8 (a + 2 ^ 8 - b)

-- operator-
unfoldable pub diff : ℕ → ℕ → ℕ
unfolding view of_view
diff l r = of_view (record {
  x = sub16 (view l).x (view r).x;
  y = sub16 (view l).y (view r).y;
  z = sub16 (view l).z (view r).z;
  yaw = sub8 (view l).yaw (view r).yaw;
  pitch = sub8 (view l).pitch (view r).pitch;
})

-- std::abs of an `int16_t`, taken after promotion to `int`.
unfoldable pub abs16 : ℕ → ℕ
abs16 v = if ltb v (2 ^ 15) then v else 2 ^ 16 - v
