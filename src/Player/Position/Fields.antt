-- ===== src/Player/Position/Fields.antt =====
-- The fields of a PlayerPosition.
use mmocraft.Prelude.{ℕ, ◌^◌, ◌<◌, ◌≡◌, ◌↔◌, arith}
use mmocraft.Player.Position.{
  u8, u16, View, view, of_view, raw_coordinate, raw_orientation, set_raw_coordinate,
  set_raw_orientation,
}

-- Each field lies in its range.
pub record InRange (v : View) : Type 0 where
  pub x_in : v.x < 2 ^ 16
  pub y_in : v.y < 2 ^ 16
  pub z_in : v.z < 2 ^ 16
  pub yaw_in : v.yaw < 2 ^ 8
  pub pitch_in : v.pitch < 2 ^ 8

pub view-InRange : (raw : ℕ) → InRange (view raw)
unfolding view
view-InRange raw = omega arith

pub view-of_view : (v : View) → InRange v → view (of_view v) ≡ v
unfolding view of_view
view-of_view v h = ground arith

pub of_view-lt : (v : View) → InRange v → of_view v < 2 ^ 64
unfolding of_view
of_view-lt v h = omega arith

pub of_view-view : (raw : ℕ) → raw < 2 ^ 64 → of_view (view raw) ≡ raw
unfolding view of_view
of_view-view raw h = omega arith

-- Setting the coordinate stores the low 16 bits of each number and keeps the orientation.
pub view-set_raw_coordinate :
    (raw x y z : ℕ)
    → raw < 2 ^ 64
    → view (set_raw_coordinate raw x y z)
      ≡ record { x = u16 x; y = u16 y; z = u16 z; yaw = (view raw).yaw; pitch = (view raw).pitch }
unfolding view set_raw_coordinate
view-set_raw_coordinate raw x y z h = ground arith

-- Setting the orientation stores the low 8 bits of each number and keeps the coordinate.
pub view-set_raw_orientation :
    (raw yaw pitch : ℕ)
    → view (set_raw_orientation raw yaw pitch) ≡ record {
      x = (view raw).x;
      y = (view raw).y;
      z = (view raw).z;
      yaw = u8 yaw;
      pitch = u8 pitch;
    }
unfolding view set_raw_orientation
view-set_raw_orientation raw yaw pitch = ground arith

-- A coordinate is 0 exactly if its three fields are.
pub raw_coordinate-zero :
    (v : View) → InRange v → (raw_coordinate (of_view v) ≡ 0) ↔ ((v.x ≡ 0) × (v.y ≡ 0) × (v.z ≡ 0))
unfolding of_view raw_coordinate
raw_coordinate-zero v h = (λ e. omega arith, λ e. omega arith)

pub raw_orientation-zero :
    (v : View) → InRange v → (raw_orientation (of_view v) ≡ 0) ↔ ((v.yaw ≡ 0) × (v.pitch ≡ 0))
unfolding of_view raw_orientation
raw_orientation-zero v h = (λ e. omega arith, λ e. omega arith)
