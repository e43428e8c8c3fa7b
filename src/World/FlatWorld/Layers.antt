-- ===== src/World/FlatWorld/Layers.antt =====
-- The layers of a flat world.
use mmocraft.Prelude.{
  ℕ, zero, suc, ◌+◌, ◌-◌, ◌*◌, ◌/◌, ◌≤◌, ◌≡◌, refl, sym, ap, ◌∙◌, ◌++◌, arith, length, drop,
  replicate, length-replicate, take-append, drop-append, drop-drop,
}
use mmocraft.Buffer.Memory.{Memory, write_at}
use mmocraft.Framing.Segments.{drop-append_le}
use mmocraft.World.FlatWorld.{air, grass, dirt, bedrock, memset, generate_flat_world}
use native.Mathlib.Nat.{mul-le-mul_left}

drop-replicate : (k m v : ℕ) → k ≤ m → drop k (replicate m v) ≡ replicate (m - k) v
drop-replicate zero m v h = let e : m - 0 ≡ m = omega arith in rw (e) refl
drop-replicate (suc k) zero v h = absurd (omega arith)
drop-replicate (suc k) (suc m) v h =
    let e : suc m - suc k ≡ m - k = omega arith in rw (e) (drop-replicate k m v (omega arith))

-- Writing one value over the front of a list.
memset_front : (mem : Memory) (v n : ℕ) → memset mem 0 v n ≡ replicate n v ++ drop n mem
unfolding memset write_at
memset_front mem v n =
    let e : 0 + length (replicate n v) ≡ n = omega (arith, length-replicate {A = ℕ} n v) in
    rw (e) refl

-- Writing behind a front of `n` bytes.
memset_behind :
    (front rest : Memory) (v n m : ℕ)
    → length front ≡ n
    → memset (front ++ rest) n v m ≡ front ++ (replicate m v ++ drop m rest)
unfolding memset write_at
memset_behind front rest v n m h =
    let e : n + length (replicate m v) ≡ n + m = omega (arith, length-replicate {A = ℕ} m v) in
    rw
      (
        e,
        take-append n front rest h,
        sym (drop-drop n m (front ++ rest)),
        drop-append n front rest h,
      )
      refl

layers_lem :
    (p n total : ℕ)
    → p ≤ n
    → n + p ≤ total
    → memset (memset (memset (replicate total air) 0 dirt n) n grass p) 0 bedrock p
      ≡ replicate p bedrock
        ++ (replicate (n - p) dirt ++ (replicate p grass ++ replicate (total - n - p) air))
layers_lem p n total h k =
    let first : memset (replicate total air) 0 dirt n
        ≡ replicate n dirt ++ replicate (total - n) air =
      memset_front (replicate total air) dirt n
      ∙ ap (λ t. replicate n dirt ++ t) (drop-replicate n total air (omega arith)) in
    let second : memset (replicate n dirt ++ replicate (total - n) air) n grass p
        ≡ replicate n dirt ++ (replicate p grass ++ replicate (total - n - p) air) =
      memset_behind (replicate n dirt) (replicate (total - n) air) grass n p
        (length-replicate {A = ℕ} n dirt)
      ∙ ap (λ t. replicate n dirt ++ (replicate p grass ++ t))
          (drop-replicate p (total - n) air (omega arith)) in
    let upper : Memory = replicate p grass ++ replicate (total - n - p) air in
    let third : memset (replicate n dirt ++ upper) 0 bedrock p
        ≡ replicate p bedrock ++ (replicate (n - p) dirt ++ upper) =
      memset_front (replicate n dirt ++ upper) bedrock p
      ∙ ap (λ t. replicate p bedrock ++ t)
          (drop-append_le p (replicate n dirt) upper
              (omega (arith, length-replicate {A = ℕ} n dirt))
            ∙ ap (λ t. t ++ upper) (drop-replicate p n dirt h)) in
    rw (first, second) third

-- A flat world of at least two layers has, from its first byte on, a layer of bedrock, dirt up to
-- the middle of its height, a layer of grass, and air.
pub generate_flat_world-layers :
    (x y z : ℕ)
    → 2 ≤ y
    → let p = x * z in
      generate_flat_world x y z
      ≡ replicate p bedrock
        ++ (replicate (p * (y / 2) - p) dirt
            ++ (replicate p grass ++ replicate (p * y - p * (y / 2) - p) air))
unfolding generate_flat_world
generate_flat_world-layers x y z h =
    layers_lem (x * z) (x * z * (y / 2)) (x * z * y)
      (let one : 1 ≤ y / 2 = omega arith in
        omega (arith, mul-le-mul_left {m = 1} {n = y / 2} (x * z) one))
      (let more : y / 2 + 1 ≤ y = omega arith in
        omega (arith, mul-le-mul_left {m = y / 2 + 1} {n = y} (x * z) more))
