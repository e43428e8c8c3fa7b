-- ===== src/Prelude/Families.antt =====
-- Families indexed by numbers, changed at one index.
use Prim.Native.Nat.{ℕ}
use mathlib.Core.Path.{◌≡◌, refl}
use mathlib.Core.Logic.{◌≢◌, ite}
use native.Mathlib.Decide.{ℕ_discrete}
use native.Mathlib.Omega.{arith}

module _ {ℓ} {A : Type ℓ} where
  abbrev pub update : (ℕ → A) → ℕ → A → ℕ → A
  update f i a j = ite (ℕ_discrete i j) a (f j)

  pub update-same : (f : ℕ → A) (i : ℕ) (a : A) → update f i a i ≡ a
  update-same f i a = elim (ℕ_discrete i i) [ yes e ↦ ground arith | no n ↦ absurd (n refl) ]

  pub update-ne : (f : ℕ → A) (i j : ℕ) (a : A) → i ≢ j → update f i a j ≡ f j
  update-ne f i j a h = ground (arith, h)
