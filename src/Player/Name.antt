-- ===== src/Player/Name.antt =====
-- The name of a player is the first 16 characters of the name that the constructor was given.
use mmocraft.Prelude.{
  ℕ, zero, suc, ◌-◌, ◌≤◌, ◌<◌, min, ◌≡◌, refl, ap, ◌∙◌, ◌≢◌, List, [], ◌∷◌, ◌++◌, arith, length,
  set, take, drop, length-append, length-take, length-drop, length-set, take-min, All,
}
use mmocraft.Player.{PlayerType, string_copy, c_string, new_player, username}

c_string-terminated : (s t : List ℕ) → All (λ c. c ≢ 0) s → c_string (s ++ 0 ∷ t) ≡ s
unfolding c_string
c_string-terminated [] t h = refl
c_string-terminated (c ∷ s) t h = ground (arith, h.0, c_string-terminated s t h.1)

All-take : (n : ℕ) (s : List ℕ) → All (λ c. c ≢ 0) s → All (λ c. c ≢ 0) (take n s)
All-take zero s h = tt
All-take (suc n) [] h = tt
All-take (suc n) (c ∷ s) h = (h.0, All-take n s h.1)

-- A write at index `n` keeps the elements before it.
set-split : (xs : List ℕ) (n : ℕ) → n < length xs → set xs n 0 ≡ take n xs ++ 0 ∷ drop (suc n) xs
set-split [] n h = absurd (omega arith)
set-split (x ∷ xs) zero h = refl
set-split (x ∷ xs) (suc n) h = ap (◌∷◌ x) (set-split xs n (omega arith))

take-take-append :
    (m n : ℕ) (s t : List ℕ) → m ≤ n → m ≤ length s → take m (take n s ++ t) ≡ take m s
take-take-append zero n s t h k = refl
take-take-append (suc m) zero s t h k = absurd (omega arith)
take-take-append (suc m) (suc n) [] t h k = absurd (omega arith)
take-take-append (suc m) (suc n) (x ∷ s) t h k =
    ap (◌∷◌ x) (take-take-append m n s t (omega arith) (omega arith))

-- string_copy into an array of `size` characters leaves a C string: the first `size` - 1 characters
-- of the source, if that holds no NUL. The array keeps its length.
pub c_string-string_copy :
    (size : ℕ) (dst src : List ℕ)
    → 0 < size
    → length dst ≡ size
    → All (λ c. c ≢ 0) src
    → (c_string (string_copy size dst src) ≡ take (size - 1) src)
      × (length (string_copy size dst src) ≡ size)
unfolding string_copy
c_string-string_copy size dst src pos e h = (
  ap c_string (set-split buf k (omega (arith, size_buf)) ∙ ap (λ t. t ++ 0 ∷ drop (suc k) buf) kept)
      ∙ c_string-terminated (take (size - 1) src) (drop (suc k) buf) (All-take (size - 1) src h),
  length-set buf k 0 ∙ size_buf,
)
  where
    n : ℕ
    n = min size (length src)

    k : ℕ
    k = min (length src) (size - 1)

    buf : List ℕ
    buf = take n src ++ drop n dst

    size_buf : length buf ≡ size
    size_buf =
        omega (arith, length-append (take n src) (drop n dst), length-take n src, length-drop n dst)

    kept : take k buf ≡ take (size - 1) src
    kept =
        take-take-append k n src (drop n dst) (omega arith) (omega arith) ∙ take-min (size - 1) src

-- The name of a new player is the first 16 characters of the given name, whatever `_username` held.
pub username-new_player :
    (t : PlayerType) (buffer : List ℕ) (key : ℕ) (name : List ℕ)
    → length buffer ≡ 17
    → All (λ c. c ≢ 0) name
    → username (new_player t buffer key name) ≡ take 16 name
unfolding username new_player
username-new_player t buffer key name e h =
    (c_string-string_copy 17 buffer name (omega arith) e h).0
