-- ===== src/ChatCommand/Tokens.antt =====
-- The tokens of a command, against its words.
use mmocraft.Prelude.{
  ℕ, suc, ◌≡◌, refl, sym, ap, ◌∙◌, inl, inr, Bool, true, false, List, [], ◌∷◌, ◌++◌, map,
  append_assoc, arith, ◌==◌, if◌then◌else◌, Bool-cases, length, drop, length-append, drop-append,
}
use mmocraft.Packet.Field.{Bytes}
use mmocraft.Player.{c_string}
use mmocraft.Buffer.Memory.{Memory}
use mmocraft.ChatCommand.{is_whitespace, parse_from, parse_tokens}

-- The characters up to the next whitespace.
abbrev pub first_word : List ℕ → List ℕ
first_word [] = []
first_word (ch ∷ later) = if is_whitespace ch then [] else ch ∷ first_word later

-- The words of a text; `true` is a word that may begin here.
abbrev pub words_from : Bool → List ℕ → List Bytes
words_from begins [] = []
words_from begins (ch ∷ later) =
    let rest = words_from (is_whitespace ch) later in
    if is_whitespace ch then rest else if begins then (ch ∷ first_word later) ∷ rest else rest

abbrev pub words : List ℕ → List Bytes
words = words_from true

c_string-marked :
    (b : Bool) (i : ℕ) (cs : List ℕ) → c_string (parse_from b i cs).0 ≡ c_string (first_word cs)
unfolding parse_from c_string
c_string-marked b i [] = refl
c_string-marked b i (ch ∷ later) = elim (Bool-cases (is_whitespace ch)) [
  | inl space ↦ simp (space) refl
  | inr letter ↦
      simp (letter) (ap (λ t. if ch == 0 then [] else ch ∷ t) (c_string-marked false (suc i) later))
]

c_string-letter :
    (ch i : ℕ) (later : List ℕ)
    → c_string (ch ∷ (parse_from false (suc i) later).0) ≡ c_string (ch ∷ first_word later)
unfolding c_string
c_string-letter ch i later =
    ap (λ t. if ch == 0 then [] else ch ∷ t) (c_string-marked false (suc i) later)

-- The strings that begin at the positions, in a buffer.
abbrev strings : List ℕ → List ℕ → List Bytes
strings buf positions = map (λ j. c_string (drop j buf)) positions

snoc : (pre : List ℕ) (ch : ℕ) (m : List ℕ) → (pre ++ (ch ∷ [])) ++ m ≡ pre ++ (ch ∷ m)
snoc pre ch m = append_assoc pre (ch ∷ []) m

parse_from-words :
    (b : Bool) (i : ℕ) (pre cs : List ℕ)
    → length pre ≡ i
    → strings (pre ++ (parse_from b i cs).0) (parse_from b i cs).1 ≡ map c_string (words_from b cs)
unfolding parse_from
parse_from-words b i pre [] h = refl
parse_from-words b i pre (ch ∷ later) h =
    let size : length (pre ++ (ch ∷ [])) ≡ suc i = omega (arith, length-append pre (ch ∷ []), h) in
    let size0 : length (pre ++ (0 ∷ [])) ≡ suc i = omega (arith, length-append pre (0 ∷ []), h) in
    elim (Bool-cases (is_whitespace ch)) [
      | inl space ↦
          let r = parse_from true (suc i) later in
          let rest = parse_from-words true (suc i) (pre ++ (0 ∷ [])) later size0 in
          simp (space) (ap (λ t. strings t r.1) (sym (snoc pre 0 r.0)) ∙ rest)
      | inr letter ↦
          let r = parse_from false (suc i) later in
          let rest =
            ap (λ t. strings t r.1) (sym (snoc pre ch r.0))
            ∙ parse_from-words false (suc i) (pre ++ (ch ∷ [])) later size in
          let head : c_string (drop i (pre ++ (ch ∷ r.0))) ≡ c_string (ch ∷ first_word later) =
            ap c_string (drop-append i pre (ch ∷ r.0) h) ∙ c_string-letter ch i later in
          simp (letter) (elim (Bool-cases b) [
            | inl begins ↦ rw (begins) (rw (head, rest) refl)
            | inr inside ↦ rw (inside) rest
          ])
    ]

-- The tokens of a command are its words between whitespace, in order, each up to its first NUL; the
-- NULs behind a command are no whitespace, so they make a word of their own behind a space.
pub parse_tokens-words :
    (command : Memory) → (parse_tokens command).1 ≡ map c_string (words command)
unfolding parse_tokens
parse_tokens-words command = parse_from-words true 0 [] command refl
