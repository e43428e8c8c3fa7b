-- ===== src/Packet/Consume.antt =====
-- How far a parser reads: from enough bytes it returns, and leaves exactly those past its packet.
use mmocraft.Prelude.{
  ℕ, zero, suc, ◌+◌, ◌≤◌, ◌≡◌, refl, ap, ◌∙◌, some, [], ◌∷◌, arith, length, drop, length-drop,
  drop-drop,
}
use mmocraft.Packet.Id
use mmocraft.Packet.Field.{
  Bytes, Reader, ◌>>=◌, pure, skip_id, read_bytes, read_byte, read_scalar, read_string,
}
use mmocraft.Packet.Handshake
use mmocraft.Packet.SetBlock
use mmocraft.Packet.SetPlayerPosition
use mmocraft.Packet.Chat
use mmocraft.Packet.Extension

-- The reader succeeds on any buffer of at least `n` bytes, and moves the cursor by `n`.
abbrev pub Consumes : {A : Type 0} → ℕ → Reader A → Type 0
Consumes {A} n m = (bs : Bytes) → n ≤ length bs → (a : A) × (m bs ≡ some (a, drop n bs))

pub Consumes-bind :
    {A B : Type 0} (n k : ℕ) (m : Reader A) (f : A → Reader B)
    → Consumes n m
    → ((a : A) → Consumes k (f a))
    → Consumes (n + k) (m >>= f)
Consumes-bind n k m f first later bs h =
    let (a, e) = first bs (omega arith) in
    let (b, g) = later a (drop n bs) (omega (arith, length-drop n bs)) in
    (b, rw (e, ◌>>=◌) (g ∙ ap (λ r. some (b, r)) (drop-drop n k bs)))

pub Consumes-pure : {A : Type 0} (a : A) → Consumes 0 (pure a)
Consumes-pure a bs h = (a, refl)

pub Consumes-skip_id : Consumes 1 skip_id
unfolding skip_id
Consumes-skip_id [] h = absurd (omega arith)
Consumes-skip_id (b ∷ bs) h = (tt, refl)

pub Consumes-read_byte : Consumes 1 read_byte
unfolding read_byte
Consumes-read_byte [] h = absurd (omega arith)
Consumes-read_byte (b ∷ bs) h = (b, refl)

Consumes-read_bytes : (n : ℕ) → Consumes n (read_bytes n)
unfolding read_bytes
Consumes-read_bytes zero bs h = ([], refl)
Consumes-read_bytes (suc n) [] h = absurd (omega arith)
Consumes-read_bytes (suc n) (b ∷ bs) h =
    let (xs, e) = Consumes-read_bytes n bs (omega arith) in (b ∷ xs, rw e)

pub Consumes-read_scalar : (n : ℕ) → Consumes (n + 0) (read_scalar n)
unfolding read_scalar
Consumes-read_scalar n = Consumes-bind n 0 _ _ (Consumes-read_bytes n) (λ a. Consumes-pure _)

pub Consumes-read_string : Consumes 64 read_string
unfolding read_string
Consumes-read_string = Consumes-bind 64 0 _ _ (Consumes-read_bytes 64) (λ a. Consumes-pure _)

Consumes-handshake : Consumes 131 Handshake.parse
unfolding Handshake.parse
Consumes-handshake = Consumes-bind 1 130 _ _ Consumes-skip_id λ _.
    Consumes-bind 1 129 _ _ Consumes-read_byte λ _.
      Consumes-bind 64 65 _ _ Consumes-read_string λ _.
        Consumes-bind 64 1 _ _ Consumes-read_string
          λ _. Consumes-bind 1 0 _ _ Consumes-read_byte λ _. Consumes-pure _

Consumes-set_block : Consumes 9 SetBlock.parse
unfolding SetBlock.parse
Consumes-set_block = Consumes-bind 1 8 _ _ Consumes-skip_id λ _.
    Consumes-bind 2 6 _ _ (Consumes-read_scalar 2) λ _.
      Consumes-bind 2 4 _ _ (Consumes-read_scalar 2) λ _.
        Consumes-bind 2 2 _ _ (Consumes-read_scalar 2) λ _.
          Consumes-bind 1 1 _ _ Consumes-read_byte
            λ _. Consumes-bind 1 0 _ _ Consumes-read_byte λ _. Consumes-pure _

Consumes-set_player_position : Consumes 10 SetPlayerPosition.parse
unfolding SetPlayerPosition.parse
Consumes-set_player_position = Consumes-bind 1 9 _ _ Consumes-skip_id λ _.
    Consumes-bind 1 8 _ _ Consumes-read_byte λ _.
      Consumes-bind 2 6 _ _ (Consumes-read_scalar 2) λ _.
        Consumes-bind 2 4 _ _ (Consumes-read_scalar 2) λ _.
          Consumes-bind 2 2 _ _ (Consumes-read_scalar 2) λ _.
            Consumes-bind 1 1 _ _ Consumes-read_byte
              λ _. Consumes-bind 1 0 _ _ Consumes-read_byte λ _. Consumes-pure _

Consumes-chat : Consumes 66 Chat.parse
unfolding Chat.parse
Consumes-chat = Consumes-bind 1 65 _ _ Consumes-skip_id λ _.
    Consumes-bind 1 64 _ _ Consumes-read_byte
      λ _. Consumes-bind 64 0 _ _ Consumes-read_string λ _. Consumes-pure _

Consumes-ext_info : Consumes 67 Extension.parse_ext_info
unfolding Extension.parse_ext_info
Consumes-ext_info = Consumes-bind 1 66 _ _ Consumes-skip_id λ _.
    Consumes-bind 64 2 _ _ Consumes-read_string
      λ _. Consumes-bind 2 0 _ _ (Consumes-read_scalar 2) λ _. Consumes-pure _

Consumes-ext_entry : Consumes 69 Extension.parse_ext_entry
unfolding Extension.parse_ext_entry
Consumes-ext_entry = Consumes-bind 1 68 _ _ Consumes-skip_id λ _.
    Consumes-bind 64 4 _ _ Consumes-read_string
      λ _. Consumes-bind 4 0 _ _ (Consumes-read_scalar 4) λ _. Consumes-pure _

Consumes-ext_ping : Consumes 9 Extension.parse_ext_ping
unfolding Extension.parse_ext_ping
Consumes-ext_ping =
    Consumes-bind 1 8 _ _ Consumes-skip_id
      λ _. Consumes-bind 8 0 _ _ (Consumes-read_scalar 8) λ _. Consumes-pure _

-- Every parser, on a buffer that holds at least the size that the packet table gives for its id,
-- returns, reads no byte past that size and leaves the cursor exactly behind the packet.
pub parse-Consumes :
    Consumes (Id.protocol_db Id.handshake) Handshake.parse
    × Consumes (Id.protocol_db Id.set_block_client) SetBlock.parse
    × Consumes (Id.protocol_db Id.set_player_position) SetPlayerPosition.parse
    × Consumes (Id.protocol_db Id.chat_message) Chat.parse
    × Consumes (Id.protocol_db Id.ext_info) Extension.parse_ext_info
    × Consumes (Id.protocol_db Id.ext_entry) Extension.parse_ext_entry
    × Consumes (Id.protocol_db Id.ext_ping) Extension.parse_ext_ping
unfolding Id.protocol_db
parse-Consumes = (
  Consumes-handshake, Consumes-set_block, Consumes-set_player_position, Consumes-chat,
  Consumes-ext_info, Consumes-ext_entry, Consumes-ext_ping,
)
