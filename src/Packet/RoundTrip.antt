-- ===== src/Packet/RoundTrip.antt =====
-- What is written for a packet is read back as that packet, whatever follows it.
use mmocraft.Prelude.{
  ℕ, ◌%◌, ◌^◌, ◌≤◌, ◌<◌, ◌≡◌, refl, ap, ◌∙◌, some, ◌∷◌, ◌++◌, append_assoc, arith, length, take,
  take-length,
}
use mmocraft.Packet.Field.{
  Bytes, Reader, ◌>>=◌, skip_id, read_byte, read_string, read_scalar, write_byte, write_scalar,
  write_string,
}
use mmocraft.Packet.Field.Scalars.{scalar, read_scalar-scalar}
use mmocraft.Packet.Field.Strings.{EndsClean, padded, read_string-padded}
use mmocraft.Packet.Handshake
use mmocraft.Packet.Handshake.{PacketHandshake}
use mmocraft.Packet.SetBlock
use mmocraft.Packet.SetBlock.{PacketSetBlockClient}
use mmocraft.Packet.Chat
use mmocraft.Packet.Chat.{PacketChatMessage}
use mmocraft.Packet.Extension
use mmocraft.Packet.Extension.{CpeInfo}

-- A handshake whose strings fit the wire format.
pub record IsHandshake (p : PacketHandshake) : Type 0 where
  pub version_in : p.protocol_version < 256
  pub username_fits : length p.username ≤ 64
  pub username_clean : EndsClean p.username
  pub password_fits : length p.password ≤ 64
  pub password_clean : EndsClean p.password
  pub magic_in : p.cpe_magic < 256

pub record IsSetBlock (p : PacketSetBlockClient) : Type 0 where
  pub x_in : p.x < 2 ^ 16
  pub y_in : p.y < 2 ^ 16
  pub z_in : p.z < 2 ^ 16
  pub mode_in : p.mode < 256
  pub block_id_in : p.block_id < 256

-- One step of a parser whose first reader succeeds.
reads :
    {A B : Type 0} {bs rest last : Bytes} {a : A} {b : B} (m : Reader A) (f : A → Reader B)
    → m bs ≡ some (a, rest)
    → f a rest ≡ some (b, last)
    → (m >>= f) bs ≡ some (b, last)
reads m f e g = rw (e, ◌>>=◌) g

read_string-fits :
    (s rest : Bytes) → length s ≤ 64 → EndsClean s → read_string (padded s ++ rest) ≡ some (s, rest)
read_string-fits s rest h c =
    let e : take 64 s ≡ s = take-length 64 s h in
    read_string-padded s rest (rw e c) ∙ ap (λ w. some (w, rest)) e

read_byte_lem : (v : ℕ) (rest : Bytes) → v < 256 → read_byte ((v % 256) ∷ rest) ≡ some (v, rest)
unfolding read_byte
read_byte_lem v rest h = let e : v % 256 ≡ v = omega arith in ap (λ w. some (w, rest)) e

skip_id_lem : (v : ℕ) (rest : Bytes) → skip_id (v ∷ rest) ≡ some (tt, rest)
unfolding skip_id
skip_id_lem v rest = refl

handshake_layout :
    (p : PacketHandshake) (rest : Bytes)
    → Handshake.write p ++ rest
      ≡ 0
        ∷ (p.protocol_version % 256)
        ∷ (padded p.username ++ (padded p.password ++ (p.cpe_magic % 256) ∷ rest))
unfolding Handshake.write write_byte write_string
handshake_layout p rest = simp append_assoc

-- Handshake.parse reads back every field of a handshake that Handshake.write wrote, if its numbers
-- are bytes and its strings have at most 64 bytes and no space at their end.
pub handshake-parse-write :
    (p : PacketHandshake) (rest : Bytes)
    → IsHandshake p
    → Handshake.parse (Handshake.write p ++ rest) ≡ some (p, rest)
unfolding Handshake.parse
handshake-parse-write p rest h =
    ap Handshake.parse (handshake_layout p rest)
    ∙ reads skip_id _ (skip_id_lem 0 _) (
        reads read_byte _ (read_byte_lem p.protocol_version _ h.version_in) (
          reads read_string _ (read_string-fits p.username _ h.username_fits h.username_clean) (
            reads read_string _ (read_string-fits p.password _ h.password_fits h.password_clean)
              (reads read_byte _ (read_byte_lem p.cpe_magic rest h.magic_in) refl))))

set_block_layout :
    (p : PacketSetBlockClient) (rest : Bytes)
    → SetBlock.write p ++ rest
      ≡ 5
        ∷ (scalar 2 p.x
            ++ (scalar 2 p.y ++ (scalar 2 p.z ++ (p.mode % 256) ∷ (p.block_id % 256) ∷ rest)))
unfolding SetBlock.write write_byte write_scalar
set_block_layout p rest = simp append_assoc

-- SetBlock.parse reads back every field of a block change that SetBlock.write wrote, if its
-- coordinates fit 16 bits and its mode and block are bytes.
pub set_block-parse-write :
    (p : PacketSetBlockClient) (rest : Bytes)
    → IsSetBlock p
    → SetBlock.parse (SetBlock.write p ++ rest) ≡ some (p, rest)
unfolding SetBlock.parse
set_block-parse-write p rest h =
    ap SetBlock.parse (set_block_layout p rest)
    ∙ reads skip_id _ (skip_id_lem 5 _) (
        reads (read_scalar 2) _ (read_scalar-scalar 2 p.x _ h.x_in) (
          reads (read_scalar 2) _ (read_scalar-scalar 2 p.y _ h.y_in) (
            reads (read_scalar 2) _ (read_scalar-scalar 2 p.z _ h.z_in) (
              reads read_byte _ (read_byte_lem p.mode _ h.mode_in)
                (reads read_byte _ (read_byte_lem p.block_id rest h.block_id_in) refl)))))

chat_layout :
    (p : PacketChatMessage) (rest : Bytes)
    → Chat.write p ++ rest ≡ 13 ∷ (p.player_id % 256) ∷ (padded p.message ++ rest)
unfolding Chat.write write_byte write_string
chat_layout p rest = simp append_assoc

-- Chat.parse reads back what Chat.write wrote: the sender, if it is a byte, and of the message the
-- first 64 bytes, if these do not end in a space.
pub chat-parse-write :
    (p : PacketChatMessage) (rest : Bytes)
    → p.player_id < 256
    → EndsClean (take 64 p.message)
    → Chat.parse (Chat.write p ++ rest)
      ≡ some (record { player_id = p.player_id; message = take 64 p.message }, rest)
unfolding Chat.parse
chat-parse-write p rest h c =
    ap Chat.parse (chat_layout p rest)
    ∙ reads skip_id _ (skip_id_lem 13 _) (
        reads read_byte _ (read_byte_lem p.player_id _ h)
          (reads read_string _ (read_string-padded p.message rest c) refl))

-- An extension's entry, written for any name and version of 32 bits, is read back as that name, cut
-- to 64 bytes, and that version; so is the time of a ping of 64 bits.
pub ext-parse-write :
    (name : Bytes) (info : CpeInfo) (time : ℕ) (rest : Bytes)
    → EndsClean (take 64 name)
    → info.version < 2 ^ 32
    → time < 2 ^ 64
    → (Extension.parse_ext_entry (Extension.write_ext_entry name info ++ rest)
        ≡ some (record { extenstion_name = take 64 name; version = info.version }, rest))
      × (Extension.parse_ext_ping (Extension.write_ext_ping time ++ rest) ≡ some (time, rest))
unfolding Extension.parse_ext_entry Extension.parse_ext_ping
ext-parse-write name info time rest c v t = (
  ap Extension.parse_ext_entry entry_layout
      ∙ reads skip_id _ (skip_id_lem 17 _) (
          reads read_string _ (read_string-padded name _ c)
            (reads (read_scalar 4) _ (read_scalar-scalar 4 info.version rest v) refl)),
  ap Extension.parse_ext_ping ping_layout
      ∙ reads skip_id _ (skip_id_lem 57 _)
          (reads (read_scalar 8) _ (read_scalar-scalar 8 time rest t) refl),
)
  where
    entry_layout :
        Extension.write_ext_entry name info ++ rest
        ≡ 17 ∷ (padded name ++ (scalar 4 info.version ++ rest))
    entry_layout =
        unfold Extension.write_ext_entry write_byte write_string write_scalar in simp append_assoc

    ping_layout : Extension.write_ext_ping time ++ rest ≡ 57 ∷ (scalar 8 time ++ rest)
    ping_layout = unfold Extension.write_ext_ping write_byte write_scalar in refl
