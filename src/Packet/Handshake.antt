-- ===== src/Packet/Handshake.antt =====
-- net/packet.h and net/packet.cpp PacketHandshake: the login request of a client, and the server's
-- answer. `write` gives the bytes that serialize pushes to the event data.
use mmocraft.Prelude.{
  ℕ, ◌%◌, Bool, true, not, ◌&&◌, ◌||◌, [], ◌∷◌, ltb, leb, ◌==◌, if◌then◌else◌, length,
}
use mmocraft.Code
use mmocraft.Packet.Id
use mmocraft.Packet.Field.{
  Bytes, Reader, ◌>>=◌, ◌>>◌, pure, skip_id, read_byte, read_string, write_byte, write_string,
}

-- The fields of the unions are named as a client's packet has them; in the server's answer
-- `username` is server_name, `password` is motd and `cpe_magic` is user_type.
pub record PacketHandshake : Type 0 where
  pub protocol_version : ℕ
  pub username : Bytes
  pub password : Bytes
  pub cpe_magic : ℕ

unfoldable pub parse : Reader PacketHandshake
parse = do
  skip_id
  protocol_version ← read_byte
  username ← read_string
  password ← read_string
  cpe_magic ← read_byte
  pure (record {
    protocol_version = protocol_version;
    username = username;
    password = password;
    cpe_magic = cpe_magic;
  })

unfoldable pub write : PacketHandshake → Bytes
write p =
    let buf = write_byte [] Id.handshake in
    let buf = write_byte buf p.protocol_version in
    let buf = write_string buf p.username in
    let buf = write_string buf p.password in write_byte buf p.cpe_magic

-- The constructor for the server's answer.
unfoldable pub response : Bytes → Bytes → ℕ → PacketHandshake
response server_name motd user_type = record {
  protocol_version = 7;
  username = server_name;
  password = motd;
  cpe_magic = user_type % 256;
}

unfoldable pub has_cpe_support : PacketHandshake → Bool
has_cpe_support p = p.cpe_magic == 0x42

-- std::isalnum of the "C" locale, on an unsigned char.
unfoldable pub is_alphanumeric_char : ℕ → Bool
is_alphanumeric_char c =
    (leb b'0' c && leb c b'9') || (leb b'A' c && leb c b'Z') || (leb b'a' c && leb c b'z')

-- util::is_alphanumeric
unfoldable pub is_alphanumeric : Bytes → Bool
unfolding is_alphanumeric_char
is_alphanumeric [] = true
is_alphanumeric (c ∷ cs) = is_alphanumeric_char c && is_alphanumeric cs

abbrev pub max_username_length : ℕ
max_username_length = 16

abbrev pub max_password_length : ℕ
max_password_length = 32

unfoldable pub validate : PacketHandshake → ℕ
validate p =
    if not (p.protocol_version == 7)
    then Code.invalid_protocol_version
    else if length p.username == 0 || ltb max_username_length (length p.username)
    then Code.improper_username_length
    else if not (is_alphanumeric p.username)
    then Code.improper_username_format
    else if ltb max_password_length (length p.password)
    then Code.improper_password_length
    else Code.success
