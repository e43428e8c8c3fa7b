-- ===== src/UdpMessage/Transfer.antt =====
-- A message on its way from one MessageRequest to another.
use mmocraft.Prelude.{
  ℕ, suc, ◌+◌, ◌-◌, ◌≤◌, min, ◌≡◌, refl, ap, ◌∙◌, true, false, some, [], ◌∷◌, arith, leb, ◌==◌,
  length, get_or, drop, length-take, length-drop, take-append,
}
use mmocraft.Packet.Field.{Bytes}
use mmocraft.Buffer.Memory.{Memory, write_at, length-write_at}
use mmocraft.UdpMessage.{
  Codec, IsLawful, MessageRequest, IsValid, capacity, message_capacity, message_id, datagram,
  read_message, set_message, parse_message, new_request, serialize_to_array, set_message_size,
  set_size, reset, set_message_id,
}

pub new_request-IsValid :
    (mem : Memory) (id : ℕ)
    → length mem ≡ capacity
    → IsValid (new_request mem id) × (message_id (new_request mem id) ≡ id)
unfolding new_request reset set_message_id message_id write_at
new_request-IsValid mem id h = (
  record { whole = omega (arith, length-drop 1 mem); some_bytes = omega arith; fits = omega arith },
  refl,
)

-- What set_message leaves in a request, if the message fits: the message behind the id.
pub record Carries {M : Type 0} (codec : Codec M) (r : MessageRequest) (id : ℕ) (msg : M)
    : Type 0 where
  pub valid : IsValid r
  pub sent : datagram r ≡ id ∷ codec.serialize msg

Carries-at :
    {M : Type 0} (codec : Codec M) (msg : M) (size : ℕ) (buf : Memory)
    → length buf ≡ capacity
    → length (codec.serialize msg) ≤ message_capacity
    → Carries codec (set_message codec msg (record { size = size; buf = buf })) (get_or buf 0 0) msg
unfolding set_message set_message_size serialize_to_array write_at
Carries-at codec msg size [] whole h = absurd (omega arith)
Carries-at codec msg size (b ∷ rest) whole h =
    let bytes : Bytes = codec.serialize msg in
    let fits : leb (length bytes) (length rest) ≡ true = ground arith in
    let sized : min (length bytes + 1) capacity ≡ suc (length bytes) = omega arith in
    let kept : length (write_at rest 0 bytes) ≡ length rest =
      length-write_at rest 0 bytes (omega arith) in
    rw (fits, sized)
      (record {
        valid = record { whole = omega arith; some_bytes = omega arith; fits = omega arith };
        sent = ap (◌∷◌ b) (take-append (length bytes) bytes (drop (0 + length bytes) rest) refl);
      })

pub set_message-Carries :
    {M : Type 0} (codec : Codec M) (msg : M) (r : MessageRequest)
    → IsValid r
    → length (codec.serialize msg) ≤ message_capacity
    → Carries codec (set_message codec msg r) (message_id r) msg
unfolding message_id
set_message-Carries codec msg r v h = Carries-at codec msg r.size r.buf v.whole h

-- A request that carries a message is read as it was made, whatever the reader's buffer held.
pub read_message-Carries :
    {M : Type 0} (codec : Codec M) (sent r : MessageRequest) (id : ℕ) (msg : M)
    → IsLawful codec
    → Carries codec sent id msg
    → IsValid r
    → let (r', done) = read_message (some (datagram sent)) r in
      (done ≡ true) × IsValid r' × (message_id r' ≡ id) × (parse_message codec r' ≡ some msg)
unfolding read_message set_size message_id parse_message write_at
read_message-Carries codec sent r id msg l c v =
    let bytes : Bytes = codec.serialize msg in
    let room : suc (length bytes) ≤ capacity =
      omega (arith, ap length (c.sent), length-take sent.size sent.buf, c.valid.whole) in
    let some_bytes : (suc (length bytes) == 0) ≡ false = ground arith in
    let sized : min (suc (length bytes)) capacity ≡ suc (length bytes) = omega arith in
    let kept = length-write_at r.buf 0 (id ∷ bytes) (omega arith) in
    let mine =
      take-append (suc (length bytes) - 1) bytes (drop (0 + suc (length bytes)) r.buf)
        (omega arith) in
    rw (c.sent, some_bytes, sized)
      (
        refl,
        record { whole = kept ∙ v.whole; some_bytes = omega arith; fits = omega arith },
        refl,
        ap codec.parse mine ∙ l.parse-serialize msg,
      )
