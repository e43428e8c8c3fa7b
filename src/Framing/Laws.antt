-- ===== src/Framing/Laws.antt =====
-- Connection::process_packets against the packets that the bytes are made of.
use mmocraft.Prelude.{
  ℕ, zero, suc, ◌+◌, ◌≤◌, ◌<◌, ◌≡◌, refl, inl, inr, true, false, [], ◌∷◌, arith, ltb, ◌==◌,
  Bool-cases, length, drop, length-drop,
}
use mmocraft.Code
use mmocraft.Packet.Field.{Bytes}
use mmocraft.Packet.Id
use mmocraft.Framing.{Handler, Outcome, process, process_packets}

-- The size of the packet at the front, 0 for an id that is not accepted and for no bytes.
abbrev pub front_size : Bytes → ℕ
front_size bytes = (Id.parse_packet bytes).1

pub invalid_id :
    (bytes : Bytes) → ((Id.parse_packet bytes).0 == Id.invalid) ≡ (front_size bytes == 0)
unfolding Id.parse_packet
invalid_id [] = refl
invalid_id (b ∷ bs) = ground arith

module _ {S : Type 0} (handle_packet : Handler S) where
  -- From `s` with `bytes` the handler accepts complete packets one after the other, and comes to
  -- `s'` with `rest` left.
  pub data Accepts : S → Bytes → S → Bytes → Type 0 where
    none_yet : {s : S} {bytes : Bytes} → Accepts s bytes s bytes
    packet :
        {s s' : S} {bytes rest : Bytes}
        → 0 < front_size bytes
        → front_size bytes ≤ length bytes
        → Code.is_packet_handle_success (handle_packet s bytes).1 ≡ true
        → Accepts (handle_packet s bytes).0 (drop (front_size bytes) bytes) s' rest
        → Accepts s bytes s' rest

  -- Why the loop ends in `o` at state `s` with `rest` left, if last_error_code was `error`: all is
  -- parsed, the id is not accepted, the packet is not complete, or the handler refuses it.
  pub data Ends (error : ℕ) (s : S) (rest : Bytes) (o : Outcome S) : Type 0 where
    all_parsed : length rest ≡ 0 → o.state ≡ s → o.last_error ≡ error → Ends error s rest o
    unknown :
        0 < length rest
        → front_size rest ≡ 0
        → o.state ≡ s
        → o.last_error ≡ Code.invalid_packet_id
        → Ends error s rest o
    incomplete :
        0 < length rest
        → length rest < front_size rest
        → o.state ≡ s
        → o.last_error ≡ Code.insuffient_packet_data
        → Ends error s rest o
    refused :
        0 < front_size rest
        → front_size rest ≤ length rest
        → Code.is_packet_handle_success (handle_packet s rest).1 ≡ false
        → o.state ≡ (handle_packet s rest).0
        → o.last_error ≡ (handle_packet s rest).1
        → Ends error s rest o

  pub record Processed (error : ℕ) (s : S) (bytes : Bytes) (parsed : ℕ) (o : Outcome S)
      : Type 0 where
    pub last : S
    pub rest : Bytes
    pub accepts : Accepts s bytes last rest
    pub ends : Ends error last rest o
    pub count : o.parsed + length rest ≡ parsed + length bytes

  process_lem :
      (fuel : ℕ) (s : S) (error parsed : ℕ) (bytes : Bytes)
      → length bytes < fuel
      → Processed error s bytes parsed (process handle_packet fuel s error parsed bytes)
  unfolding process
  process_lem zero s error parsed bytes h = absurd (omega arith)
  process_lem (suc fuel) s error parsed bytes h = elim (Bool-cases (length bytes == 0)) [
    | inl empty ↦ rw empty (record {
      last = s;
      rest = bytes;
      accepts = none_yet;
      ends = all_parsed (ground arith) refl refl;
      count = refl;
    })
    | inr some_left ↦ elim (Bool-cases (front_size bytes == 0)) [
      | inl bad ↦
          rw (some_left, invalid_id bytes, bad)
            (record {
              last = s;
              rest = bytes;
              accepts = none_yet;
              ends = unknown (ground arith) (ground arith) refl refl;
              count = refl;
            })
      | inr good ↦ elim (Bool-cases (ltb (length bytes) (front_size bytes))) [
        | inl short ↦
            rw (some_left, invalid_id bytes, good, short)
              (record {
                last = s;
                rest = bytes;
                accepts = none_yet;
                ends = incomplete (ground arith) (ground arith) refl refl;
                count = refl;
              })
        | inr whole ↦ elim (Bool-cases (Code.is_packet_handle_success (handle_packet s bytes).1)) [
          | inl handled ↦
              let n : ℕ = front_size bytes in
              let n_le : n ≤ length bytes = ground arith in
              let n_pos : 0 < n = ground arith in
              let r =
                process_lem fuel (handle_packet s bytes).0 error (parsed + n) (drop n bytes)
                  (omega (arith, length-drop n bytes)) in
              rw (some_left, invalid_id bytes, good, whole, handled)
                (record {
                  last = r.last;
                  rest = r.rest;
                  accepts = packet n_pos n_le handled r.accepts;
                  ends = r.ends;
                  count = omega (arith, r.count, length-drop n bytes);
                })
          | inr not_handled ↦
              rw (some_left, invalid_id bytes, good, whole, not_handled)
                (record {
                  last = s;
                  rest = bytes;
                  accepts = none_yet;
                  ends = refused (ground arith) (ground arith) not_handled refl refl;
                  count = refl;
                })
        ]
      ]
    ]
  ]

  -- process_packets hands the complete packets at the front of the bytes to the handler, in order,
  -- as long as it accepts them, and ends for one of four reasons with the error code that belongs
  -- to it; the number of bytes that it returns is the number of those in front of what is left.
  pub process_packets_lem :
      (s : S) (error : ℕ) (bytes : Bytes)
      → Processed error s bytes 0 (process_packets handle_packet s error bytes)
  unfolding process_packets
  process_packets_lem s error bytes = process_lem (suc (length bytes)) s error 0 bytes (omega arith)
