-- ===== src/Framing/Errors.antt =====
-- What ends Connection::process_packets for good: an id that is not accepted, or a packet that the
-- handler refuses.
use mmocraft.Prelude.{
  ℕ, suc, ◌+◌, ◌≤◌, ◌<◌, ◌≡◌, refl, ◌∙◌, true, false, [], ◌∷◌, ◌++◌, arith, ltb, ◌==◌, length,
  length-append,
}
use mmocraft.Code
use mmocraft.Packet.Field.{Bytes}
use mmocraft.Packet.Id
use mmocraft.Framing.{Handler, Outcome, process, process_packets}
use mmocraft.Framing.Laws.{
  front_size, invalid_id, Ends, all_parsed, unknown, incomplete, refused, process_packets_lem,
}
use mmocraft.Framing.Segments.{IsLocal, Accepts-append, process-Accepts, front_size-append}

front_size-append_ne : (bs ext : Bytes) → 0 < length bs → front_size (bs ++ ext) ≡ front_size bs
unfolding Id.parse_packet
front_size-append_ne [] ext h = absurd (omega arith)
front_size-append_ne (b ∷ bs) ext h = refl

module _ {S : Type 0} (handle_packet : Handler S) where
  stop_unknown :
      (fuel : ℕ) (s : S) (error parsed : ℕ) (bytes : Bytes)
      → 0 < length bytes
      → front_size bytes ≡ 0
      → process handle_packet (suc fuel) s error parsed bytes
        ≡ record { state = s; last_error = Code.invalid_packet_id; parsed = parsed }
  unfolding process
  stop_unknown fuel s error parsed bytes more bad =
      let more' : (length bytes == 0) ≡ false = ground arith in
      let bad' : (front_size bytes == 0) ≡ true = ground arith in
      rw (more', invalid_id bytes, bad') refl

  stop_refused :
      (fuel : ℕ) (s : S) (error parsed : ℕ) (bytes : Bytes)
      → 0 < front_size bytes
      → front_size bytes ≤ length bytes
      → Code.is_packet_handle_success (handle_packet s bytes).1 ≡ false
      → process handle_packet (suc fuel) s error parsed bytes ≡ record {
        state = (handle_packet s bytes).0;
        last_error = (handle_packet s bytes).1;
        parsed = parsed;
      }
  unfolding process
  stop_refused fuel s error parsed bytes pos le bad =
      let more : (length bytes == 0) ≡ false = ground arith in
      let good : (front_size bytes == 0) ≡ false = ground arith in
      let whole : ltb (length bytes) (front_size bytes) ≡ false = ground arith in
      rw (more, invalid_id bytes, good, whole, bad) refl

  -- How the loop ends over more bytes, once it has ended with an error.
  Ends-same :
      (s : S) (error : ℕ) (rest ext : Bytes) (o : Outcome S)
      → IsLocal handle_packet
      → Ends handle_packet error s rest o
      → Code.is_packet_handle_success error ≡ true
      → Code.is_packet_handle_success o.last_error ≡ false
      → process handle_packet (suc (length (rest ++ ext))) s error o.parsed (rest ++ ext) ≡ o
  unfolding Code.is_packet_handle_success
  Ends-same s error rest ext o l (all_parsed empty e f) was bad = absurd (ground arith)
  Ends-same s error rest ext o l (incomplete more short e f) was bad = absurd (ground arith)
  Ends-same s error rest ext o l (unknown more zero_size e f) was bad =
      let size : length (rest ++ ext) ≡ length rest + length ext = length-append rest ext in
      stop_unknown (length (rest ++ ext)) s error o.parsed (rest ++ ext) (omega arith)
        (front_size-append_ne rest ext more ∙ zero_size)
      ∙ ground arith
  Ends-same s error rest ext o l (refused pos le no_good e f) was bad =
      let size : length (rest ++ ext) ≡ length rest + length ext = length-append rest ext in
      let same : front_size (rest ++ ext) ≡ front_size rest = front_size-append rest ext pos in
      let handled : handle_packet s (rest ++ ext) ≡ handle_packet s rest = l s rest ext pos le in
      stop_refused (length (rest ++ ext)) s error o.parsed (rest ++ ext) (omega arith) (omega arith)
        (rw handled no_good)
      ∙ ground (arith, handled)

  -- For a handler that reads only its packet: if bytes lead to an error, then more bytes behind them
  -- change nothing, neither the state nor the error code nor the number of parsed bytes.
  pub process_packets-append_error :
      (s : S) (error : ℕ) (bytes ext : Bytes)
      → IsLocal handle_packet
      → Code.is_packet_handle_success error ≡ true
      → Code.is_packet_handle_success (process_packets handle_packet s error bytes).last_error
        ≡ false
      → process_packets handle_packet s error (bytes ++ ext)
        ≡ process_packets handle_packet s error bytes
  process_packets-append_error s error bytes ext l was bad =
      let o : Outcome S = process_packets handle_packet s error bytes in
      let r = process_packets_lem handle_packet s error bytes in
      let skip : process_packets handle_packet s error (bytes ++ ext)
          ≡ process handle_packet (suc (length (r.rest ++ ext))) r.last error o.parsed
              (r.rest ++ ext) =
        unfold process_packets in
        process-Accepts handle_packet (Accepts-append handle_packet ext l r.accepts)
          (suc (length (bytes ++ ext))) (suc (length (r.rest ++ ext))) error 0 o.parsed
          (omega arith) (omega arith)
          (omega (arith, r.count, length-append bytes ext, length-append r.rest ext)) in
      skip ∙ Ends-same r.last error r.rest ext o l r.ends was bad
