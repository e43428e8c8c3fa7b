-- ===== src/Framing/Segments.antt =====
-- A stream may reach Connection::process_packets in any segments: TCP keeps no packet boundaries.
use mmocraft.Prelude.{
  ℕ, zero, suc, ◌+◌, ◌≤◌, ◌<◌, ◌≡◌, refl, ap, ◌∙◌, inl, inr, true, false, [], ◌∷◌, ◌++◌, arith, ltb,
  ◌==◌, Bool-cases, length, drop, length-append, length-drop, drop-drop,
}
use mmocraft.Code
use mmocraft.Packet.Field.{Bytes}
use mmocraft.Packet.Id
use mmocraft.Framing.{Handler, Outcome, process, process_packets}
use mmocraft.Framing.Laws.{
  front_size, invalid_id, Accepts, none_yet, packet, Ends, all_parsed, unknown, incomplete, refused,
  process_packets_lem,
}

pub front_size-append :
    (bs ext : Bytes) → 0 < front_size bs → front_size (bs ++ ext) ≡ front_size bs
unfolding Id.parse_packet
front_size-append [] ext h = absurd (omega arith)
front_size-append (b ∷ bs) ext h = refl

pub drop-append_le : (n : ℕ) (xs ys : Bytes) → n ≤ length xs → drop n (xs ++ ys) ≡ drop n xs ++ ys
drop-append_le zero xs ys h = refl
drop-append_le (suc n) [] ys h = absurd (omega arith)
drop-append_le (suc n) (x ∷ xs) ys h = drop-append_le n xs ys (omega arith)

-- The handler reads no byte behind the packet at the front.
abbrev pub IsLocal : {S : Type 0} → Handler S → Type 0
IsLocal {S} h =
    (s : S) (bs ext : Bytes)
    → 0 < front_size bs
    → front_size bs ≤ length bs
    → h s (bs ++ ext) ≡ h s bs

module _ {S : Type 0} (handle_packet : Handler S) where
  process-fuel :
      (fuel fuel' : ℕ) (s : S) (error parsed : ℕ) (bytes : Bytes)
      → length bytes < fuel
      → length bytes < fuel'
      → process handle_packet fuel s error parsed bytes
        ≡ process handle_packet fuel' s error parsed bytes
  unfolding process
  process-fuel zero fuel' s error parsed bytes h k = absurd (omega arith)
  process-fuel (suc fuel) zero s error parsed bytes h k = absurd (omega arith)
  process-fuel (suc fuel) (suc fuel') s error parsed bytes h k =
      elim (Bool-cases (length bytes == 0)) [
        | inl empty ↦ rw (empty, process) refl
        | inr more ↦ elim (Bool-cases (front_size bytes == 0)) [
          | inl bad ↦ rw (more, invalid_id bytes, bad, process) refl
          | inr good ↦
              let n : ℕ = front_size bytes in
              let pos : 0 < length bytes = ground arith in
              let n_pos : 0 < n = ground arith in
              rw
                (
                  process-fuel fuel fuel' (handle_packet s bytes).0 error (parsed + n)
                      (drop n bytes) (omega (arith, length-drop n bytes))
                      (omega (arith, length-drop n bytes)),
                  process,
                )
                refl
        ]
      ]

  process_step :
      (fuel : ℕ) (s : S) (error parsed : ℕ) (bytes : Bytes)
      → 0 < front_size bytes
      → front_size bytes ≤ length bytes
      → Code.is_packet_handle_success (handle_packet s bytes).1 ≡ true
      → process handle_packet (suc fuel) s error parsed bytes
        ≡ process handle_packet fuel
            (handle_packet s bytes).0
            error
            (parsed + front_size bytes)
            (drop (front_size bytes) bytes)
  unfolding process
  process_step fuel s error parsed bytes pos le ok =
      let more : (length bytes == 0) ≡ false = ground arith in
      let good : (front_size bytes == 0) ≡ false = ground arith in
      let whole : ltb (length bytes) (front_size bytes) ≡ false = ground arith in
      rw (more, invalid_id bytes, good, whole, ok) refl

  -- Packets that the handler accepts may be skipped.
  pub process-Accepts :
      {s s' : S} {bytes rest : Bytes}
      → Accepts handle_packet s bytes s' rest
      → (fuel fuel' error parsed parsed' : ℕ) → length bytes < fuel
      → length rest < fuel'
      → parsed + length bytes ≡ parsed' + length rest
      → process handle_packet fuel s error parsed bytes
        ≡ process handle_packet fuel' s' error parsed' rest
  process-Accepts (none_yet {s = s} {bytes = bytes}) fuel fuel' error parsed parsed' h k e =
      let same : parsed ≡ parsed' = omega arith in
      process-fuel fuel fuel' s error parsed bytes h k
      ∙ ap (λ n. process handle_packet fuel' s error n bytes) same
  process-Accepts (packet pos le ok a) zero fuel' error parsed parsed' h k e = absurd (omega arith)
  process-Accepts (packet {s = s} {bytes = bytes} pos le ok a) (suc fuel) fuel' error parsed parsed'
        h k e =
      let n : ℕ = front_size bytes in
      process_step fuel s error parsed bytes pos le ok
      ∙ process-Accepts a fuel fuel' error (parsed + n) parsed' (omega (arith, length-drop n bytes))
          k (omega (arith, length-drop n bytes))

  pub Accepts-append :
      {s s' : S} {bytes rest : Bytes} (ext : Bytes)
      → IsLocal handle_packet
      → Accepts handle_packet s bytes s' rest
      → Accepts handle_packet s (bytes ++ ext) s' (rest ++ ext)
  Accepts-append ext l none_yet = none_yet
  Accepts-append ext l (packet {s = s} {bytes = bytes} pos le ok a) =
      let n : ℕ = front_size bytes in
      let e : front_size (bytes ++ ext) ≡ n = front_size-append bytes ext pos in
      let handled : handle_packet s (bytes ++ ext) ≡ handle_packet s bytes = l s bytes ext pos le in
      let dropped : drop (front_size (bytes ++ ext)) (bytes ++ ext) ≡ drop n bytes ++ ext =
        ap (λ k. drop k (bytes ++ ext)) e ∙ drop-append_le n bytes ext le in
      packet (omega (arith, e)) (omega (arith, e, length-append bytes ext)) (rw handled ok)
        (rw (handled, dropped) (Accepts-append ext l a))

  Accepts-rest :
      {s s' : S} {bytes rest : Bytes}
      → Accepts handle_packet s bytes s' rest
      → (k : ℕ) × (rest ≡ drop k bytes) × (k ≤ length bytes)
  Accepts-rest none_yet = (0, refl, omega arith)
  Accepts-rest (packet {bytes = bytes} pos le ok a) =
      let n : ℕ = front_size bytes in
      let (k, e, h) = Accepts-rest a in
      (n + k, e ∙ drop-drop n k bytes, omega (arith, length-drop n bytes))

  -- The count of bytes parsed before is only added to.
  process_shift :
      (fuel : ℕ) (s : S) (error k j : ℕ) (bytes : Bytes)
      → let o = process handle_packet fuel s error j bytes in
        process handle_packet fuel s error (k + j) bytes
        ≡ record { state = o.state; last_error = o.last_error; parsed = k + o.parsed }
  unfolding process
  process_shift zero s error k j bytes = refl
  process_shift (suc fuel) s error k j bytes =
      let n : ℕ = front_size bytes in
      let e : k + j + n ≡ k + (j + n) = omega arith in
      ground (arith, e, process_shift fuel (handle_packet s bytes).0 error k (j + n) (drop n bytes))

  kept :
      (error : ℕ) (s : S) (rest : Bytes) (o : Outcome S)
      → Ends handle_packet error s rest o
      → Code.is_packet_handle_success o.last_error ≡ true
      → o.state ≡ s
  unfolding Code.is_packet_handle_success
  kept error s rest o (all_parsed empty e f) fine = e
  kept error s rest o (unknown more bad e f) fine = e
  kept error s rest o (incomplete more short e f) fine = e
  kept error s rest o (refused pos le bad e f) fine = ground arith

  -- If the bytes of a segment led to no error, what was accepted is told by the outcome.
  accepted_by :
      (s : S) (error : ℕ) (bytes : Bytes)
      → Code.is_packet_handle_success (process_packets handle_packet s error bytes).last_error
        ≡ true
      → let o = process_packets handle_packet s error bytes in
        Accepts handle_packet s bytes o.state (drop o.parsed bytes) × (o.parsed ≤ length bytes)
  accepted_by s error bytes fine =
      let o : Outcome S = process_packets handle_packet s error bytes in
      let r = process_packets_lem handle_packet s error bytes in
      let (k, e, h) = Accepts-rest r.accepts in
      let n : o.parsed ≡ k = omega (arith, r.count, ap length e, length-drop k bytes) in
      let state : o.state ≡ r.last = kept error r.last r.rest o r.ends fine in
      (rw (state, n, ← e) r.accepts, omega arith)

  -- For a handler that reads only its packet: if a segment leads to no error, then what it leaves
  -- unparsed, handed over together with the next segment, leads to the same state and error code
  -- as both segments handed over at once, and to the same number of parsed bytes in total.
  pub process_packets-append :
      (s : S) (error : ℕ) (bytes ext : Bytes)
      → IsLocal handle_packet
      → Code.is_packet_handle_success (process_packets handle_packet s error bytes).last_error
        ≡ true
      → let first = process_packets handle_packet s error bytes in
        let later =
          process_packets handle_packet first.state error (drop first.parsed bytes ++ ext) in
        process_packets handle_packet s error (bytes ++ ext) ≡ record {
          state = later.state;
          last_error = later.last_error;
          parsed = first.parsed + later.parsed;
        }
  process_packets-append s error bytes ext l fine =
      let o : Outcome S = process_packets handle_packet s error bytes in
      let (a, le) = accepted_by s error bytes fine in
      let rest : Bytes = drop o.parsed bytes ++ ext in
      unfold process_packets in
      process-Accepts (Accepts-append ext l a) (suc (length (bytes ++ ext))) (suc (length rest))
        error 0 (o.parsed + 0) (omega arith) (omega arith)
        (omega (
          arith,
          length-append bytes ext,
          length-append (drop o.parsed bytes) ext,
          length-drop o.parsed bytes,
        ))
      ∙ process_shift (suc (length rest)) o.state error o.parsed 0 rest
