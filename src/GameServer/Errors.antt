-- ===== src/GameServer/Errors.antt =====
-- Which errors the packets of a client can lead to.
use mmocraft.Prelude.{
  ℕ, ◌+◌, ◌-◌, ◌≤◌, ◌<◌, ◌≡◌, sym, ap, ◌∙◌, ◌⊎◌, inl, inr, List, arith, length, drop, length-drop,
  drop-drop,
}
use mmocraft.Code
use mmocraft.Player.{PlayerType}
use mmocraft.Packet.Field.{Bytes}
use mmocraft.Framing.{Handler, Outcome, process_packets}
use mmocraft.Framing.Laws.{
  Accepts, none_yet, packet, Ends, all_parsed, unknown, incomplete, refused, process_packets_lem,
  front_size,
}
use mmocraft.GameServer.{GameServer, handle_packet}
use mmocraft.GameServer.Local.{handle_packet-succeeds}

-- What is left behind accepted packets is the end of the bytes.
left_behind :
    {S : Type 0} (handle : Handler S) (s last : S) (bytes rest : Bytes)
    → Accepts handle s bytes last rest
    → (length rest ≤ length bytes) × (rest ≡ drop (length bytes - length rest) bytes)
left_behind handle s last bytes rest (none_yet) =
    let e : length bytes - length bytes ≡ 0 = omega arith in
    (omega arith, sym (ap (λ n. drop n bytes) e))
left_behind handle s last bytes rest (packet pos le good more) =
    let n : ℕ = front_size bytes in
    let (within, end) = left_behind handle (handle s bytes).0 last (drop n bytes) rest more in
    let m : ℕ = length (drop n bytes) - length rest in
    let e : n + m ≡ length bytes - length rest = omega (arith, within, length-drop n bytes, le) in
    (
      omega (arith, within, length-drop n bytes),
      end ∙ drop-drop n m bytes ∙ ap (λ k. drop k bytes) e,
    )

module _ (unset_type : PlayerType) (unset_name : List ℕ) where
  cause :
      (error : ℕ) (s : GameServer) (rest : Bytes) (o : Outcome GameServer)
      → Ends (handle_packet unset_type unset_name) error s rest o
      → ((o.last_error ≡ error) × (length rest ≡ 0))
        ⊎ ((o.last_error ≡ Code.insuffient_packet_data) × (length rest < front_size rest))
        ⊎ ((o.last_error ≡ Code.invalid_packet_id) × (front_size rest ≡ 0))
  unfolding Code.is_packet_handle_success
  cause error s rest o (all_parsed empty e f) = inl (f, empty)
  cause error s rest o (incomplete more short e f) = inr (inl (f, short))
  cause error s rest o (unknown more bad e f) = inr (inr (f, bad))
  cause error s rest o (refused pos le bad e f) =
      let fine = handle_packet-succeeds unset_type unset_name s rest pos in absurd (ground arith)

  -- process_packets with the handlers of the game server leaves, in front of the bytes that it did
  -- not parse, one of three results: the error code of before, with nothing left; an incomplete
  -- packet, which is no error; or an id that the packet table does not accept. No handler adds
  -- another error.
  pub process_packets_errors :
      (s : GameServer) (error : ℕ) (bytes : Bytes)
      → let o = process_packets (handle_packet unset_type unset_name) s error bytes in
        let rest = drop o.parsed bytes in
        (o.parsed ≤ length bytes)
        × (((o.last_error ≡ error) × (length rest ≡ 0))
            ⊎ ((o.last_error ≡ Code.insuffient_packet_data) × (length rest < front_size rest))
            ⊎ ((o.last_error ≡ Code.invalid_packet_id) × (front_size rest ≡ 0)))
  process_packets_errors s error bytes =
      let o : Outcome GameServer =
        process_packets (handle_packet unset_type unset_name) s error bytes in
      let r = process_packets_lem (handle_packet unset_type unset_name) s error bytes in
      let (within, end) =
        left_behind (handle_packet unset_type unset_name) s r.last bytes r.rest r.accepts in
      let e : length bytes - length r.rest ≡ o.parsed = omega (arith, r.count, within) in
      let left : r.rest ≡ drop o.parsed bytes = end ∙ ap (λ k. drop k bytes) e in
      (omega (arith, r.count), rw (sym left) (cause error r.last r.rest o r.ends))
