-- ===== src/GameServer/Local.antt =====
-- GameServer::handle_packet reads one packet, and never refuses it.
use mmocraft.Prelude.{
  ℕ, zero, suc, ◌≤◌, ◌<◌, ◌≡◌, refl, ap, ◌∙◌, ◌≢◌, false, List, [], ◌∷◌, ◌++◌, arith, ◌==◌, length,
  take,
}
use mmocraft.Code
use mmocraft.Player.{PlayerType}
use mmocraft.Packet.Field.{Bytes}
use mmocraft.Packet.Id
use mmocraft.Packet.Id.{protocol_db}
use mmocraft.Framing.Laws.{front_size}
use mmocraft.Framing.Segments.{IsLocal}
use mmocraft.GameServer.{
  GameServer, handle_as, handle_packet, packet_handler_db, handle_handshake_packet,
  handle_ping_packet, handle_set_block_packet, handle_player_position_packet,
  handle_chat_message_packet, handle_ext_info_packet, handle_ext_entry_packet,
  handle_two_way_ping_packet, handle_ext_ping_packet,
}

take-append_le : (n : ℕ) (xs ys : Bytes) → n ≤ length xs → take n (xs ++ ys) ≡ take n xs
take-append_le zero xs ys h = refl
take-append_le (suc n) [] ys h = absurd (omega arith)
take-append_le (suc n) (x ∷ xs) ys h = ap (◌∷◌ x) (take-append_le n xs ys (omega arith))

parse_packet-append :
    (bs ext : Bytes) → 0 < front_size bs → Id.parse_packet (bs ++ ext) ≡ Id.parse_packet bs
unfolding Id.parse_packet
parse_packet-append [] ext h = absurd (omega arith)
parse_packet-append (b ∷ bs) ext h = refl

module _ (unset_type : PlayerType) (unset_name : List ℕ) where
  -- handle_packet depends on no byte behind its packet.
  pub handle_packet-IsLocal : IsLocal (handle_packet unset_type unset_name)
  unfolding handle_packet
  handle_packet-IsLocal s bs ext pos le =
      ap (λ (p : ℕ × ℕ). handle_as unset_type unset_name p.0 s (take p.1 (bs ++ ext)))
        (parse_packet-append bs ext pos)
      ∙ ap (handle_as unset_type unset_name (Id.parse_packet bs).0 s)
          (take-append_le (front_size bs) bs ext le)

  handshake-succeeds :
      (s : GameServer) (bytes : Bytes)
      → (handle_handshake_packet unset_type unset_name s bytes).1 ≡ Code.success
  unfolding handle_handshake_packet
  handshake-succeeds s bytes = ground arith

  set_block-succeeds :
      (s : GameServer) (bytes : Bytes) → (handle_set_block_packet s bytes).1 ≡ Code.success
  unfolding handle_set_block_packet
  set_block-succeeds s bytes = ground arith

  handle_as-succeeds :
      (id : ℕ) (s : GameServer) (bytes : Bytes)
      → protocol_db id ≢ 0
      → (handle_as unset_type unset_name id s bytes).1 ≡ Code.success
  unfolding handle_as packet_handler_db protocol_db handle_ping_packet handle_player_position_packet
      handle_chat_message_packet handle_ext_info_packet handle_ext_entry_packet
      handle_two_way_ping_packet handle_ext_ping_packet
  handle_as-succeeds id s bytes sized =
      ground (arith, handshake-succeeds s bytes, set_block-succeeds s bytes)

  -- handle_packet accepts every packet that the packet table gives a size.
  pub handle_packet-succeeds :
      (s : GameServer) (bytes : Bytes)
      → 0 < front_size bytes
      → (handle_packet unset_type unset_name s bytes).1 ≡ Code.success
  unfolding handle_packet Id.parse_packet
  handle_packet-succeeds s [] h = absurd (omega arith)
  handle_packet-succeeds s (b ∷ bs) h =
      let sized : (protocol_db b == 0) ≡ false = ground arith in
      simp (sized) (handle_as-succeeds b s (take (protocol_db b) (b ∷ bs)) (omega arith))
