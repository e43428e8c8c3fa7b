-- ===== src/Router.antt =====
-- mmocraft-router/net/route_server.cpp class RouteServer and load_server_config of
-- mmocraft-router/config/config.cpp: the server that knows where the others are.
pub mod Directory
use mmocraft.Prelude.{
  ℕ, Bool, true, false, not, Option, none, some, List, ◌∷◌, ltb, ◌==◌, if◌then◌else◌,
}
use mmocraft.Packet.Field.{Bytes}
use mmocraft.UdpMessage.MessageId
use mmocraft.UdpMessage.{Codec, MessageRequest, message_id, set_message, parse_message, datagram}
use mmocraft.Communicator.ServerType
use mmocraft.Communicator.{
  ◌>>=◌, pure, IpAddress, ServerAnnouncement, FetchServerRequest, FetchServerResponse,
  ServerCommunicator, UdpServer, get_server, run_event_loop,
}

pub record FetchConfigRequest : Type 0 where
  pub server_type : ℕ

pub record FetchConfigResponse : Type 0 where
  pub config : Bytes

pub record Protocol : Type 0 where
  pub announcements : Codec ServerAnnouncement
  pub server_requests : Codec FetchServerRequest
  pub server_responses : Codec FetchServerResponse
  pub config_requests : Codec FetchConfigRequest
  pub config_responses : Codec FetchConfigResponse

-- The application's state is the replies that were handed to the socket, the last one first.
abbrev pub RouteServer : Type 0
RouteServer = UdpServer (List Bytes)

-- MessageRequest::send_reply, whose result the handlers do not read.
unfoldable pub send_reply : {M : Type 0} → Codec M → M → MessageRequest → RouteServer → RouteServer
send_reply codec msg request s = record s {
  app_server = datagram (set_message codec msg request) ∷ s.app_server;
}

-- The size of config_path_db.
abbrev config_path_count : ℕ
config_path_count = 255

-- `file` is what reading the configuration file of a server gives, as the bytes of its message. The
-- outer `none` is an access outside of config_path_db, the inner one a refusal.
unfoldable pub load_server_config : (ℕ → Bytes) → ℕ → Option (Option FetchConfigResponse)
load_server_config file server_type =
    if not (ltb server_type config_path_count)
    then none
    else if ltb server_type ServerType.total_count
    then some (some (record { config = file server_type }))
    else some none

module _ (p : Protocol) (file : ℕ → Bytes) where
  unfoldable pub handle_fetch_config : RouteServer → MessageRequest → Option (Bool × RouteServer)
  unfolding load_server_config send_reply
  handle_fetch_config s request = elim (parse_message p.config_requests request) [
    | none ↦ some (false, s)
    | some msg ↦ do
      loaded ← load_server_config file msg.server_type
      pure (elim loaded [
        | none ↦ (false, s)
        | some config_msg ↦ (true, send_reply p.config_responses config_msg request s)
      ])
  ]

  unfoldable pub handle_fetch_server_address :
      RouteServer → MessageRequest → Option (Bool × RouteServer)
  unfolding get_server send_reply
  handle_fetch_server_address s request = elim (parse_message p.server_requests request) [
    | none ↦ some (false, s)
    | some msg ↦ do
      info ← get_server s.communicator msg.server_type
      pure (
          if info.port == 0 then (false, s) else (
            true,
            send_reply p.server_responses
                (record { server_type = msg.server_type; server_info = info }) request s,
          ))
  ]

  -- message_handler_table and RouteServer::handle_message.
  unfoldable pub handle_message : RouteServer → MessageRequest → Option (Bool × RouteServer)
  unfolding handle_fetch_config handle_fetch_server_address
  handle_message s request =
      if message_id request == MessageId.fetch_config
      then handle_fetch_config s request
      else if message_id request == MessageId.fetch_server_address
      then handle_fetch_server_address s request
      else some (false, s)

  -- The router at work, over what it receives.
  unfoldable pub serve :
      List (Option Bytes) → MessageRequest → RouteServer → Option (MessageRequest × RouteServer)
  unfolding handle_message run_event_loop
  serve = run_event_loop p.announcements handle_message
