-- ===== src/Communicator/Retry.antt =====
-- ServerCommunicator::send_message_reliably and fetch_server_address: a request that is repeated
-- until a reply comes.
pub mod Fetch
use mmocraft.Prelude.{
  ℕ, zero, suc, ◌+◌, ◌≤◌, ◌<◌, ◌≡◌, refl, inl, inr, Bool, true, false, Option, none, some, arith,
  ◌==◌, if◌then◌else◌, Bool-cases, length,
}
use mmocraft.Packet.Field.{Bytes}
use mmocraft.Buffer.Memory.{Memory}
use mmocraft.UdpMessage.MessageId
use mmocraft.UdpMessage.{
  Codec, MessageRequest, new_request, set_message, parse_message, read_message,
}
use mmocraft.Communicator.{
  ◌>>=◌, pure, FetchServerRequest, FetchServerResponse, ServerCommunicator, register_server,
}

-- Nothing that read_message takes for a message.
abbrev pub is_silent : Option Bytes → Bool
is_silent none = true
is_silent (some bytes) = length bytes == 0

-- `exchange i` is what the socket gives in the round with `i` more to come; `none` where the request
-- is not sent, or nothing is read in time.
module _ (exchange : ℕ → Option Bytes) where
  -- The rounds of send_message_reliably from `i` on, down to round 0: whether a reply came, what
  -- `response` is then, and how many rounds there were.
  unfoldable pub rounds : ℕ → MessageRequest → Bool × MessageRequest × ℕ
  rounds zero response = let (read, done) = read_message (exchange zero) response in (done, read, 1)
  rounds (suc i) response =
      let (read, done) = read_message (exchange (suc i)) response in
      let (later_done, later, n) = rounds i read in
      if done then (true, read, 1) else (later_done, later, suc n)

  -- `unset` is the memory of the empty response that stands for a failure.
  unfoldable pub send_message_reliably : Memory → MessageRequest → ℕ → Bool × MessageRequest
  unfolding rounds
  send_message_reliably unset request retry_count =
      let (done, response, _) = rounds retry_count request in
      if done then (true, response) else (false, new_request unset 0)

  -- fetch_server_address, with the result of the exchange left unread as in the source.
  unfoldable pub fetch_server_address :
      Memory
      → Codec FetchServerRequest
      → Codec FetchServerResponse
      → ℕ
      → ServerCommunicator
      → ℕ
      → Option (Bool × ServerCommunicator)
  unfolding send_message_reliably register_server
  fetch_server_address unset requests responses retry_count c server_type =
      let request =
        set_message requests (record { server_type = server_type })
          (new_request unset MessageId.fetch_server_address) in
      elim (parse_message responses (send_message_reliably unset request retry_count).1) [
        | none ↦ some (false, c)
        | some res ↦ do next ← register_server c server_type res.server_info; pure (true, next)
      ]

  -- How the rounds from `n` on end, with the number of rounds made: by the first reply, read into the
  -- response, or with no reply after all of them.
  pub data Ended (n : ℕ) (response : MessageRequest) : Bool × MessageRequest × ℕ → Type 0 where
    replied :
        (i k : ℕ)
        → i + k ≡ n
        → is_silent (exchange i) ≡ false
        → ((j : ℕ) → i < j → j ≤ n → is_silent (exchange j) ≡ true)
        → Ended n response (true, (read_message (exchange i) response).0, suc k)
    unanswered :
        ((j : ℕ) → j ≤ n → is_silent (exchange j) ≡ true)
        → Ended n response (false, response, suc n)

  read_silent :
      (o : Option Bytes) (r : MessageRequest) → is_silent o ≡ true → read_message o r ≡ (r, false)
  unfolding read_message
  read_silent none r h = refl
  read_silent (some bytes) r h = rw (h) refl

  read_reply :
      (o : Option Bytes) (r : MessageRequest) → is_silent o ≡ false → (read_message o r).1 ≡ true
  unfolding read_message
  read_reply none r h = absurd (cc)
  read_reply (some bytes) r h = rw (h) refl

  silent_suc :
      (n i : ℕ)
      → is_silent (exchange (suc n)) ≡ true
      → ((j : ℕ) → i < j → j ≤ n → is_silent (exchange j) ≡ true)
      → (j : ℕ) → i < j
      → j ≤ suc n
      → is_silent (exchange j) ≡ true
  silent_suc n i h rest j lt le = elim (Bool-cases (j == suc n)) [
    | inl at_last ↦ let e : j ≡ suc n = ground arith in rw (e) h
    | inr before ↦ rest j lt (ground arith)
  ]

  silent_all :
      (n : ℕ)
      → is_silent (exchange (suc n)) ≡ true
      → ((j : ℕ) → j ≤ n → is_silent (exchange j) ≡ true)
      → (j : ℕ) → j ≤ suc n
      → is_silent (exchange j) ≡ true
  silent_all n h rest j le = elim (Bool-cases (j == suc n)) [
    | inl at_last ↦ let e : j ≡ suc n = ground arith in rw (e) h
    | inr before ↦ rest j (ground arith)
  ]

  later :
      (n : ℕ) (response : MessageRequest) (o : Bool × MessageRequest × ℕ)
      → is_silent (exchange (suc n)) ≡ true
      → Ended n response o
      → Ended (suc n) response (o.0, o.1, suc (o.2))
  later n response _ h (replied i k at reply before) =
      replied i (suc k) (omega (arith, at)) reply (silent_suc n i h before)
  later n response _ h (unanswered silent) = unanswered (silent_all n h silent)

  -- The rounds end by the first reply, whose bytes are what the response holds, or with no reply;
  -- there are at most one more of them than the retries.
  pub rounds-Ended : (n : ℕ) (response : MessageRequest) → Ended n response (rounds n response)
  unfolding rounds
  rounds-Ended zero response = elim (Bool-cases (is_silent (exchange zero))) [
    | inl silent ↦
        rw (read_silent (exchange zero) response silent)
          (unanswered (λ j le. let e : j ≡ 0 = omega arith in rw (e) silent))
    | inr reply ↦
        rw (read_reply (exchange zero) response reply)
          (replied zero 0 (omega arith) reply (λ j lt le. absurd (omega arith)))
  ]
  rounds-Ended (suc n) response = elim (Bool-cases (is_silent (exchange (suc n)))) [
    | inl silent ↦
        rw (read_silent (exchange (suc n)) response silent)
          (later n response (rounds n response) silent (rounds-Ended n response))
    | inr reply ↦
        rw (read_reply (exchange (suc n)) response reply)
          (replied (suc n) 0 (omega arith) reply (λ j lt le. absurd (omega arith)))
  ]
