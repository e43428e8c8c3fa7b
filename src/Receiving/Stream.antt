-- ===== src/Receiving/Stream.antt =====
-- A stream that arrives in segments, against the same bytes handed over at once.
use mmocraft.Prelude.{
  ℕ, ◌+◌, ◌≤◌, ◌≡◌, refl, sym, ap, ◌∙◌, inl, inr, Bool, true, List, [], ◌∷◌, ◌++◌, append-nil,
  append_assoc, arith, ◌==◌, Bool-cases, length, drop, length-take, drop-drop,
}
use mmocraft.Code
use mmocraft.Packet.Field.{Bytes}
use mmocraft.Buffer.Recv
use mmocraft.Buffer.Recv.{contents, receive_appends, pop_drops, unused_size}
use mmocraft.Framing.{Outcome, process_packets}
use mmocraft.Framing.Laws.{process_packets_lem}
use mmocraft.Framing.Segments.{IsLocal, process_packets-append, drop-append_le}
use mmocraft.Framing.Errors.{process_packets-append_error}
use mmocraft.Receiving.{
  Signal, Receiver, Callbacks, on_complete, handle_io_event, deliver, on_event_complete,
}

abbrev pub joined : List Bytes → Bytes
joined [] = []
joined (b ∷ bs) = b ++ joined bs

module _ {S : Type 0} (calls : Callbacks S) where
  -- What the bytes `bytes` come to from a state of the server with no error.
  abbrev pub outcome : S → Bytes → Outcome S
  outcome s bytes = process_packets calls.handle_packet s Code.success bytes

  abbrev pub fine : Outcome S → Bool
  fine o = Code.is_packet_handle_success o.last_error

  -- The segments arrive one after the other.
  unfoldable pub receive_all : ℕ → List Bytes → Receiver S → Receiver S
  receive_all now [] r = r
  receive_all now (b ∷ bs) r =
      receive_all now bs (on_event_complete calls (Signal.transferred b) now r)

  -- Each segment fits the free space that was offered for it.
  abbrev pub Fits : ℕ → List Bytes → Receiver S → Type 0
  Fits now [] r = Unit
  Fits now (b ∷ bs) r =
      (length b ≤ unused_size r.event_data)
      × Fits now bs (on_event_complete calls (Signal.transferred b) now r)

  parsed-le : (s : S) (bytes : Bytes) → (outcome s bytes).parsed ≤ length bytes
  parsed-le s bytes =
      let r = process_packets_lem calls.handle_packet s Code.success bytes in omega (arith, r.count)

  -- A receive that leads to no error.
  record Delivered (r r' : Receiver S) (o : Outcome S) (bytes : Bytes) : Type 0 where
    server : r'.server ≡ o.state
    left : contents r'.event_data ≡ drop o.parsed bytes
    valid : Recv.IsValid r'.event_data
    no_error : r'.last_error ≡ Code.success
    online : r'.is_online ≡ true

  deliver-fine :
      (now : ℕ) (r : Receiver S)
      → Recv.IsValid r.event_data
      → r.is_online ≡ true
      → r.last_error ≡ Code.success
      → fine (outcome r.server (contents r.event_data)) ≡ true
      → Delivered r
          (deliver calls now r)
          (outcome r.server (contents r.event_data))
          (contents r.event_data)
  unfolding deliver handle_io_event on_complete
  deliver-fine now r v on quiet good =
      let o : Outcome S = outcome r.server (contents r.event_data) in
      let size : length (contents r.event_data) ≡ r.event_data.size =
        omega (arith, length-take r.event_data.size r.event_data.mem, v.fits) in
      let within : o.parsed ≤ r.event_data.size =
        omega (arith, parsed-le r.server (contents r.event_data)) in
      let (popped, _, v') = pop_drops o.parsed r.event_data v within in
      elim (Bool-cases (o.parsed == 0)) [
        | inl nothing ↦
            let e : 0 ≡ o.parsed = ground arith in
            simp (on, quiet, nothing, good)
              (record {
                server = refl;
                left = ap (λ n. drop n (contents r.event_data)) e;
                valid = v;
                no_error = refl;
                online = refl;
              })
        | inr some_bytes ↦
            simp (on, quiet, some_bytes, good)
              (record { server = refl; left = popped; valid = v'; no_error = refl; online = refl })
      ]

  -- The bytes hold no complete packet and no error.
  pub record Settled (s : S) (bytes : Bytes) : Type 0 where
    pub no_step : (outcome s bytes).state ≡ s
    pub no_parse : (outcome s bytes).parsed ≡ 0
    pub good : fine (outcome s bytes) ≡ true

  later_lem :
      (s : S) (bytes ext : Bytes)
      → IsLocal calls.handle_packet
      → fine (outcome s bytes) ≡ true
      → let first = outcome s bytes in
        let later = outcome first.state (drop first.parsed bytes ++ ext) in
        let whole = outcome s (bytes ++ ext) in
        (whole.state ≡ later.state)
        × (whole.last_error ≡ later.last_error)
        × (whole.parsed ≡ first.parsed + later.parsed)
  later_lem s bytes ext l good =
      let e = process_packets-append calls.handle_packet s Code.success bytes ext l good in
      (ap (λ o. o.state) e, ap (λ o. o.last_error) e, ap (λ o. o.parsed) e)

  Settled-left :
      (s : S) (bytes : Bytes)
      → IsLocal calls.handle_packet
      → fine (outcome s bytes) ≡ true
      → Settled (outcome s bytes).state (drop (outcome s bytes).parsed bytes)
  Settled-left s bytes l good =
      let first : Outcome S = outcome s bytes in
      let (a, b, c) = later_lem s bytes [] l good in
      let left : Bytes = drop first.parsed bytes in
      let same : outcome s (bytes ++ []) ≡ first = ap (outcome s) (append-nil bytes) in
      let rest : outcome first.state (left ++ []) ≡ outcome first.state left =
        ap (outcome first.state) (append-nil left) in
      record {
        no_step = ap (λ o. o.state) (sym rest) ∙ sym a ∙ ap (λ o. o.state) same;
        no_parse = omega (arith, c, ap (λ o. o.parsed) same, ap (λ o. o.parsed) rest);
        good =
            ap fine (sym rest)
            ∙ ap Code.is_packet_handle_success (sym b ∙ ap (λ o. o.last_error) same)
            ∙ good;
      }

  -- If the bytes lead to no error, the bytes before them did not.
  fine_prefix :
      (s : S) (bytes ext : Bytes)
      → IsLocal calls.handle_packet
      → fine (outcome s (bytes ++ ext)) ≡ true
      → fine (outcome s bytes) ≡ true
  unfolding Code.is_packet_handle_success
  fine_prefix s bytes ext l good = elim (Bool-cases (fine (outcome s bytes))) [
    | inl yes_fine ↦ yes_fine
    | inr bad ↦
        let same =
          process_packets-append_error calls.handle_packet s Code.success bytes ext l refl bad in
        absurd (cc)
  ]

  -- Where the server stands after one segment, and what that makes of the rest of the stream.
  record Followed (s s2 : S) (bytes left ext : Bytes) : Type 0 where
    settled : Settled s2 left
    state : (outcome s2 (left ++ ext)).state ≡ (outcome s (bytes ++ ext)).state
    error : (outcome s2 (left ++ ext)).last_error ≡ (outcome s (bytes ++ ext)).last_error
    rest :
        drop (outcome s2 (left ++ ext)).parsed (left ++ ext)
        ≡ drop (outcome s (bytes ++ ext)).parsed (bytes ++ ext)

  follow :
      (s s2 : S) (bytes left ext : Bytes)
      → IsLocal calls.handle_packet
      → fine (outcome s bytes) ≡ true
      → s2 ≡ (outcome s bytes).state
      → left ≡ drop (outcome s bytes).parsed bytes
      → Followed s s2 bytes left ext
  follow s s2 bytes left ext l good at_state at_left =
      let first : Outcome S = outcome s bytes in
      let (a, b, c) = later_lem s bytes ext l good in
      let later : Outcome S = outcome first.state (drop first.parsed bytes ++ ext) in
      rw (at_state, at_left)
        (record {
          settled = Settled-left s bytes l good;
          state = sym a;
          error = sym b;
          rest =
              ap (drop later.parsed)
                (sym (drop-append_le first.parsed bytes ext (parsed-le s bytes)))
              ∙ drop-drop first.parsed later.parsed (bytes ++ ext)
              ∙ ap (λ n. drop n (bytes ++ ext)) (sym c);
        })

  -- For a handler that reads only its packet: segments that arrive one after the other at an online
  -- connection, each within the free space of its buffer, leave the server in the state that
  -- the whole stream, handed over at once, leads to, and the buffer with the bytes that are left
  -- of it; provided the whole stream leads to no error. Segments may end anywhere in a packet.
  pub receive_all_lem :
      (now : ℕ) (segments : List Bytes) (r : Receiver S)
      → IsLocal calls.handle_packet
      → Recv.IsValid r.event_data
      → r.is_online ≡ true
      → r.last_error ≡ Code.success
      → Settled r.server (contents r.event_data)
      → Fits now segments r
      → fine (outcome r.server (contents r.event_data ++ joined segments)) ≡ true
      → let bytes = contents r.event_data ++ joined segments in
        ((receive_all now segments r).server ≡ (outcome r.server bytes).state)
        × (contents (receive_all now segments r).event_data
            ≡ drop (outcome r.server bytes).parsed bytes)
        × ((receive_all now segments r).last_error ≡ Code.success)
  unfolding receive_all on_event_complete
  receive_all_lem now [] r l v on quiet settled fits good =
      let same : contents r.event_data ++ [] ≡ contents r.event_data =
        append-nil (contents r.event_data) in
      rw (same, settled.no_step, settled.no_parse) (refl, refl, quiet)
  receive_all_lem now (b ∷ bs) r l v on quiet settled fits good =
      let c : Bytes = contents (Recv.receive b r.event_data) in
      let r2 : Receiver S = on_event_complete calls (Signal.transferred b) now r in
      let (appended, _, v1) = receive_appends b r.event_data v fits.0 in
      let e : contents r.event_data ++ (b ++ joined bs) ≡ c ++ joined bs =
        sym (append_assoc (contents r.event_data) b (joined bs))
        ∙ ap (λ t. t ++ joined bs) (sym appended) in
      let all_good = ap (λ t. fine (outcome r.server t)) (sym e) ∙ good in
      let first_good = fine_prefix r.server c (joined bs) l all_good in
      let d =
        deliver-fine now (record r { event_data = Recv.receive b r.event_data }) v1 on quiet
          first_good in
      let f =
        follow r.server r2.server c (contents r2.event_data) (joined bs) l first_good d.server
          d.left in
      let (state, left, error) =
        receive_all_lem now bs r2 l d.valid d.online d.no_error f.settled fits.1
          (ap Code.is_packet_handle_success f.error ∙ all_good) in
      rw e (state ∙ f.state, left ∙ f.rest, error)
