-- ===== src/Linux/Await.antt =====
-- A call of an application over the Linux kernel transport, from `icap_send_msg` of src/icap.c to
-- the response.
use icap.Prelude.{
  ℕ, suc, pos, ◌+◌, ◌%◌, ◌^◌, ◌≤◌, ◌≡◌, refl, ap, ◌∙◌, ◌⊎◌, none, some, [], ◌∷◌, ◌++◌, arith,
  length, take, drop, take_all, le→ltb, eq→==, returns, ◌>>=◌, true, append-nil,
}
use icap.Wire.{Bytes, MsgHeader, Cmd, ack, nak, SubdeviceFeatures, encode_msg, decode_msg, msg_size}
use icap.Wire.RoundTrip.{decode_msg-encode_msg}
use icap.Wire.Message.{encode_msg-append}
use icap.Core.{
  Pointer, History, State, Event, ApplicationCallbacks, application, header_for, set_transport,
  parse_msg, parse_with, application_parse_response,
}
use icap.Core.Request.{send_only}
use icap.Core.Verdict.{outcome}
use icap.Core.Deliver.{Carries, header_of, parse_with-passes, dispatch-response}
use icap.BareMetal.Sends.{request_header}
use icap.Linux.Transport.{Transport, Kernel, IsKernel, Skb, update}
use icap.Linux.Respond.{
  hint_size, prepare_skb, prepare_wait, answer, response_notify, find_seq_num, send_platform,
  verify_remote,
}
use icap.Linux.Wait.{find_waiter}
use icap.Linux.System.{received_at}
use icap.Linux.Notify.{filled, size_of, answer-fits}
use icap.Linux.Safety.{finish_wait-response, freed}
use icap.Linux.Link.{Bus, link, deliver, sleep, await, waiter, wait_for_response}

module _ {Q : Type 0} (k : Kernel Q) where
  -- An application on a live rpmsg channel that has no call pending.
  pub record IsCaller (cb : ApplicationCallbacks) (d : Pointer) (s : State (Transport Q))
      : Type 0 where
    pub callbacks : s.icap.callbacks ≡ some (application cb)
    pub type : s.icap.type ≡ 0
    pub bound : s.icap.transport.rpdev ≡ some d
    pub idle : k.walk s.icap.transport.response_queue ≡ []

  -- The buffer for the response, and the state in which the wait begins.
  abbrev pub skb_for : Cmd → Bytes → Bytes → State (Transport Q) → Skb
  skb_for c args memory s = record {
    hint = record {
      received = 0;
      seq_num = (request_header c args s).seq_num;
      msg_cmd = (request_header c args s).cmd;
    };
    len = 0;
    memory = drop hint_size memory;
  }

  abbrev pub waits_in :
      Pointer → Pointer → Bytes → Cmd → Bytes → State (Transport Q) → State (Transport Q)
  waits_in d p memory c args s = record {
    icap = record s.icap {
      seq_num = (s.icap.seq_num + 1) % 2 ^ 32;
      transport = record s.icap.transport {
        response_queue = k.queue_tail p s.icap.transport.response_queue;
        skbs = update s.icap.transport.skbs p (some (skb_for c args memory s));
      };
    };
    history = Event.sent (k.dst d) (encode_msg (request_header c args s) args) ∷ s.history;
  }

module _ {Q : Type 0} (k : Kernel Q) (laws : IsKernel k) (bus : Bus) (u : SubdeviceFeatures)
    (c : Cmd) (args : Bytes) (cb : ApplicationCallbacks) (d p : Pointer) (memory : Bytes)
    (s : State (Transport Q)) (caller : IsCaller k cb d s)
    (got : k.alloc_skb (hint_size + msg_size) s.icap.transport.skbs s.history
      ≡ some (p, memory)) where
  s₁ : State (Transport Q)
  s₁ = waits_in k d p memory c args s

  pub finds :
      (x : ℕ)
      → x ≡ (request_header c args s).seq_num
      → find_waiter k x (waits_in k d p memory c args s).icap.transport ≡ returns (some p)
  unfolding find_waiter find_seq_num header_for
  finds x e =
      rw (laws.walk-queue_tail p s.icap.transport.response_queue, caller.idle) (ground (arith))

  prepared :
      (header : MsgHeader) (t : Transport Q) (h : History)
      → t.rpdev ≡ some d
      → k.alloc_skb (hint_size + msg_size) t.skbs h ≡ some (p, memory)
      → prepare_wait k header t h ≡ (
        pos 0,
        record t {
          response_queue = k.queue_tail p t.response_queue;
          skbs = update t.skbs p (
              some (record {
                hint = record { received = 0; seq_num = header.seq_num; msg_cmd = header.cmd };
                len = 0;
                memory = drop hint_size memory;
              }));
        },
      )
  unfolding prepare_wait prepare_skb
  prepared header t h e f = ground arith

  sent :
      (t : Transport Q) (bytes : Bytes) (h : History)
      → t.rpdev ≡ some d
      → send_platform k t bytes h ≡ (k.rpmsg_send d bytes h, Event.sent (k.dst d) bytes ∷ h)
  unfolding send_platform
  sent t bytes h e = ground arith

  numbered : (s.icap.seq_num + 1) % 2 ^ 32 ≡ (request_header c args s).seq_num
  unfolding header_for
  numbered = refl

  pub send_only-awaits :
      length args ≤ 264
      → send_only (link k) (waiter k bus u) c args (length args) true s ≡ (
          await k bus u (some p) none (waits_in k d p memory c args s) >>= λ (ret, _, s').
          returns (ret, s'))
  unfolding send_only waiter wait_for_response link
  send_only-awaits l =
      rw
        (
          le→ltb 264 (length args) l,
          take_all (length args) args (omega arith),
          prepared (request_header c args s) s.icap.transport s.history caller.bound got,
          sent (waits_in k d p memory c args s).icap.transport
              (encode_msg (request_header c args s) args) s.history caller.bound,
          finds ((s.icap.seq_num + 1) % 2 ^ 32) numbered,
        )
        refl

-- What a filled buffer holds, decoded.
decoded_response :
    (h : MsgHeader) (payload bytes : Bytes) (skb : Skb)
    → Carries h payload [] bytes (length bytes)
    → size_of bytes ≡ length bytes
    → skb.len ≡ 0
    → decode_msg (filled skb bytes).memory
      ≡ record { header = h; payload = payload ++ drop (length bytes) skb.memory }
decoded_response h payload bytes skb carried sized e =
    let rest = drop (length bytes) skb.memory in
    let whole : bytes ≡ encode_msg h payload =
      carried.content ∙ ap (encode_msg h) (append-nil payload) in
    ap
      (λ n.
        decode_msg (
          take n skb.memory ++ (take (size_of bytes) bytes ++ drop (n + size_of bytes) skb.memory)))
      e
    ∙ ap (λ n. decode_msg (take n bytes ++ drop (0 + n) skb.memory)) sized
    ∙ ap (λ n. decode_msg (take (length bytes) bytes ++ drop n skb.memory)) {x = 0 + length bytes}
        {y = length bytes} (omega arith)
    ∙ ap (λ b. decode_msg (b ++ rest)) (take_all (length bytes) bytes (omega arith))
    ∙ ap (λ b. decode_msg (b ++ rest)) whole
    ∙ ap decode_msg (encode_msg-append h payload rest)
    ∙ decode_msg-encode_msg h (payload ++ rest) carried.fits

module _ {Q : Type 0} (k : Kernel Q) (laws : IsKernel k) (bus : Bus) (u : SubdeviceFeatures)
    (h : MsgHeader) (payload bytes : Bytes) (src : ℕ)
    (carried : Carries h payload [] bytes (length bytes)) (cb : ApplicationCallbacks) (p : Pointer)
    (skb : Skb) (s : State (Transport Q)) (calls : s.icap.callbacks ≡ some (application cb))
    (side : s.icap.type ≡ 0) (kind : (h.type ≡ ack) ⊎ (h.type ≡ nak))
    (arrives : bus.arrivals s.history ≡ (src, bytes) ∷ [])
    (found : find_waiter k h.seq_num s.icap.transport ≡ returns (some p))
    (has : s.icap.transport.skbs p ≡ some skb) (empty : skb.len ≡ 0)
    (room : length bytes ≤ length skb.memory) where
  after : Transport Q
  after = record s.icap.transport {
    skbs = update s.icap.transport.skbs p (some (filled skb bytes));
  }

  sized : size_of bytes ≡ length bytes
  sized =
      rw (header_of (link k) u h payload [] bytes (length bytes) carried)
        (omega (arith, carried.extent, carried.len, carried.small))

  notified : response_notify k s.icap.transport bytes ≡ returns (pos 0, after)
  unfolding response_notify after find_waiter
  notified =
      ap
        (λ (x : MsgHeader).
          find_seq_num s.icap.transport.skbs (k.walk s.icap.transport.response_queue) x.seq_num
          >>= λ o. answer k o bytes s.icap.transport)
        (header_of (link k) u h payload [] bytes (length bytes) carried)
      ∙ ap (λ r. r >>= λ o. answer k o bytes s.icap.transport) found
      ∙ answer-fits k laws p skb bytes s.icap.transport has (omega (arith, sized))
          (omega (arith, sized))

  parsed : parse_msg (link k) u src bytes (length bytes) s ≡ returns (pos 0, set_transport after s)
  unfolding parse_msg link verify_remote application_parse_response
  parsed =
      ap (λ x. parse_with (link k) u x src bytes (length bytes) s) calls
      ∙ parse_with-passes (link k) u h payload [] bytes (length bytes) carried (application cb) src
          s refl (omega (arith, carried.small))
      ∙ dispatch-response (link k) u h payload [] bytes (length bytes) carried cb s side kind
      ∙ ap (λ r. r >>= λ (ret, t). returns (ret, set_transport t s)) notified

  received : received_at after p ≡ some 1
  unfolding after
  received = ground (arith, eq→== p p refl)

  held : after.skbs p ≡ some (filled skb bytes)
  unfolding after
  held = ground (arith, eq→== p p refl)

  slept : sleep k bus u p s ≡ returns (pos (suc (bus.left s.history)), set_transport after s)
  unfolding sleep deliver
  slept = rw (arrives, parsed, received) refl

  -- A thread that sleeps returns what the one response says.
  pub await-response :
      (s' : State (Transport Q)) × (await k bus u (some p) none s
        ≡ returns (outcome h (payload ++ drop (length bytes) skb.memory), none, s'))
  unfolding await
  await-response = (
    record { icap = record s.icap { transport = freed k p after }; history = s.history },
    rw
        (
          slept,
          finish_wait-response k p (filled skb bytes) (bus.left s.history) after s.history held,
          decoded_response h payload bytes skb carried sized empty,
        )
        refl,
  )
