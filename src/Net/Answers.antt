-- ===== src/Net/Answers.antt =====
-- What holds of an application and a device after any order of their steps: every request is answered
-- once, in order and under its own number, and every message can be handled.
use icap.Prelude.{
  ℕ, ◌+◌, ◌^◌, ◌<◌, ◌≡◌, sym, ap, ◌∙◌, ◌⊎◌, List, [], ◌∷◌, ◌++◌, arith, append_assoc, subst,
}
use icap.Wire.{Bytes}
use icap.Net.{
  Setup, Net, Step, ask, report, to_device, to_application, Reach, start, later, Note, note_of,
  sent_in, requests, responses,
}
use icap.Net.Inv.{numbers, upto, requests-append, responses-append}
use icap.Net.Asks.{send_only-cases}
use icap.Net.Connected.{Connected, Inv, Connected-Inv, later-Inv, ask-Inv, report-Inv}
use icap.Net.Handled.{to_device-Inv, to_application-Inv}

module _ (e : Setup) where
  Step-Inv :
      (last : Bytes) (n : ℕ) (s t : Net)
      → n + 1 < 2 ^ 32
      → Inv e last n s
      → Step e s t
      → Inv e last (n + 1) t
  Step-Inv last n s _ l v (ask {a} c args ret r) =
      ask-Inv e last n s v a c args l
        (send_only-cases e.app_platform e.app_waiter c args ret s.app a r)
  Step-Inv last n s _ l v (report {d} c args ret k r) =
      report-Inv e last n s v d c args l
        (send_only-cases e.dev_platform e.dev_waiter c args ret s.dev d r)
  Step-Inv last n s t l v (to_device {d} m rest more ret f r) =
      later-Inv e last n t (to_device-Inv e last n s v m rest more ret f d r)
  Step-Inv last n s t l v (to_application {a} m rest more ret f r) =
      later-Inv e last n t (to_application-Inv e last n s v m rest more ret f a r)

  module _ (s : Net) (c : Connected e s) where
    pub Reach-Inv :
        (n : ℕ) (t : Net)
        → n < 2 ^ 32
        → Reach e s n t
        → Inv e s.app.icap.transport.last_response n t
    Reach-Inv _ _ l start = Connected-Inv e s c
    Reach-Inv _ _ l (later {n} {s = u} {t} r step) =
        subst (λ k. Inv e s.app.icap.transport.last_response k t) (omega arith)
          (Step-Inv s.app.icap.transport.last_response n u t (omega (arith, l))
            (Reach-Inv n u (omega (arith, l)) r) step)

    module _ (n : ℕ) (t : Net) (l : n < 2 ^ 32) (r : Reach e s n t) where
      -- An application and a device over bare metal start with the callbacks of their sides, room
      -- for a struct icap_msg in the application's response buffer, their counters at 0 and
      -- nothing sent or handled; the application knows the device's address, and the device knows
      -- the application's or has no peer yet. Calls of the application, calls of the device once
      -- it has a peer, and the handling of messages come in any order, fewer than 2^32 steps;
      -- each core handles the other's messages in the order in which they were sent, with any
      -- bytes behind them in the receive buffer; rpmsg_lite_send accepts every message and none
      -- is lost. Then the responses that a core has sent are exactly one for each request that it
      -- has handled, in the same order, each with the sequence number and the command of its
      -- request; and it has sent none for a response.
      pub reach-answers :
          (responses (sent_in t.dev.history) ≡ requests t.at_dev)
          × (responses (sent_in t.app.history) ≡ requests t.at_app)
      reach-answers = let v = Reach-Inv n t l r in (v.dev_stands.answered, v.app_stands.answered)

      -- An application and a device over bare metal start with the callbacks of their sides, room
      -- for a struct icap_msg in the application's response buffer, their counters at 0 and
      -- nothing sent or handled; the application knows the device's address, and the device knows
      -- the application's or has no peer yet. Calls of the application, calls of the device once
      -- it has a peer, and the handling of messages come in any order, fewer than 2^32 steps;
      -- each core handles the other's messages in the order in which they were sent, with any
      -- bytes behind them in the receive buffer; rpmsg_lite_send accepts every message and none
      -- is lost. Then the sequence numbers of the requests that a core has sent are 1, 2, 3 and
      -- so on in the order of sending, up to the core's counter: no two requests share a number,
      -- and responses, which carry the number of the other side's request, do not advance the
      -- counter.
      pub reach-numbers :
          (numbers (requests (sent_in t.app.history)) ≡ upto t.app.icap.seq_num)
          × (numbers (requests (sent_in t.dev.history)) ≡ upto t.dev.icap.seq_num)
      reach-numbers = let v = Reach-Inv n t l r in (v.app_stands.numbered, v.dev_stands.numbered)

      -- An application and a device over bare metal start with the callbacks of their sides, room
      -- for a struct icap_msg in the application's response buffer, their counters at 0 and
      -- nothing sent or handled; the application knows the device's address, and the device knows
      -- the application's or has no peer yet. Calls of the application, calls of the device once
      -- it has a peer, and the handling of messages come in any order, fewer than 2^32 steps;
      -- each core handles the other's messages in the order in which they were sent, with any
      -- bytes behind them in the receive buffer; rpmsg_lite_send accepts every message and none
      -- is lost. Then the responses that the application has handled answer its first requests,
      -- in the order in which it sent them; and last_response either holds what it held at the
      -- start, or starts with the sequence number and command of the last of these responses.
      pub reach-latest :
          (pending : List Note) × (requests (sent_in t.app.history) ≡ responses t.at_app ++ pending)
          × ((t.app.icap.transport.last_response ≡ s.app.icap.transport.last_response)
              ⊎ ((before : List Note) × (responses t.at_app
                    ≡ before ++ (note_of t.app.icap.transport.last_response ∷ []))))
      reach-latest =
          let v = Reach-Inv n t l r in
          let answered : requests t.at_dev ≡ responses t.at_app ++ responses v.dev_flight =
            sym v.dev_stands.answered
            ∙ ap responses v.dev_sent
            ∙ responses-append t.at_app v.dev_flight in
          (
            responses v.dev_flight ++ requests v.app_flight,
            ap requests v.app_sent
                ∙ requests-append t.at_dev v.app_flight
                ∙ ap (λ x. x ++ requests v.app_flight) answered
                ∙ append_assoc (responses t.at_app) (responses v.dev_flight)
                    (requests v.app_flight),
            v.latest,
          )
