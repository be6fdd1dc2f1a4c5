-- ===== src/Net/Settles.antt =====
-- From every state of an application and a device, handling what is in flight answers every request.
use icap.Prelude.{
  ℕ, ap₂, ◌^◌, ◌<◌, ◌≡◌, refl, sym, ap, subst, ◌∙◌, inl, inr, List, [], ◌∷◌, ◌++◌, append-nil,
}
use icap.Wire.{Bytes}
use icap.Core.{State}
use icap.BareMetal.Transport.{Transport}
use icap.Net.{Setup, Net, Reach, sent_in, requests, responses}
use icap.Net.Whole.{AllWhole, requests-request, responses-response}
use icap.Net.Inv.{requests-append, responses-append}
use icap.Net.Connected.{Connected, Inv}
use icap.Net.Answers.{Reach-Inv}
use icap.Net.Drained.{Runs, Runs-trans, DeviceDrained, drain_device, drain_application}

AllWhole-drop : (xs ys : List Bytes) → AllWhole (xs ++ ys) → AllWhole ys
AllWhole-drop [] ys h = h
AllWhole-drop (x ∷ xs) ys h = AllWhole-drop xs ys h.1

quiet-empty : (ms : List Bytes) → AllWhole ms → requests ms ≡ [] → responses ms ≡ [] → ms ≡ []
quiet-empty [] h a b = refl
quiet-empty (m ∷ ms) h a b = elim h.0.kind [
  | inl t ↦ let one = requests-request m h.0 t in let all = requests-append (m ∷ []) ms in cc
  | inr t ↦ let one = responses-response m h.0 t in let all = responses-append (m ∷ []) ms in cc
]

without_requests : (xs ys : List Bytes) → requests ys ≡ [] → requests (xs ++ ys) ≡ requests xs
without_requests xs ys no_request =
    requests-append xs ys ∙ ap (λ x. requests xs ++ x) no_request ∙ append-nil (requests xs)

module _ (e : Setup) (last : Bytes) (n : ℕ) where
  -- Nothing is in flight, and no further request has been sent.
  record Settled (t : Net) : Type 0 where
    next : Net
    inv : Inv e last n next
    runs : Runs e t next
    at_dev : next.at_dev ≡ sent_in next.app.history
    at_app : next.at_app ≡ sent_in next.dev.history
    app_asks : requests (sent_in next.app.history) ≡ requests (sent_in t.app.history)
    dev_asks : requests (sent_in next.dev.history) ≡ requests (sent_in t.dev.history)

  -- A device that handles responses only sends nothing.
  drained-quiet :
      (flight : List Bytes) (t : Net) (d : DeviceDrained e last n flight t)
      → requests flight ≡ []
      → d.new ≡ []
  drained-quiet flight t d no_request =
      quiet-empty d.new
        (AllWhole-drop (sent_in t.dev.history) d.new (subst AllWhole d.sent d.inv.dev_stands.whole))
        d.asks_none (d.answers ∙ no_request)

  -- The device, then the application, then the device again: the last time only responses are left.
  settles : (t : Net) → Inv e last n t → Settled t
  settles t v =
      let app_sent = λ (x : State Transport). sent_in x.history in
      let a = drain_device e last n v.app_flight t v v.app_sent in
      let b = drain_application e last n a.inv.dev_flight a.next a.inv a.inv.dev_sent in
      let left : sent_in b.next.app.history ≡ b.next.at_dev ++ b.new =
        b.sent ∙ ap (λ x. x ++ b.new) (ap app_sent a.app ∙ sym a.handled ∙ sym b.at_dev) in
      let c = drain_device e last n b.new b.next b.inv left in
      let dev_sent : sent_in c.next.dev.history ≡ sent_in a.next.dev.history =
        c.sent
        ∙ ap₂ (λ (x : State Transport) (y : List Bytes). sent_in x.history ++ y) b.dev
            (drained-quiet b.new b.next c b.asks_none)
        ∙ append-nil (sent_in a.next.dev.history) in
      record {
        next = c.next;
        inv = c.inv;
        runs = Runs-trans e (Runs-trans e a.runs b.runs.0 b.runs.1) c.runs.0 c.runs.1;
        at_dev = c.handled ∙ sym (ap app_sent c.app);
        at_app = c.at_app ∙ b.handled ∙ sym dev_sent;
        app_asks =
            ap requests (
              ap app_sent c.app
              ∙ b.sent
              ∙ ap (λ (x : State Transport). sent_in x.history ++ b.new) a.app)
            ∙ without_requests (sent_in t.app.history) b.new b.asks_none;
        dev_asks =
            ap requests (dev_sent ∙ a.sent)
            ∙ without_requests (sent_in t.dev.history) a.new a.asks_none;
      }

-- An application and a device over bare metal start with the callbacks of their sides, room for a
-- struct icap_msg in the application's response buffer, their counters at 0 and nothing sent or
-- handled; the application knows the device's address, and the device knows the application's or
-- has no peer yet. Calls of the application, calls of the device once it has a peer, and the
-- handling of messages come in any order, fewer than 2^32 steps; each core handles the other's
-- messages in the order in which they were sent, with any bytes behind them in the receive
-- buffer; rpmsg_lite_send accepts every message and none is lost. Then further steps lead to a
-- state in which each core has handled all that the other has sent, neither has sent another
-- request, and the responses that each core has received are exactly one for each request that it
-- had sent, in the order of the requests, with their sequence numbers and commands.
pub reach-settles :
    (e : Setup) (s : Net)
    → Connected e s
    → (n : ℕ) (t : Net) → n < 2 ^ 32
    → Reach e s n t
    → (u : Net) × ((k : ℕ) × Reach e t k u)
      × (u.at_dev ≡ sent_in u.app.history)
      × (u.at_app ≡ sent_in u.dev.history)
      × (requests (sent_in u.app.history) ≡ requests (sent_in t.app.history))
      × (requests (sent_in u.dev.history) ≡ requests (sent_in t.dev.history))
      × (responses u.at_app ≡ requests (sent_in t.app.history))
      × (responses u.at_dev ≡ requests (sent_in t.dev.history))
reach-settles e s c n t l r =
    let w = settles e s.app.icap.transport.last_response n t (Reach-Inv e s c n t l r) in
    (
      w.next,
      w.runs,
      w.at_dev,
      w.at_app,
      w.app_asks,
      w.dev_asks,
      ap responses w.at_app ∙ w.inv.dev_stands.answered ∙ ap requests w.at_dev ∙ w.app_asks,
      ap responses w.at_dev ∙ w.inv.app_stands.answered ∙ ap requests w.at_app ∙ w.dev_asks,
    )
