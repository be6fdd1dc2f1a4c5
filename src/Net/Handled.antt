-- ===== src/Net/Handled.antt =====
-- Handling a message keeps the invariant of an application and a device.
use icap.Prelude.{
  ℕ, ℤ, ◌≡◌, sym, ap, subst, ◌∙◌, ◌⊎◌, inl, inr, List, [], ◌∷◌, ◌++◌, arith, length, returns,
  append-nil, append_assoc, returns-inj,
}
use icap.Wire.{Bytes}
use icap.Core.{State, parse_msg, ApplicationCallbacks, DeviceCallbacks}
use icap.BareMetal.Transport.{Transport}
use icap.BareMetal.Loop.{link}
use icap.Rpc.Report.Answered.{IsListener}
use icap.Net.{Setup, Net, Note, note_of, sent_in, responses}
use icap.Net.Whole.{IsWhole, AllWhole}
use icap.Net.Takes.{Takes, Latest}
use icap.Net.First.{IsDevice, learns}
use icap.Net.Sides.{device-Takes, application-Takes}
use icap.Net.Inv.{AllWhole-next, Takes-Stands, responses-append}
use icap.Net.Connected.{Inv}

Takes-IsDevice :
    {m : Bytes} {s s' : State Transport} (cb : DeviceCallbacks) (src : ℕ)
    → Takes m (learns src s) s'
    → IsDevice cb src s
    → IsDevice cb src s'
Takes-IsDevice cb src t v = record {
  callbacks = t.callbacks ∙ v.callbacks;
  type = t.type ∙ v.type;
  peer = inr t.peer;
  known = v.known;
}

Takes-IsListener :
    {m : Bytes} {s s' : State Transport} (cb : ApplicationCallbacks) (src : ℕ)
    → Takes m s s'
    → IsListener cb src s
    → IsListener cb src s'
Takes-IsListener cb src t v = record {
  callbacks = t.callbacks ∙ v.callbacks;
  type = t.type ∙ v.type;
  knows = (t.peer ∙ v.knows.0, v.knows.1);
}

-- `last_response` holds the latest response that has been handled, or what it held at first.
Latest-append :
    (last m : Bytes) (handled : List Bytes) (s s' : State Transport)
    → Latest m s s'
    → (s.icap.transport.last_response ≡ last)
      ⊎ ((before : List Note) × (responses handled
            ≡ before ++ (note_of s.icap.transport.last_response ∷ [])))
    → (s'.icap.transport.last_response ≡ last)
      ⊎ ((before : List Note) × (responses (handled ++ (m ∷ []))
            ≡ before ++ (note_of s'.icap.transport.last_response ∷ [])))
Latest-append last m handled s s' (inl (same, request)) (inl unchanged) = inl (same ∙ unchanged)
Latest-append last m handled s s' (inl (same, request)) (inr (before, ends)) = inr (
  before,
  responses-append handled (m ∷ [])
      ∙ ap (λ x. responses handled ++ x) request
      ∙ append-nil (responses handled)
      ∙ ends
      ∙ ap (λ x. before ++ (note_of x ∷ [])) (sym same),
)
Latest-append last m handled s s' (inr newest) old =
    inr (
      responses handled,
      responses-append handled (m ∷ []) ∙ ap (λ x. responses handled ++ x) newest,
    )

module _ (e : Setup) (last : Bytes) (n : ℕ) (s : Net) (v : Inv e last n s) (m rest : Bytes)
    (more : List Bytes) (ret : ℤ) where
  module _ (flight : sent_in s.app.history ≡ s.at_dev ++ (m ∷ more)) where
    pub at_dev-IsWhole : IsWhole m
    at_dev-IsWhole = AllWhole-next s.at_dev m more (subst AllWhole flight v.app_stands.whole)

    pub to_device-Inv :
        (d : State Transport)
        → parse_msg (link e.dev_platform) e.dev_features e.app_addr (m ++ rest) (length m) s.dev
          ≡ returns (ret, d)
        → Inv e last n (record s { dev = d; at_dev = s.at_dev ++ (m ∷ []) })
    to_device-Inv d r =
        let h =
          device-Takes e.dev_platform e.dev_features m rest at_dev-IsWhole e.app_addr
            e.dev_callbacks s.dev v.dev in
        let noted = learns e.app_addr s.dev in
        let t : Takes m noted d =
          subst (λ x. Takes m noted x)
            (ap (λ (x : ℤ × State Transport). x.1) (returns-inj (sym h.2 ∙ r))) h.3 in
        record {
          app = v.app;
          dev = Takes-IsDevice e.dev_callbacks e.app_addr t v.dev;
          room = v.room;
          app_stands = v.app_stands;
          dev_stands =
              Takes-Stands m s.at_dev noted d
                (record {
                  whole = v.dev_stands.whole;
                  numbered = v.dev_stands.numbered;
                  answered = v.dev_stands.answered;
                })
                t;
          app_flight = more;
          app_sent = flight ∙ sym (append_assoc s.at_dev (m ∷ []) more);
          dev_flight = v.dev_flight ++ t.new;
          dev_sent =
              t.sends ∙ ap (λ x. x ++ t.new) v.dev_sent ∙ append_assoc s.at_app v.dev_flight t.new;
          app_count = omega (arith, v.app_count);
          dev_count = omega (arith, v.dev_count, t.seq_num);
          latest = v.latest;
        }

  module _ (flight : sent_in s.dev.history ≡ s.at_app ++ (m ∷ more)) where
    pub at_app-IsWhole : IsWhole m
    at_app-IsWhole = AllWhole-next s.at_app m more (subst AllWhole flight v.dev_stands.whole)

    pub to_application-Inv :
        (a : State Transport)
        → parse_msg (link e.app_platform) e.app_features e.dev_addr (m ++ rest) (length m) s.app
          ≡ returns (ret, a)
        → Inv e last n (record s { app = a; at_app = s.at_app ++ (m ∷ []) })
    to_application-Inv a r =
        let h =
          application-Takes e.app_platform e.app_features m rest at_app-IsWhole e.dev_addr
            e.app_callbacks s.app v.app v.room in
        let took : Takes m s.app a × Latest m s.app a =
          subst (λ x. Takes m s.app x × Latest m s.app x)
            (ap (λ (x : ℤ × State Transport). x.1) (returns-inj (sym h.2 ∙ r))) (h.3, h.4) in
        let t = took.0 in
        record {
          app = Takes-IsListener e.app_callbacks e.dev_addr t v.app;
          dev = v.dev;
          room = omega (arith, v.room, t.room);
          app_stands = Takes-Stands m s.at_app s.app a v.app_stands t;
          dev_stands = v.dev_stands;
          app_flight = v.app_flight ++ t.new;
          app_sent =
              t.sends ∙ ap (λ x. x ++ t.new) v.app_sent ∙ append_assoc s.at_dev v.app_flight t.new;
          dev_flight = more;
          dev_sent = flight ∙ sym (append_assoc s.at_app (m ∷ []) more);
          app_count = omega (arith, v.app_count, t.seq_num);
          dev_count = omega (arith, v.dev_count);
          latest = Latest-append last m s.at_app s.app a took.1 v.latest;
        }
