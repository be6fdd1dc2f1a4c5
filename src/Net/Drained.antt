-- ===== src/Net/Drained.antt =====
-- Handling everything that is in flight to one core.
use icap.Prelude.{
  ℕ, pos, ap₂, ◌≡◌, refl, sym, ap, ◌∙◌, List, [], ◌∷◌, ◌++◌, append-nil, append_assoc, suc,
}
use icap.Wire.{Bytes}
use icap.Net.{
  Setup, Net, Step, to_device, to_application, Reach, start, later, sent_in, requests, responses,
}
use icap.Net.Sides.{device-Takes, application-Takes}
use icap.Net.Inv.{requests-append, responses-append}
use icap.Net.Connected.{Inv}
use icap.Net.Handled.{at_dev-IsWhole, at_app-IsWhole, to_device-Inv, to_application-Inv}

abbrev pub Runs : Setup → Net → Net → Type 0
Runs e s t = (k : ℕ) × Reach e s k t

module _ (e : Setup) where
  Runs-from : {s t u : Net} (k : ℕ) → Step e s t → Reach e t k u → Runs e s u
  Runs-from _ a start = (1, later start a)
  Runs-from _ a (later r b) = let w = Runs-from _ a r in (suc w.0, later w.1 b)

  pub Runs-trans : {s t u : Net} → Runs e s t → (k : ℕ) → Reach e t k u → Runs e s u
  Runs-trans r _ start = r
  Runs-trans r _ (later a b) = let w = Runs-trans r _ a in (suc w.0, later w.1 b)

  module _ (last : Bytes) (n : ℕ) where
    -- The device has handled everything that the application sent.
    pub record DeviceDrained (flight : List Bytes) (t : Net) : Type 0 where
      pub next : Net
      pub inv : Inv e last n next
      pub runs : Runs e t next
      pub handled : next.at_dev ≡ sent_in t.app.history
      pub app : next.app ≡ t.app
      pub at_app : next.at_app ≡ t.at_app
      pub new : List Bytes
      pub sent : sent_in next.dev.history ≡ sent_in t.dev.history ++ new
      pub asks_none : requests new ≡ []
      pub answers : responses new ≡ requests flight

    pub drain_device :
        (flight : List Bytes) (t : Net)
        → Inv e last n t
        → sent_in t.app.history ≡ t.at_dev ++ flight
        → DeviceDrained flight t
    unfolding requests responses
    drain_device [] t v f = record {
      next = t;
      inv = v;
      runs = (0, start);
      handled = sym (f ∙ append-nil t.at_dev);
      app = refl;
      at_app = refl;
      new = [];
      sent = sym (append-nil (sent_in t.dev.history));
      asks_none = refl;
      answers = refl;
    }
    drain_device (m ∷ more) t v f =
        let w = at_dev-IsWhole e last n t v m [] more (pos 0) f in
        let (ret, d, r, took) =
          device-Takes e.dev_platform e.dev_features m [] w e.app_addr e.dev_callbacks t.dev
            v.dev in
        let t' : Net = record t { dev = d; at_dev = t.at_dev ++ (m ∷ []) } in
        let rest =
          drain_device more t' (to_device-Inv e last n t v m [] more ret f d r)
            (f ∙ sym (append_assoc t.at_dev (m ∷ []) more)) in
        record {
          next = rest.next;
          inv = rest.inv;
          runs = Runs-from rest.runs.0 (to_device m [] more ret f r) rest.runs.1;
          handled = rest.handled;
          app = rest.app;
          at_app = rest.at_app;
          new = took.new ++ rest.new;
          sent =
              rest.sent
              ∙ ap (λ x. x ++ rest.new) took.sends
              ∙ append_assoc (sent_in t.dev.history) took.new rest.new;
          asks_none =
              requests-append took.new rest.new ∙ ap₂ (λ x y. x ++ y) took.asks_none rest.asks_none;
          answers =
              responses-append took.new rest.new
              ∙ ap₂ (λ x y. x ++ y) took.answers rest.answers
              ∙ sym (requests-append (m ∷ []) more);
        }

    -- The application has handled everything that the device sent.
    pub record ApplicationDrained (flight : List Bytes) (t : Net) : Type 0 where
      pub next : Net
      pub inv : Inv e last n next
      pub runs : Runs e t next
      pub handled : next.at_app ≡ sent_in t.dev.history
      pub dev : next.dev ≡ t.dev
      pub at_dev : next.at_dev ≡ t.at_dev
      pub new : List Bytes
      pub sent : sent_in next.app.history ≡ sent_in t.app.history ++ new
      pub asks_none : requests new ≡ []

    pub drain_application :
        (flight : List Bytes) (t : Net)
        → Inv e last n t
        → sent_in t.dev.history ≡ t.at_app ++ flight
        → ApplicationDrained flight t
    unfolding requests
    drain_application [] t v f = record {
      next = t;
      inv = v;
      runs = (0, start);
      handled = sym (f ∙ append-nil t.at_app);
      dev = refl;
      at_dev = refl;
      new = [];
      sent = sym (append-nil (sent_in t.app.history));
      asks_none = refl;
    }
    drain_application (m ∷ more) t v f =
        let w = at_app-IsWhole e last n t v m [] more (pos 0) f in
        let (ret, a, r, took, latest) =
          application-Takes e.app_platform e.app_features m [] w e.dev_addr e.app_callbacks t.app
            v.app v.room in
        let t' : Net = record t { app = a; at_app = t.at_app ++ (m ∷ []) } in
        let rest =
          drain_application more t' (to_application-Inv e last n t v m [] more ret f a r)
            (f ∙ sym (append_assoc t.at_app (m ∷ []) more)) in
        record {
          next = rest.next;
          inv = rest.inv;
          runs = Runs-from rest.runs.0 (to_application m [] more ret f r) rest.runs.1;
          handled = rest.handled;
          dev = rest.dev;
          at_dev = rest.at_dev;
          new = took.new ++ rest.new;
          sent =
              rest.sent
              ∙ ap (λ x. x ++ rest.new) took.sends
              ∙ append_assoc (sent_in t.app.history) took.new rest.new;
          asks_none =
              requests-append took.new rest.new ∙ ap₂ (λ x y. x ++ y) took.asks_none rest.asks_none;
        }
