-- ===== src/Net/Connected.antt =====
-- The invariant of an application and a device that know each other, and that calls keep it.
use icap.Prelude.{
  ℕ, ◌+◌, ◌^◌, ◌<◌, ◌≤◌, ◌≡◌, refl, sym, ap, subst, ◌∙◌, ◌⊎◌, inl, inr, List, [], ◌∷◌, ◌++◌, arith,
  length, append_assoc,
}
use icap.Wire.{Bytes, Cmd, encode_msg}
use icap.Core.{State}
use icap.BareMetal.Transport.{Transport}
use icap.BareMetal.Sends.{request_header, sends}
use icap.Rpc.Report.Answered.{IsListener}
use icap.Net.{Setup, Net, Note, note_of, sent_in, requests, responses}
use icap.Net.Inv.{Stands}
use icap.Net.First.{IsDevice}
use icap.Net.Asks.{sends-Stands}

module _ (e : Setup) where
  -- Two instances that have sent nothing, with room for a response. The device may have no peer yet.
  pub record Connected (s : Net) : Type 0 where
    pub app : IsListener e.app_callbacks e.dev_addr s.app
    pub dev : IsDevice e.dev_callbacks e.app_addr s.dev
    pub room : 304 ≤ length s.app.icap.transport.last_response
    pub app_silent : sent_in s.app.history ≡ []
    pub dev_silent : sent_in s.dev.history ≡ []
    pub app_number : s.app.icap.seq_num ≡ 0
    pub dev_number : s.dev.icap.seq_num ≡ 0
    pub app_fresh : s.at_app ≡ []
    pub dev_fresh : s.at_dev ≡ []

  -- Each core has handled a beginning of what the other sent.
  pub record Inv (last : Bytes) (n : ℕ) (s : Net) : Type 0 where
    pub app : IsListener e.app_callbacks e.dev_addr s.app
    pub dev : IsDevice e.dev_callbacks e.app_addr s.dev
    pub room : 304 ≤ length s.app.icap.transport.last_response
    pub app_stands : Stands s.app s.at_app
    pub dev_stands : Stands s.dev s.at_dev
    pub app_flight : List Bytes
    pub app_sent : sent_in s.app.history ≡ s.at_dev ++ app_flight
    pub dev_flight : List Bytes
    pub dev_sent : sent_in s.dev.history ≡ s.at_app ++ dev_flight
    pub app_count : s.app.icap.seq_num ≤ n
    pub dev_count : s.dev.icap.seq_num ≤ n
    pub latest :
        (s.app.icap.transport.last_response ≡ last)
        ⊎ ((before : List Note) × (responses s.at_app
              ≡ before ++ (note_of s.app.icap.transport.last_response ∷ [])))

  pub Connected-Inv : (s : Net) → Connected s → Inv s.app.icap.transport.last_response 0 s
  unfolding requests responses
  Connected-Inv s c = record {
    app = c.app;
    dev = c.dev;
    room = c.room;
    app_stands = fresh s.app s.at_app c.app_silent c.app_number c.app_fresh;
    dev_stands = fresh s.dev s.at_dev c.dev_silent c.dev_number c.dev_fresh;
    app_flight = [];
    app_sent = c.app_silent ∙ ap (λ x. x ++ []) (sym c.dev_fresh);
    dev_flight = [];
    dev_sent = c.dev_silent ∙ ap (λ x. x ++ []) (sym c.app_fresh);
    app_count = omega (arith, c.app_number);
    dev_count = omega (arith, c.dev_number);
    latest = inl refl;
  }
    where
      fresh :
          (x : State Transport) (handled : List Bytes)
          → sent_in x.history ≡ []
          → x.icap.seq_num ≡ 0
          → handled ≡ []
          → Stands x handled
      fresh x handled a b c = record {
        whole = rw a tt;
        numbered = rw (a, b) refl;
        answered = rw (a, c) refl;
      }

  module _ (last : Bytes) (n : ℕ) (s : Net) (v : Inv last n s) where
    pub later-Inv : Inv last (n + 1) s
    later-Inv = record {
      app = v.app;
      dev = v.dev;
      room = v.room;
      app_stands = v.app_stands;
      dev_stands = v.dev_stands;
      app_flight = v.app_flight;
      app_sent = v.app_sent;
      dev_flight = v.dev_flight;
      dev_sent = v.dev_sent;
      app_count = omega (arith, v.app_count);
      dev_count = omega (arith, v.dev_count);
      latest = v.latest;
    }

    pub ask-Inv :
        (a : State Transport) (c : Cmd) (args : Bytes)
        → n + 1 < 2 ^ 32
        → (a ≡ s.app) ⊎ ((length args ≤ 264) × (a ≡ sends c args s.app))
        → Inv last (n + 1) (record s { app = a })
    unfolding sent_in
    ask-Inv a c args l (inl same) =
        subst (λ x. Inv last (n + 1) (record s { app = x })) (sym same) later-Inv
    ask-Inv a c args l (inr (fits, sent)) =
        let m = encode_msg (request_header c args s.app) args in
        subst (λ x. Inv last (n + 1) (record s { app = x })) (sym sent)
          (record {
            app = record { callbacks = v.app.callbacks; type = v.app.type; knows = v.app.knows };
            dev = v.dev;
            room = v.room;
            app_stands =
                sends-Stands c args s.app s.at_app fits (omega (arith, v.app_count, l))
                  v.app_stands;
            dev_stands = v.dev_stands;
            app_flight = v.app_flight ++ (m ∷ []);
            app_sent =
                ap (λ x. x ++ (m ∷ [])) v.app_sent ∙ append_assoc s.at_dev v.app_flight (m ∷ []);
            dev_flight = v.dev_flight;
            dev_sent = v.dev_sent;
            app_count = omega (arith, v.app_count, l);
            dev_count = omega (arith, v.dev_count);
            latest = v.latest;
          })

    pub report-Inv :
        (d : State Transport) (c : Cmd) (args : Bytes)
        → n + 1 < 2 ^ 32
        → (d ≡ s.dev) ⊎ ((length args ≤ 264) × (d ≡ sends c args s.dev))
        → Inv last (n + 1) (record s { dev = d })
    unfolding sent_in
    report-Inv d c args l (inl same) =
        subst (λ x. Inv last (n + 1) (record s { dev = x })) (sym same) later-Inv
    report-Inv d c args l (inr (fits, sent)) =
        let m = encode_msg (request_header c args s.dev) args in
        subst (λ x. Inv last (n + 1) (record s { dev = x })) (sym sent)
          (record {
            app = v.app;
            dev = record {
              callbacks = v.dev.callbacks;
              type = v.dev.type;
              peer = v.dev.peer;
              known = v.dev.known;
            };
            room = v.room;
            app_stands = v.app_stands;
            dev_stands =
                sends-Stands c args s.dev s.at_dev fits (omega (arith, v.dev_count, l))
                  v.dev_stands;
            app_flight = v.app_flight;
            app_sent = v.app_sent;
            dev_flight = v.dev_flight ++ (m ∷ []);
            dev_sent =
                ap (λ x. x ++ (m ∷ [])) v.dev_sent ∙ append_assoc s.at_app v.dev_flight (m ∷ []);
            app_count = omega (arith, v.app_count);
            dev_count = omega (arith, v.dev_count, l);
            latest = v.latest;
          })
