-- ===== src/BareMetal/Stale.antt =====
-- A response that is left over from before: `icap_init_transport` does not clear `last_response`,
-- and `icap_wait_for_response` looks at the sequence number alone.
use icap.Prelude.{
  sym, ℕ, suc, pos, ◌≤◌, ◌≡◌, refl, ap, ◌∙◌, none, some, [], length, arith, returns, ◌>>=◌, true,
  eq→==, Bool-cases, inl, inr, ◌==◌,
}
use icap.Wire.{Bytes, Cmd, nak, SubdeviceFeatures, decode_msg}
use icap.Core.{Pointer, ApplicationCallbacks, application, State, Instance, History}
use icap.Core.Init.{application_init, set_up, deinit}
use icap.Core.Request.{send_only}
use icap.BareMetal.Transport.{Transport, Platform, no_addr}
use icap.BareMetal.Fifo.{cleared, oldest}
use icap.BareMetal.Loop.{link, init_transport, deinit_transport, receive, loop, loop_with}
use icap.BareMetal.Wait.{accept_response, wait_rounds, waiter}
use icap.BareMetal.Await.{}
use icap.BareMetal.Sends.{sends, waits_in, send_only-waits}
use icap.Core.Verdict.{outcome}

oldest-cleared : oldest cleared ≡ none
unfolding oldest cleared
oldest-cleared = refl

module _ (p : Platform) (u : SubdeviceFeatures) where
  loop-empty :
      (s : State Transport)
      → oldest s.icap.transport.msg_fifo ≡ none
      → loop p u s ≡ returns (pos 0, s)
  unfolding loop loop_with
  loop-empty s e = ap (λ x. loop_with p u x s) e

  -- With the awaited number in `last_response` a wait ends at once, though nothing has arrived.
  pub wait_rounds-stale :
      (s : State Transport) (n start : ℕ)
      → p.arrivals s.history ≡ []
      → oldest s.icap.transport.msg_fifo ≡ none
      → let last = decode_msg s.icap.transport.last_response in
        wait_rounds p u (suc n) start last.header.seq_num none s
        ≡ returns (outcome last.header last.payload, none, s)
  unfolding wait_rounds receive accept_response
  wait_rounds-stale s n start a e =
      let last = decode_msg s.icap.transport.last_response in
      let looped : loop p u (receive p (p.arrivals s.history) s) ≡ returns (pos 0, s) =
        ap (λ ms. loop p u (receive p ms s)) a ∙ loop-empty s e in
      rw (looped, eq→== last.header.seq_num last.header.seq_num refl)
        (elim (Bool-cases (last.header.type == nak)) [ inl b ↦ rw b refl | inr b ↦ rw b refl ])

  -- The state of an application that was shut down and set up again.
  abbrev pub restarted :
      Pointer → Pointer → ApplicationCallbacks → Instance Transport → History → State Transport
  restarted name priv cb icap h = record {
    icap = record {
      transport = record icap.transport { msg_fifo = cleared; remote_addr = no_addr };
      name = name;
      type = 0;
      priv = priv;
      callbacks = some (application cb);
      seq_num = 0;
    };
    history = h;
  }

  restarts :
      (icap : Instance Transport) (name priv : Pointer) (cb : ApplicationCallbacks) (h : History)
      → (application_init (link p) (some (deinit (link p) icap).1) name (some cb) priv).1
        ≡ some (restarted name priv cb icap h).icap
  unfolding application_init set_up deinit link init_transport deinit_transport
  restarts icap name priv cb h = ground arith

  -- Stale response: let the sequence number in the response buffer of an instance be 1. After a
  -- deinitialisation and an initialisation as an application, the first synchronous call, with at
  -- most 264 bytes of arguments and before anything arrives, returns what that old response says.
  pub send_only-stale :
      (icap : Instance Transport) (name priv : Pointer) (cb : ApplicationCallbacks) (h : History)
      (c : Cmd) (args : Bytes) (n : ℕ)
      → length args ≤ 264
      → (decode_msg icap.transport.last_response).header.seq_num ≡ 1
      → p.arrivals (waits_in p c args (restarted name priv cb icap h)).history ≡ []
      → let last = decode_msg icap.transport.last_response in
        ((application_init (link p) (some (deinit (link p) icap).1) name (some cb) priv).1
          ≡ some (restarted name priv cb icap h).icap)
        × (send_only
              (link p)
              (waiter p u (suc n))
              c
              args
              (length args)
              true
              (restarted name priv cb icap h)
            ≡ returns (
              outcome last.header last.payload,
              waits_in p c args (restarted name priv cb icap h),
            ))
  send_only-stale icap name priv cb h c args n l one a =
      let s = restarted name priv cb icap h in
      let start = p.us_clock_tick (sends c args s).history in
      (
        restarts icap name priv cb h,
        send_only-waits p u c args s (suc n) l
            ∙ ap
                (λ k. wait_rounds p u (suc n) start k none (waits_in p c args s) >>= λ (ret, _, t).
                  returns (ret, t))
                (sym one)
            ∙ ap (λ x. x >>= λ (ret, _, t). returns (ret, t))
                (wait_rounds-stale (waits_in p c args s) n start a oldest-cleared),
      )
