-- ===== src/BareMetal/Loop.antt =====
-- src/platform/icap_bm_rpmsg-lite.c, but for the wait: the transport below the handlers, and
-- `icap_put_msg` and `icap_loop` above them.
use icap.Prelude.{
  ℕ, ℤ, ◌+◌, ◌%◌, ◌^◌, pos, neg, Option, none, some, List, [], ◌∷◌, ◌==◌, if◌then◌else◌, memcpy,
  Run, ◌>>=◌, returns,
}
use icap.Wire.{Bytes, SubdeviceFeatures, decode_msg, header_size, error_init, error_remote_addr}
use icap.Core.{Callbacks, History, Event, State, Link, set_transport, record_event, parse_msg}
use icap.BareMetal.Transport.{Transport, RemoteMsg, Fifo, Platform, no_addr}
use icap.BareMetal.Fifo.{cleared, push, oldest, pop}

unfoldable pub init_transport : Transport → ℤ × Transport
unfolding cleared
init_transport t = (pos 0, record t { msg_fifo = cleared; remote_addr = no_addr })

unfoldable pub deinit_transport : Transport → ℤ × Transport
deinit_transport t = (pos 0, t)

unfoldable pub verify_remote : Transport → ℕ → ℤ × Transport
verify_remote t src_addr =
    if t.remote_addr == no_addr
    then (pos 0, record t { remote_addr = src_addr })
    else if t.remote_addr == src_addr
    then (pos 0, t)
    else (neg error_remote_addr, t)

-- `memcpy(icap->transport.last_response, response, size)`
unfoldable pub response_notify : Transport → Bytes → Run (ℤ × Transport)
response_notify t response =
    let size = (header_size + (decode_msg response).header.payload_len) % 2 ^ 32 in
    memcpy t.last_response response size >>= λ last.
    returns (pos 0, record t { last_response = last })

module _ (p : Platform) where
  unfoldable pub send_platform : Transport → Bytes → History → ℤ × History
  send_platform t bytes h = (
    p.send t.rpmsg_instance t.rpmsg_ept t.remote_addr bytes h,
    Event.sent t.remote_addr bytes ∷ h,
  )

  -- A bare metal core's `size_t` has 32 bits.
  unfoldable pub link : Link Transport
  unfolding init_transport deinit_transport verify_remote send_platform response_notify
  link = record {
    size_mod = 2 ^ 32;
    init_transport = init_transport;
    deinit_transport = deinit_transport;
    verify_remote = verify_remote;
    send_platform = send_platform;
    response_notify = response_notify;
  }

  -- `icap_put_msg`, with the pointer in `icap->callbacks` and the ring as `push` leaves it.
  abbrev pub put_with : Option Callbacks → Option Fifo → State Transport → ℤ × State Transport
  put_with none f s = (neg error_init, s)
  put_with (some _) none s = (p.no_buff, s)
  put_with (some _) (some f) s =
      (p.hold, set_transport (record s.icap.transport { msg_fifo = f }) s)

  unfoldable pub put_msg : RemoteMsg → State Transport → ℤ × State Transport
  put_msg m s = put_with s.icap.callbacks (push m s.icap.transport.msg_fifo) s

  -- The receive interrupt, for the messages that have come in.
  unfoldable pub receive : List RemoteMsg → State Transport → State Transport
  unfolding put_msg
  receive [] s = s
  receive (m ∷ ms) s = receive ms (put_msg m s).1

-- `rpmsg_lite_release_rx_buffer`, and the message leaves the ring.
unfoldable pub finish : RemoteMsg → State Transport → State Transport
finish m s =
    let t = s.icap.transport in
    record_event (Event.released m.buffer.addr)
      (set_transport (record t { msg_fifo = pop t.msg_fifo }) s)

module _ (p : Platform) (uninitialised : SubdeviceFeatures) where
  -- `icap_loop`, with the message that it finds.
  unfoldable pub loop_with : Option RemoteMsg → State Transport → Run (ℤ × State Transport)
  unfolding link finish parse_msg
  loop_with none s = returns (pos 0, s)
  loop_with (some m) s =
      parse_msg (link p) uninitialised m.src_addr m.buffer.bytes m.size s >>= λ (ret, s').
      returns (ret, finish m s')

  unfoldable pub loop : State Transport → Run (ℤ × State Transport)
  unfolding loop_with
  loop s = loop_with (oldest s.icap.transport.msg_fifo) s
