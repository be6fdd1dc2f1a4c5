-- ===== src/BareMetal/Fifo.antt =====
-- The ring of received messages: the code of `icap_put_msg` and `icap_loop` of
-- src/platform/icap_bm_rpmsg-lite.c that reads and writes `msg_fifo`.
pub mod Inv
pub mod Refine
pub mod Interrupt
use icap.Prelude.{ℕ, ◌+◌, Option, none, some, ◌==◌, leb, if◌then◌else◌, get_or, set, replicate}
use icap.BareMetal.Transport.{RemoteMsg, Fifo, zeroed, msg_queue_size}

-- `memset(&icap->transport.msg_fifo, 0, …)`
unfoldable pub cleared : Fifo
cleared = record { head = 0; tail = 0; remote_msg = replicate 10 zeroed }

-- The next index round the ring.
unfoldable pub next : ℕ → ℕ
next i = if leb msg_queue_size (i + 1) then 0 else i + 1

-- `none`: the ring is full.
unfoldable pub push : RemoteMsg → Fifo → Option Fifo
push m f =
    let head_next = next f.head in
    if head_next == f.tail
    then none
    else some (record f { head = head_next; remote_msg = set f.remote_msg head_next m })

-- The message that `icap_loop` handles, `none` for an empty ring.
unfoldable pub oldest : Fifo → Option RemoteMsg
oldest f = if f.tail == f.head then none else some (get_or f.remote_msg (next f.tail) zeroed)

-- `fifo->tail = tail_next`
unfoldable pub pop : Fifo → Fifo
pop f = record f { tail = next f.tail }
