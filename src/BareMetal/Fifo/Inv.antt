-- ===== src/BareMetal/Fifo/Inv.antt =====
-- The invariant of the ring of received messages.
use icap.Prelude.{ℕ, ◌+◌, ◌-◌, ◌%◌, ◌<◌, ◌≡◌, ◌≢◌, some, none, arith, length, length-set}
use icap.BareMetal.Transport.{RemoteMsg, Fifo}
use icap.BareMetal.Fifo.{cleared, next, push, pop, oldest}

pub record IsValid (f : Fifo) : Type 0 where
  pub head_in : f.head < 10
  pub tail_in : f.tail < 10
  pub slots : length f.remote_msg ≡ 10

-- The number of messages held.
abbrev pub count : Fifo → ℕ
count f = (f.head + 10 - f.tail) % 10

pub next-lt : (i : ℕ) → next i < 10
unfolding next
next-lt i = ground arith

pub next-eq : (i : ℕ) → i < 10 → next i ≡ (i + 1) % 10
unfolding next
next-eq i h = ground arith

pub cleared-IsValid : IsValid cleared
unfolding cleared
cleared-IsValid = omega arith

-- `icap_put_msg` keeps the invariant.
pub push-IsValid : (m : RemoteMsg) {f g : Fifo} → IsValid f → push m f ≡ some g → IsValid g
unfolding push
push-IsValid m {f} {g} v e = ground (arith, length-set f.remote_msg (next f.head) m, next-lt f.head)

-- `icap_loop` keeps the invariant.
pub pop-IsValid : {f : Fifo} → IsValid f → IsValid (pop f)
unfolding pop
pop-IsValid {f} v = ground (arith, next-lt f.tail)

-- A ring of ten slots holds nine messages: it takes one more exactly if it holds fewer.
pub push-eq-none : (m : RemoteMsg) {f : Fifo} → IsValid f → count f ≡ 9 → push m f ≡ none
unfolding push
push-eq-none m {f} v e = ground (arith, next-eq f.head v.head_in)

-- A ring that has just taken a message is not empty.
pub push-nonempty : (m : RemoteMsg) (f g : Fifo) → push m f ≡ some g → g.tail ≢ g.head
unfolding push
push-nonempty m f g e = ground arith

-- The loop handles a message exactly if the ring is not empty.
pub oldest-nonempty : (m : RemoteMsg) (f : Fifo) → oldest f ≡ some m → f.tail ≢ f.head
unfolding oldest
oldest-nonempty m f e = ground arith
