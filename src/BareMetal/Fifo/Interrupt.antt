-- ===== src/BareMetal/Fifo/Interrupt.antt =====
-- The receive interrupt may call `icap_put_msg` at any moment while `icap_loop` handles a message:
-- schedules of the two, where handling a message is two steps, on the ring and on a queue.
use icap.Prelude.{
  ◌≡◌, ◌≢◌, refl, some, none, Option, Bool, true, false, arith, List, [], ◌∷◌, inl, inr,
  Option-cases,
}
use icap.BareMetal.Transport.{RemoteMsg, Fifo}
use icap.BareMetal.Fifo.{push, pop, oldest}
use icap.BareMetal.Fifo.Inv.{IsValid, push-IsValid, pop-IsValid, push-nonempty, oldest-nonempty}
use icap.BareMetal.Fifo.Refine.{
  contents, queue_push, queue_oldest, queue_pop, contents-push, contents-oldest, contents-pop,
}

-- `begin`: `icap_loop` finds the oldest message. `finish`: it moves the tail.
pub data Op : Type 0 where
  put : RemoteMsg → Op
  begin finish : Op

pub data Reply : Type 0 where
  accepted : Bool → Reply
  begun : Option RemoteMsg → Reply
  finished : Reply

-- Whether `icap_loop` is handling a message stands beside the ring.
unfoldable pub step : Op → Bool → Fifo → Reply × Bool × Fifo
step (put m) busy f = elim (push m f) [
  | none ↦ (accepted false, busy, f)
  | some g ↦ (accepted true, busy, g)
]
step begin true f = (begun none, true, f)
step begin false f = elim (oldest f) [
  | none ↦ (begun none, false, f)
  | some m ↦ (begun (some m), true, f)
]
step finish true f = (finished, false, pop f)
step finish false f = (finished, false, f)

unfoldable pub run : List Op → Bool → Fifo → List Reply
run [] busy f = []
run (op ∷ ops) busy f = let (r, busy', f') = step op busy f in r ∷ run ops busy' f'

unfoldable pub queue_step : Op → Bool → List RemoteMsg → Reply × Bool × List RemoteMsg
queue_step (put m) busy q = elim (queue_push m q) [
  | none ↦ (accepted false, busy, q)
  | some q' ↦ (accepted true, busy, q')
]
queue_step begin true q = (begun none, true, q)
queue_step begin false q = elim (queue_oldest q) [
  | none ↦ (begun none, false, q)
  | some m ↦ (begun (some m), true, q)
]
queue_step finish true q = (finished, false, queue_pop q)
queue_step finish false q = (finished, false, q)

unfoldable pub queue_run : List Op → Bool → List RemoteMsg → List Reply
queue_run [] busy q = []
queue_run (op ∷ ops) busy q =
    let (r, busy', q') = queue_step op busy q in r ∷ queue_run ops busy' q'

-- A message that is being handled is still in the ring.
abbrev pub Holds : Bool → Fifo → Type 0
Holds true f = f.tail ≢ f.head
Holds false f = Unit {0}

Holds-nonempty : (busy : Bool) (f : Fifo) → f.tail ≢ f.head → Holds busy f
Holds-nonempty true f h = h
Holds-nonempty false f h = tt

step-IsValid :
    (op : Op) (busy : Bool) (f : Fifo)
    → IsValid f
    → Holds busy f
    → let (_, busy', f') = step op busy f in IsValid f' × Holds busy' f'
unfolding step
step-IsValid (put m) busy f v h = elim (Option-cases (push m f)) [
  | inl full ↦ rw (full, step) (v, h)
  | inr (g, e) ↦ rw (e, step) (push-IsValid m v e, Holds-nonempty busy g (push-nonempty m f g e))
]
step-IsValid begin true f v h = (v, h)
step-IsValid begin false f v h = elim (Option-cases (oldest f)) [
  | inl empty ↦ rw (empty, step) (v, tt)
  | inr (m, e) ↦ rw (e, step) (v, oldest-nonempty m f e)
]
step-IsValid finish true f v h = (pop-IsValid v, tt)
step-IsValid finish false f v h = (v, tt)

step_refines :
    (op : Op) (busy : Bool) (f : Fifo)
    → IsValid f
    → Holds busy f
    → let (r, busy', f') = step op busy f in
      (r, busy', contents f') ≡ queue_step op busy (contents f)
unfolding step queue_step
step_refines (put m) busy f v h = ground (arith, contents-push m f v)
step_refines begin true f v h = refl
step_refines begin false f v h = ground (arith, contents-oldest f v)
step_refines finish true f v h = ground (arith, contents-pop f v h)
step_refines finish false f v h = refl

-- For every schedule of icap_put_msg in the receive interrupt and of the begin and the end of
-- handling a message in icap_loop, from a valid ring that is not empty while a message is being
-- handled, the replies are those of a queue of at most nine messages with the ring's contents, in
-- which a message keeps its place until it is finished.
pub run_refines :
    (ops : List Op) (busy : Bool) (f : Fifo)
    → IsValid f
    → Holds busy f
    → run ops busy f ≡ queue_run ops busy (contents f)
unfolding run queue_run
run_refines [] busy f v h = refl
run_refines (op ∷ ops) busy f v h =
    let (v', h') = step-IsValid op busy f v h in
    let (_, busy', f') = step op busy f in
    rw (run_refines ops busy' f' v' h', ← step_refines op busy f v h)
