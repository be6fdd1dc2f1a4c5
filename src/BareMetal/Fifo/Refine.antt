-- ===== src/BareMetal/Fifo/Refine.antt =====
-- The ring of received messages behaves as a first-in first-out queue of at most nine messages.
use icap.Prelude.{
  ℕ, zero, suc, ◌+◌, ◌-◌, ◌%◌, ◌<◌, ◌≡◌, ◌≢◌, refl, ap, ap₂, some, none, Option, arith, length, set,
  get_or, get_or-set_self, get_or-set_ne, List, [], ◌∷◌, ◌++◌, ltb, if◌then◌else◌,
}
use icap.BareMetal.Transport.{RemoteMsg, Fifo, zeroed}
use icap.BareMetal.Fifo.{next, push, pop, oldest}
use icap.BareMetal.Fifo.Inv.{IsValid, count, next-lt, next-eq, push-eq-none}

-- `n` slots from index `h` on, going round.
abbrev pub window : List RemoteMsg → ℕ → ℕ → List RemoteMsg
window slots h zero = []
window slots h (suc n) = get_or slots h zeroed ∷ window slots (next h) n

-- The messages held, oldest first.
abbrev pub contents : Fifo → List RemoteMsg
contents f = window f.remote_msg (next f.tail) (count f)

window-pos :
    (slots : List RemoteMsg) (h n : ℕ)
    → n ≢ 0
    → window slots h n ≡ get_or slots h zeroed ∷ window slots (next h) (n - 1)
window-pos slots h zero e = absurd (e refl)
window-pos slots h (suc n) e = ap (λ k. window slots h (suc k)) (omega arith)

length-window : (slots : List RemoteMsg) (h n : ℕ) → length (window slots h n) ≡ n
length-window slots h zero = refl
length-window slots h (suc n) = ap suc (length-window slots (next h) n)

pub length-contents : (f : Fifo) → length (contents f) ≡ count f
length-contents f = length-window f.remote_msg (next f.tail) (count f)

-- A write just past a window extends it.
window-set :
    (slots : List RemoteMsg) (m : RemoteMsg) (n h i : ℕ)
    → length slots ≡ 10
    → h < 10
    → n < 10
    → i ≡ (h + n) % 10
    → window (set slots i m) h (suc n) ≡ window slots h n ++ (m ∷ [])
window-set slots m zero h i l hh hn e =
    let same : i ≡ h = omega arith in rw (same, get_or-set_self slots h m zeroed (omega arith)) refl
window-set slots m (suc n) h i l hh hn e =
    ap₂ ◌∷◌ (get_or-set_ne slots m zeroed (omega arith))
      (window-set slots m n (next h) i l (next-lt h) (omega arith) (omega (arith, next-eq h hh)))

-- `push` as `icap_put_msg` means it.
abbrev pub queue_push : RemoteMsg → List RemoteMsg → Option (List RemoteMsg)
queue_push m q = if ltb (length q) 9 then some (q ++ (m ∷ [])) else none

abbrev pub queue_oldest : List RemoteMsg → Option RemoteMsg
queue_oldest [] = none
queue_oldest (m ∷ q) = some m

abbrev pub queue_pop : List RemoteMsg → List RemoteMsg
queue_pop [] = []
queue_pop (m ∷ q) = q

abbrev pub view : Option Fifo → Option (List RemoteMsg)
view none = none
view (some f) = some (contents f)

-- `icap_put_msg` appends the message, unless nine are waiting.
pub contents-push :
    (m : RemoteMsg) (f : Fifo) → IsValid f → view (push m f) ≡ queue_push m (contents f)
unfolding push
contents-push m f v = ground (
  arith,
  push-eq-none m v,
  next-eq f.head v.head_in,
  next-eq f.tail v.tail_in,
  length-contents f,
  window-set f.remote_msg m (count f) (next f.tail) (next f.head) v.slots (next-lt f.tail),
)

-- `icap_loop` takes the oldest message.
pub contents-oldest : (f : Fifo) → IsValid f → oldest f ≡ queue_oldest (contents f)
unfolding oldest
contents-oldest f v = ground (arith, window-pos f.remote_msg (next f.tail) (count f))

pub contents-pop :
    (f : Fifo) → IsValid f → f.tail ≢ f.head → contents (pop f) ≡ queue_pop (contents f)
unfolding pop
contents-pop f v h =
    ground (arith, next-eq f.tail v.tail_in, window-pos f.remote_msg (next f.tail) (count f))
