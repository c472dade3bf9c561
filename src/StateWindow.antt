-- ===== src/StateWindow.antt =====
-- `stateInput` of src/disk/web/torrent-remote.js: the stream of a published state, whose ranges are
-- requested ahead of their reader. What happens is an event: a pull of the stream, an answer of the
-- transport, the end of an await, an abort.
pub mod Chain
pub mod Flow
pub mod Streams
mod Tests
use my.Base.{
  ℕ, zero, suc, ◌+◌, ◌-◌, min, Bool, true, false, not, ◌&&◌, ◌||◌, Option, none, some, List, [],
  ◌∷◌, ◌++◌, length, ltb, ◌==◌, if◌then◌else◌,
}
use my.Base.Failure.{Code, Result, ok, err, no_published_state}

-- A range that has been requested, with its bytes once they have come.
pub record Read : Type 0 where
  pub start : ℕ
  pub count : ℕ
  pub bytes : Option (List ℕ)

-- `running` has the requests that the transport has not answered, and `output` the bytes that have
-- been enqueued. `waiting` is whether a pull awaits the first of `pending`.
pub record Window : Type 0 where
  pub size : ℕ
  pub offset : ℕ
  pub next : ℕ
  pub active : ℕ
  pub stopped : Bool
  pub listening : Bool
  pub pending : List Read
  pub running : List Read
  pub waiting : Bool
  pub output : List ℕ
  pub closed : Bool
  pub errored : Bool

-- The answer to the request that starts at a byte is its bytes, or an error.
pub data Event : Type 0 where
  pulled resumed aborted cancelled_by_reader : Event
  answered : ℕ → Option (List ℕ) → Event

abbrev pub range_bytes : ℕ
range_bytes = 262144

unfoldable pub stop : Window → Window
stop w = if w.stopped then w else record w { stopped = true; pending = []; listening = false }

-- The condition of the loop of `fill`.
unfoldable pub has_room : Window → Bool
has_room w = not w.stopped && ltb w.active 4 && ltb (length w.pending) 16 && ltb w.next w.size

-- The body of the loop of `fill`.
unfoldable pub request : Window → Window
request w =
    let count = min range_bytes (w.size - w.next) in
    let read : Read = record { start = w.next; count = count; bytes = none } in
    record w {
      next = w.next + count;
      active = suc w.active;
      pending = w.pending ++ read ∷ [];
      running = w.running ++ read ∷ [];
    }

-- Each round of the loop adds to `active`, which stays below 4, so four rounds are enough.
unfoldable pub fill_for : ℕ → Window → Window
fill_for zero w = w
fill_for (suc n) w = let more = fill_for n (request w) in if has_room w then more else w

abbrev pub fill : Window → Window
fill w = fill_for 4 w

unfoldable pub find : ℕ → List Read → Option Read
find start [] = none
find start (r ∷ rs) = if r.start == start then some r else find start rs

unfoldable pub remove : ℕ → List Read → List Read
remove start [] = []
remove start (r ∷ rs) = if r.start == start then rs else r ∷ remove start rs

-- The promise of a range resolves with its bytes.
unfoldable pub resolve : ℕ → List ℕ → List Read → List Read
resolve start bytes [] = []
resolve start bytes (r ∷ rs) =
    if r.start == start then record r { bytes = some bytes } ∷ rs else r ∷ resolve start bytes rs

-- `.then` and `.catch` of a read.
unfoldable pub settle : Read → Option (List ℕ) → Window → Window
settle r none w = stop w
settle r (some bytes) w =
    if length bytes == r.count
    then record w { pending = resolve r.start bytes w.pending }
    else stop w

-- `.finally` of a read.
unfoldable pub release : Window → Window
release w = fill (record w { active = w.active - 1 })

unfoldable pub on_answer : Option Read → Option (List ℕ) → Window → Window
on_answer none answer w = w
on_answer (some r) answer w =
    release (settle r answer (record w { running = remove r.start w.running }))

abbrev pub fail : Window → Window
fail w = record (stop w) { errored = true; waiting = false }

-- pull(output), up to its await.
unfoldable pub on_pull : Window → Window
on_pull w =
    if w.stopped
    then fail w
    else if w.offset == w.size
    then record w { listening = false; closed = true }
    else record (fill w) { waiting = true }

-- A range is handed on.
unfoldable pub enqueue : List ℕ → List Read → Window → Window
enqueue bytes rest w = fill (record w {
  pending = rest;
  offset = w.offset + length bytes;
  output = w.output ++ bytes;
  waiting = false;
})

-- The first range has come, or has not; where there is none `result.error` throws.
unfoldable pub hand_on : Option (List ℕ) → List Read → Window → Window
hand_on none rest w = w
hand_on (some bytes) rest w = enqueue bytes rest w

unfoldable pub take_first : List Read → Window → Window
take_first [] w = fail w
take_first (r ∷ rest) w = hand_on r.bytes rest w

-- pull(output), after its await.
unfoldable pub on_resume : Window → Window
on_resume w = if w.stopped then fail w else take_first w.pending w

unfoldable pub step : Event → Window → Window
step pulled w = if w.waiting || w.closed || w.errored then w else on_pull w
step resumed w = if w.waiting then on_resume w else w
step aborted w = if w.listening then stop w else w
step cancelled_by_reader w = stop w
step (answered start answer) w = on_answer (find start w.running) answer w

unfoldable pub run : List Event → Window → Window
run [] w = w
run (e ∷ es) w = run es (step e w)

abbrev pub create : ℕ → Window
create size = record {
  size = size;
  offset = 0;
  next = 0;
  active = 0;
  stopped = false;
  listening = true;
  pending = [];
  running = [];
  waiting = false;
  output = [];
  closed = false;
  errored = false;
}

-- stateInput(signal), given what the opening of the torrent answers, the size of the state, and the code
-- of the reason of a signal that is aborted already.
unfoldable pub state_input : Bool → Result ℕ → Option Code → Result Window
state_input false opened reason = err no_published_state
state_input true (err c) reason = err c
state_input true (ok size) (some c) = err c
state_input true (ok size) none = ok (create size)
