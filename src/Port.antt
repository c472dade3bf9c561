-- ===== src/Port.antt =====
-- `TorrentPort` of src/disk/web/torrent-port.js, by which the disk Worker asks the window for
-- ciphertext. What happens to it is a list of events; what it asks of the port, and how the
-- promises that it has given are settled, are its calls.
pub mod Settled
pub mod Window
pub mod Replies
pub mod Answered
mod Tests
use my.Base.{
  ℕ, ◌+◌, Bool, true, false, Option, none, some, List, [], ◌∷◌, ◌++◌, ◌==◌, if◌then◌else◌,
}
use my.Base.Failure.{Code, transport_error, cancelled}

-- A promise of `pending`: its id, and whether it listens to a signal.
abbrev pub Pending : Type 0
Pending = ℕ × Bool

pub data Call : Type 0 where
  post abort_posted : ℕ → Call
  notified progressed port_closed : Call
  resolved : ℕ → Call
  rejected : ℕ → Code → Call
  -- a promise that is rejected before it has an id
  refused : Code → Call

pub data Event : Type 0 where
  -- with the signal, if there is one: the reason for which it has been aborted, if it has; and
  -- with whether postMessage throws
  call : Option (Option Code) → Option Code → Event
  -- an answer, with the code of its error if it is not `ok`
  answer : ℕ → Option Code → Event
  progress message_error notify : Event
  -- the signal of a call is aborted, for this reason
  abort : ℕ → Code → Event
  close : Code → Event

pub record Port : Type 0 where
  pub pending : List Pending
  pub next : ℕ
  pub closed : Bool
  pub calls : List Call

abbrev pub emit : Call → Port → Port
emit c p = record p { calls = p.calls ++ c ∷ [] }

-- this.pending.get(id), as whether it is there
unfoldable pub has_pending : ℕ → List Pending → Bool
has_pending id [] = false
has_pending id ((k, listens) ∷ ps) = if k == id then true else has_pending id ps

-- whether the promise is there with its listener
unfoldable pub has_listener : ℕ → List Pending → Bool
has_listener id [] = false
has_listener id ((k, listens) ∷ ps) = if k == id then listens else has_listener id ps

-- this.pending.delete(id), with the listener of that promise
unfoldable pub forget : ℕ → List Pending → List Pending
forget id [] = []
forget id ((k, listens) ∷ ps) =
    let rest = forget id ps in if k == id then rest else (k, listens) ∷ rest

-- The executor of the promise of call `id`.
unfoldable pub submit : Bool → Option Code → Port → Port
submit listens none p =
    emit (post (p.next + 1))
      (record p { next = p.next + 1; pending = p.pending ++ (p.next + 1, listens) ∷ [] })
submit listens (some code) p = emit (rejected (p.next + 1) code) (record p { next = p.next + 1 })

-- call(op,args,signal)
unfoldable pub start_call : Option (Option Code) → Option Code → Port → Port
start_call (some (some reason)) throws p =
    emit (refused (if p.closed then transport_error else reason)) p
start_call (some none) throws p =
    if p.closed then emit (refused transport_error) p else submit true throws p
start_call none throws p =
    if p.closed then emit (refused transport_error) p else submit false throws p

abbrev settle : ℕ → Option Code → Call
settle id none = resolved id
settle id (some code) = rejected id code

-- port.onmessage, for an answer
unfoldable pub on_answer : ℕ → Option Code → Port → Port
on_answer id failed p =
    if has_pending id p.pending
    then emit (settle id failed) (record p { pending = forget id p.pending })
    else p

-- The listener that `call` gives to its signal.
unfoldable pub on_abort : ℕ → Code → Port → Port
on_abort id reason p =
    if has_listener id p.pending
    then emit (rejected id reason)
        (emit (abort_posted id) (record p { pending = forget id p.pending }))
    else p

-- The rejections of `close`.
unfoldable pub reject_all : Code → List Pending → List Call
reject_all code [] = []
reject_all code ((id, listens) ∷ ps) = rejected id code ∷ reject_all code ps

-- close(error)
unfoldable pub close_with : Code → Port → Port
close_with code p =
    emit port_closed
      (record p { closed = true; pending = []; calls = p.calls ++ reject_all code p.pending })

unfoldable pub step : Port → Event → Port
step p (call signal throws) = start_call signal throws p
step p (answer id failed) = on_answer id failed p
step p progress = emit progressed p
step p message_error = close_with transport_error p
step p notify = if p.closed then p else emit notified p
step p (abort id reason) = on_abort id reason p
step p (close code) = close_with code p

unfoldable pub run : Port → List Event → Port
run p [] = p
run p (e ∷ es) = run (step p e) es

unfoldable pub create : Port
create = record { pending = []; next = 0; closed = false; calls = [] }
