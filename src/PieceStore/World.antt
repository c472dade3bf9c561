-- ===== src/PieceStore/World.antt =====
-- The calls of torrent-store.js in progress, with the database under them. `perform` queues a call;
-- its work starts in a later microtask and goes on when its transaction completes or aborts, in any
-- order. The continuation of a transaction runs before another transaction completes.
use my.Base.{ℕ, ◌+◌, Bool, true, false, Option, none, some, List, [], ◌∷◌, ◌++◌, if◌then◌else◌}
use my.Base.Num.{Num}
use my.Base.Failure.{storage_closed, enoent, Result, ok, err}
use my.Base.JsMap
use my.Base.JsMap.{JsMap}
use my.PieceStore.{
  Bytes, Store, Row, Rows, Cause, piece_length, failure_code, remember, put_begin, get_range, slice,
  touch, row_data,
}

pub data Request : Type 0 where
  put : Num → Option Bytes → Request
  get : Num → Option Num → Option Num → Request

-- `reading i n offset len`: the transaction that reads piece `i`, of `n` bytes, has begun.
pub data Task : Type 0 where
  queued : Request → Task
  writing : ℕ → Bytes → Task
  reading : ℕ → ℕ → ℕ → ℕ → Task

pub data Reply : Type 0 where
  stored : Reply
  piece : Bytes → Reply

-- `replies` are the calls of `callback`, in order; `ended` says that the close has finished. `clear` is
-- the clearTorrentCache of destroy and of clearCaches, which both call it after the close; that of
-- another tab is left out.
pub record World : Type 0 where
  pub store : Store
  pub rows : Rows
  pub pending : JsMap Task
  pub next : ℕ
  pub replies : List (ℕ × Result Reply)
  pub ended : Bool

pub data Event : Type 0 where
  submit : Request → Event
  start : ℕ → Event
  commit : ℕ → Event
  abort : ℕ → Cause → Event
  close finish_close clear : Event

unfoldable pub reply : ℕ → Result Reply → World → World
reply id r w = record w { pending = JsMap.delete id w.pending; replies = w.replies ++ (id, r) ∷ [] }

unfoldable pub wait : ℕ → Task → World → World
wait id t w = record w { pending = JsMap.set id t w.pending }

-- perform(work,callback)
unfoldable pub perform : Request → World → World
perform r w =
    let w' = record w { next = w.next + 1 } in
    if w.store.closed
    then record w' { replies = w.replies ++ (w.next, err storage_closed) ∷ [] }
    else wait w.next (queued r) w'

-- The work of a call up to its transaction. A piece in RAM is returned at once.
unfoldable pub found : ℕ → ℕ × ℕ × ℕ × ℕ → Option Bytes → World → World
found id (i, n, from, len) none w = wait id (reading i n from len) w
found id (i, n, from, len) (some d) w =
    reply id (ok (piece (slice from len d))) (record w { store = touch i d w.store })

unfoldable pub put_checked : ℕ → Result (ℕ × Bytes) → World → World
put_checked id (err c) w = reply id (err c) w
put_checked id (ok (i, d)) w = wait id (writing i d) w

unfoldable pub get_checked : ℕ → Result (ℕ × ℕ × ℕ × ℕ) → World → World
get_checked id (err c) w = reply id (err c) w
get_checked id (ok r) w = found id r (JsMap.get r.0 w.store.cache) w

unfoldable pub begin : ℕ → Request → World → World
begin id (put index input) w = put_checked id (put_begin w.store index input) w
begin id (get index offset count) w = get_checked id (get_range w.store index offset count) w

unfoldable pub begin_task : ℕ → Option Task → World → World
begin_task id (some (queued r)) w = begin id r w
begin_task id _ w = w

-- The row read, taken into RAM and returned, or a failure.
unfoldable pub loaded : ℕ → ℕ × ℕ × ℕ → Option Bytes → World → World
loaded id (i, from, len) none w = reply id (err enoent) w
loaded id (i, from, len) (some d) w =
    reply id (ok (piece (slice from len d))) (record w { store = remember i d w.store })

-- Only after its transaction has succeeded is a written piece kept in RAM.
unfoldable pub finish : ℕ → Option Task → World → World
finish id (some (writing i d)) w =
    let row : Row = record {
      length = w.store.length;
      chunk_length = piece_length;
      contents = some d;
    } in
    reply id (ok stored) (record w { rows = JsMap.set i row w.rows; store = remember i d w.store })
finish id (some (reading i n from len)) w =
    loaded id (i, from, len) (row_data w.store.length n (JsMap.get i w.rows)) w
finish id _ w = w

unfoldable pub fail : ℕ → Cause → Option Task → World → World
fail id cause (some (writing i d)) w = reply id (err (failure_code cause)) w
fail id cause (some (reading i n from len)) w = reply id (err (failure_code cause)) w
fail id cause _ w = w

-- The end of close(callback), once every pending call has settled.
unfoldable pub end_close : JsMap Task → World → World
end_close [] w =
    if w.store.closed
    then record w { store = record w.store { cache = []; memory_bytes = 0 }; ended = true }
    else w
end_close (t ∷ ts) w = w

unfoldable pub step : World → Event → World
step w (submit r) = perform r w
step w (start id) = begin_task id (JsMap.get id w.pending) w
step w (commit id) = finish id (JsMap.get id w.pending) w
step w (abort id cause) = fail id cause (JsMap.get id w.pending) w
step w close = record w { store = record w.store { closed = true } }
step w finish_close = end_close w.pending w
step w clear = if w.ended then record w { rows = [] } else w

unfoldable pub run : World → List Event → World
run w [] = w
run w (e ∷ es) = run (step w e) es

-- A store that has just been created over the rows of earlier visits.
abbrev pub open_world : Store → Rows → World
open_world s rows = record {
  store = s;
  rows = rows;
  pending = [];
  next = 0;
  replies = [];
  ended = false;
}
