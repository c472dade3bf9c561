-- ===== src/PieceStore/Tests.antt =====
-- A torrent of two pieces, the second of one byte: runs of the store and the theorems at them.
use my.Base.{
  ℕ, ◌==◌, if◌then◌else◌, ◌<◌, ◌≤◌, ◌≡◌, refl, false, none, some, List, [], ◌∷◌, ◌++◌, length,
  replicate, arith,
}
use my.Base.Num.{nat}
use my.Base.Failure.{ok, err, enoent}
use my.Base.JsMap
use my.PieceStore.{
  Bytes, Store, quota, Options, create, size, size_at, piece_length, put_begin, get_range, evict,
  remember, touch, row_data, failure_code,
}
use my.PieceStore.Cache.{total, remember-lru}
use my.PieceStore.World.{
  World, Request, stored, piece, Event, step, run, open_world, reply, wait, perform, found,
  put_checked, get_checked, begin, begin_task, loaded, finish,
}
use my.PieceStore.Sound.{IsValid, durable}
use my.PieceStore.Traces.{run-IsValid}
use my.PieceStore.Direct.{get-direct, put-durable, read_direct}
use my.PieceStore.Replies.{run-IsAnswered, IsAnswered}
use my.PieceStore.Shape.{create-IsValid, sum_sizes}

abbrev options : Options
options = record { info_hash = replicate 40 97; length = nat 262145; ram_bytes = some (nat 2) }

abbrev store : Store
store = record {
  hash = replicate 40 97;
  length = 262145;
  count = 2;
  budget = 2;
  cache = [];
  memory_bytes = 0;
  closed = false;
}

created : create 262144 options ≡ ok store
unfolding create
created = refl

store-IsValid :
    IsValid (open_world store [])
    × ((i : ℕ) → i < 2 → (1 ≤ size_at 262145 i) × (size_at 262145 i ≤ piece_length))
    × (sum_sizes 262145 2 ≡ 262145)
    × (2 ≤ 8388608)
store-IsValid = create-IsValid 262144 options store [] created

abbrev put_tail : Event
put_tail = Event.submit (Request.put (nat 1) (some (7 ∷ [])))

abbrev get_tail : Event
get_tail = Event.submit (Request.get (nat 1) none none)

-- A piece is written and read from RAM; a read of the other piece fails.
abbrev script : List Event
script =
    put_tail
    ∷ Event.start 0
    ∷ Event.commit 0
    ∷ get_tail
    ∷ Event.start 1
    ∷ Event.submit (Request.get (nat 0) none none)
    ∷ Event.start 2
    ∷ Event.commit 2
    ∷ []

script_replies :
    (run (open_world store []) script).replies
    ≡ (0, ok stored) ∷ (1, ok (piece (7 ∷ []))) ∷ (2, err enoent) ∷ []
unfolding run step perform begin_task begin put_checked get_checked found finish loaded reply wait
    put_begin get_range size row_data remember touch evict JsMap.get JsMap.set JsMap.delete
script_replies = refl

run-IsValid_example : IsValid (run (open_world store []) script)
run-IsValid_example = run-IsValid script (open_world store []) store-IsValid.0

started : IsAnswered (open_world store [])
unfolding JsMap.get
started id = ground arith

run-IsAnswered_example : IsAnswered (run (open_world store []) script)
run-IsAnswered_example = run-IsAnswered script (open_world store []) started

abbrev asked : World
asked = run (open_world store []) (put_tail ∷ Event.start 0 ∷ Event.commit 0 ∷ get_tail ∷ [])

get-direct_example :
    (step (step asked (Event.start 1)) (Event.commit 1)).replies
    ≡ asked.replies
      ++ (1, read_direct asked.rows asked.store.length (get_range asked.store (nat 1) none none))
        ∷ []
unfolding run step perform begin_task begin put_checked finish reply wait put_begin size remember
    evict JsMap.get JsMap.set JsMap.delete
get-direct_example =
    get-direct 1 (nat 1) none none asked
      (run-IsValid (put_tail ∷ Event.start 0 ∷ Event.commit 0 ∷ get_tail ∷ []) (open_world store [])
        store-IsValid.0)
      refl

abbrev putting : World
putting = step (open_world store []) put_tail

put-durable_example :
    ((step (step putting (Event.start 0)) (Event.commit 0)).replies
      ≡ putting.replies ++ (0, ok stored) ∷ [])
    × ((j : ℕ)
        → durable putting.store.length (step (step putting (Event.start 0)) (Event.commit 0)).rows j
          ≡ (if 1 == j then some (7 ∷ []) else durable putting.store.length putting.rows j))
    × ((step (step putting (Event.start 0)) (Event.abort 0 quota)).replies
        ≡ putting.replies ++ (0, err (failure_code quota)) ∷ [])
    × ((step (step putting (Event.start 0)) (Event.abort 0 quota)).rows ≡ putting.rows)
    × ((step (step putting (Event.start 0)) (Event.abort 0 quota)).store ≡ putting.store)
unfolding step perform wait put_begin size JsMap.get JsMap.set
put-durable_example = put-durable 0 (nat 1) (some (7 ∷ [])) 1 (7 ∷ []) quota putting refl refl

abbrev filled : Store
filled = record store { cache = (0, 5 ∷ []) ∷ (1, 6 ∷ []) ∷ []; memory_bytes = 2 }

-- The oldest piece makes room for a new one.
remember-lru_example :
    (JsMap.get 2 (remember 2 (8 ∷ []) filled).cache ≡ some (8 ∷ []))
    × ((dropped : JsMap.JsMap Bytes) × (dropped ++ (remember 2 (8 ∷ []) filled).cache
          ≡ JsMap.delete 2 filled.cache ++ (2, 8 ∷ []) ∷ []))
    × ((p q : JsMap.JsMap Bytes)
        → p ++ q ≡ JsMap.delete 2 filled.cache ++ (2, 8 ∷ []) ∷ []
        → total q ≤ 2
        → length q ≤ length (remember 2 (8 ∷ []) filled).cache)
unfolding JsMap.get total
remember-lru_example = remember-lru 2 (8 ∷ []) filled (refl, (refl, tt)) refl (omega arith)
