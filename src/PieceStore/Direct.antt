-- ===== src/PieceStore/Direct.antt =====
-- torrent-store.js: reads and writes against the database alone.
use my.Base.{ℕ, ◌≡◌, refl, Option, none, some, [], ◌∷◌, ◌++◌, arith, ◌==◌, if◌then◌else◌}
use my.Base.Num.{Num}
use my.Base.Failure.{ok, err, Result, enoent}
use my.Base.JsMap
use my.Base.JsMap.{JsMap}
use my.PieceStore.{Bytes, Rows, Cause, size_at, touch, put_begin, get_range, slice, failure_code}
use my.PieceStore.World.{
  put, get, queued, writing, reading, Reply, stored, piece, World, start, commit, abort, reply,
  wait, found, put_checked, get_checked, begin, begin_task, loaded, finish, fail, step,
}
use my.PieceStore.Sound.{IsValid, durable, row_of, durable-set}
use my.PieceStore.Traces.{put_begin-checked, get_range-checked}

-- The reply of a read that goes to the database, with no cache.
abbrev pub row_reply : ℕ → ℕ → Option Bytes → Result Reply
row_reply from len none = err enoent
row_reply from len (some d) = ok (piece (slice from len d))

abbrev pub read_direct : Rows → ℕ → Result (ℕ × ℕ × ℕ × ℕ) → Result Reply
read_direct rows total (err c) = err c
read_direct rows total (ok (i, n, from, len)) = row_reply from len (durable total rows i)

replies-loaded :
    (id i from len : ℕ) (o : Option Bytes) (w : World)
    → (loaded id (i, from, len) o w).replies ≡ w.replies ++ (id, row_reply from len o) ∷ []
unfolding loaded reply
replies-loaded id i from len none w = refl
replies-loaded id i from len (some d) w = refl

-- Once a call has been answered, the end of a transaction finds no task of it.
commit-reply :
    (id : ℕ) (r : Result Reply) (w : World) → step (reply id r w) (commit id) ≡ reply id r w
unfolding step reply finish
commit-reply id r w =
    let gone : JsMap.get id (JsMap.delete id w.pending) ≡ none =
      ground (arith, JsMap.get-delete id id w.pending) in
    rw gone

found-direct :
    (id i n from len : ℕ) (o : Option Bytes) (w : World)
    → IsValid w
    → n ≡ size_at w.store.length i
    → JsMap.get i w.store.cache ≡ o
    → (step (found id (i, n, from, len) o w) (commit id)).replies
      ≡ w.replies ++ (id, row_reply from len (durable w.store.length w.rows i)) ∷ []
unfolding found
found-direct id i n from len none w h c g =
    let begun : JsMap.get id (wait id (reading i n from len) w).pending
        ≡ some (reading i n from len) =
      unfold wait in ground (arith, JsMap.get-set id id (reading i n from len) w.pending) in
    unfold step in
    rw begun (
      unfold finish wait in
      rw (← c) (replies-loaded id i from len _ (wait id (reading i n from len) w)))
found-direct id i n from len (some d) w h c g =
    rw (commit-reply id (ok (piece (slice from len d))) (record w { store = touch i d w.store }))
      (unfold reply in rw (h.sound.coherent i d g))

get_checked-direct :
    (id : ℕ) (r : Result (ℕ × ℕ × ℕ × ℕ)) (w : World)
    → IsValid w
    → ((p : ℕ × ℕ × ℕ × ℕ) → r ≡ ok p → p.1 ≡ size_at w.store.length p.0)
    → (step (get_checked id r w) (commit id)).replies
      ≡ w.replies ++ (id, read_direct w.rows w.store.length r) ∷ []
unfolding get_checked
get_checked-direct id (err c) w h f = rw (commit-reply id (err c) w) (unfold reply in refl)
get_checked-direct id (ok (i, n, from, len)) w h f =
    found-direct id i n from len _ w h (f (i, n, from, len) refl) refl

-- A read that is started and whose transaction completes is answered as the database alone would
-- answer it: with an error if its range is refused, with ENOENT if the database has no valid row of
-- the piece, and else with the bytes of the row in the range. The RAM cache cannot be seen.
pub get-direct :
    (id : ℕ) (index : Num) (offset count : Option Num) (w : World)
    → IsValid w
    → JsMap.get id w.pending ≡ some (queued (get index offset count))
    → (step (step w (start id)) (commit id)).replies
      ≡ w.replies
        ++ (id, read_direct w.rows w.store.length (get_range w.store index offset count)) ∷ []
unfolding begin_task begin
get-direct id index offset count w h g =
    let begun : step w (start id) ≡ get_checked id (get_range w.store index offset count) w =
      unfold step in rw g in
    rw begun (
      get_checked-direct id (get_range w.store index offset count) w h
        (λ p e. (get_range-checked w.store index offset count p e).1))

put_begun :
    (id : ℕ) (index : Num) (input : Option Bytes) (i : ℕ) (d : Bytes) (w : World)
    → JsMap.get id w.pending ≡ some (queued (put index input))
    → put_begin w.store index input ≡ ok (i, d)
    → (step w (start id) ≡ wait id (writing i d) w)
      × (JsMap.get id (wait id (writing i d) w).pending ≡ some (writing i d))
unfolding step begin_task begin put_checked
put_begun id index input i d w g b =
    (rw (g, b), unfold wait in ground (arith, JsMap.get-set id id (writing i d) w.pending))

-- A write whose input is accepted. If its transaction completes, the caller is told so, the database
-- holds the piece, and its other pieces are as before; if it aborts, the caller is told why, and
-- neither the database nor the RAM cache has changed.
pub put-durable :
    (id : ℕ) (index : Num) (input : Option Bytes) (i : ℕ) (d : Bytes) (cause : Cause) (w : World)
    → JsMap.get id w.pending ≡ some (queued (put index input))
    → put_begin w.store index input ≡ ok (i, d)
    → ((step (step w (start id)) (commit id)).replies ≡ w.replies ++ (id, ok stored) ∷ [])
      × ((j : ℕ)
          → durable w.store.length (step (step w (start id)) (commit id)).rows j
            ≡ (if i == j then some d else durable w.store.length w.rows j))
      × ((step (step w (start id)) (abort id cause)).replies
          ≡ w.replies ++ (id, err (failure_code cause)) ∷ [])
      × ((step (step w (start id)) (abort id cause)).rows ≡ w.rows)
      × ((step (step w (start id)) (abort id cause)).store ≡ w.store)
put-durable id index input i d cause w g b =
    let p = put_begun id index input i d w g b in
    let c = put_begin-checked w.store index input (i, d) b in
    rw p.0 (
      unfold step in
      rw p.1 (
        unfold finish fail reply wait in
        (
          refl,
          λ j. durable-set w.store.length i d w.rows j (row_of w.store d) refl c.1,
          refl,
          refl,
          refl,
        )))
