-- ===== src/PieceStore/Traces.antt =====
-- What holds of torrent-store.js after any sequence of calls, completions, aborts and closing.
use mathlib.Core.Path.{subst, ap}
use my.Base.{
  ℕ, ◌+◌, ◌≤◌, ◌<◌, ◌≡◌, refl, ◌∙◌, true, false, Option, none, some, List, [], ◌∷◌, length, arith,
  if_cases,
}
use my.Base.Num.{Num}
use my.Base.Failure.{ok, err, Result, enoent}
use my.Base.JsMap
use my.Base.JsMap.{JsMap}
use my.PieceStore.{Bytes, Store, Cause, size_at, size, remember, touch, put_begin, get_range, slice}
use my.PieceStore.Cache.{total}
use my.PieceStore.World.{
  Request, put, get, Task, queued, writing, reading, stored, piece, World, Event, submit, start,
  commit, abort, close, finish_close, clear, perform, found, put_checked, get_checked, begin,
  begin_task, loaded, finish, fail, end_close, step, run,
}
use my.PieceStore.Sound.{
  IsSound-empty, IsChecked, IsChecked-same, IsValid, durable, row_of, SameShape-remember,
  SameShape-touch, remember-IsSound, write-IsSound, touch-IsSound, reply-IsValid, wait-IsValid,
  contents-IsValid, ended_of_pending,
}

pub put_begin-checked :
    (s : Store) (index : Num) (input : Option Bytes) (p : ℕ × Bytes)
    → put_begin s index input ≡ ok p
    → (p.0 < s.count) × (length p.1 ≡ size_at s.length p.0)
unfolding put_begin size
put_begin-checked s index none p h = ground arith
put_begin-checked s index (some d) p h = ground arith

pub get_range-checked :
    (s : Store) (index : Num) (offset count : Option Num) (r : ℕ × ℕ × ℕ × ℕ)
    → get_range s index offset count ≡ ok r
    → (r.0 < s.count) × (r.1 ≡ size_at s.length r.0) × (r.2 + r.3 ≤ r.1)
unfolding get_range size
get_range-checked s index offset count r h = ground arith

numbered : World → World
numbered w = record w { next = w.next + 1 }

numbered-IsValid : (w : World) → IsValid w → IsValid (numbered w)
unfolding numbered
numbered-IsValid w h = record { sound = h.sound; tasks = h.tasks; quiet = h.quiet }

perform-IsValid : (r : Request) (w : World) → IsValid w → IsValid (perform r w)
unfolding perform numbered
perform-IsValid r w h =
    if_cases IsValid w.store.closed _ _
      (λ e. record { sound = h.sound; tasks = h.tasks; quiet = h.quiet })
      (λ e.
        wait-IsValid w.next (queued r) (numbered w) (numbered-IsValid w h) (ground (arith, h.quiet))
          tt)

put_checked-IsValid :
    (id : ℕ) (r : Result (ℕ × Bytes)) (w : World)
    → IsValid w
    → w.ended ≡ false
    → ((p : ℕ × Bytes)
        → r ≡ ok p
        → (p.0 < w.store.count) × (length p.1 ≡ size_at w.store.length p.0))
    → IsValid (put_checked id r w)
unfolding put_checked
put_checked-IsValid id (err c) w h e f = reply-IsValid id (err c) w h
put_checked-IsValid id (ok (i, d)) w h e f = wait-IsValid id (writing i d) w h e (f (i, d) refl)

found-IsValid :
    (id i n from len : ℕ) (o : Option Bytes) (w : World)
    → IsValid w
    → w.ended ≡ false
    → IsChecked w.store (reading i n from len)
    → JsMap.get i w.store.cache ≡ o
    → IsValid (found id (i, n, from, len) o w)
unfolding found
found-IsValid id i n from len none w h e c g = wait-IsValid id (reading i n from len) w h e c
found-IsValid id i n from len (some d) w h e c g =
    reply-IsValid id (ok (piece (slice from len d))) (record w { store = touch i d w.store })
      (contents-IsValid (touch i d w.store) w.rows w h e (SameShape-touch i d w.store)
        (touch-IsSound i d w.store w.rows h.sound g))

get_checked-IsValid :
    (id : ℕ) (r : Result (ℕ × ℕ × ℕ × ℕ)) (w : World)
    → IsValid w
    → w.ended ≡ false
    → ((p : ℕ × ℕ × ℕ × ℕ) → r ≡ ok p → IsChecked w.store (reading p.0 p.1 p.2 p.3))
    → IsValid (get_checked id r w)
unfolding get_checked
get_checked-IsValid id (err c) w h e f = reply-IsValid id (err c) w h
get_checked-IsValid id (ok (i, n, from, len)) w h e f =
    found-IsValid id i n from len (JsMap.get i w.store.cache) w h e (f (i, n, from, len) refl) refl

begin-IsValid :
    (id : ℕ) (r : Request) (w : World) → IsValid w → w.ended ≡ false → IsValid (begin id r w)
unfolding begin
begin-IsValid id (put index input) w h e =
    put_checked-IsValid id (put_begin w.store index input) w h e
      (put_begin-checked w.store index input)
begin-IsValid id (get index offset count) w h e =
    get_checked-IsValid id (get_range w.store index offset count) w h e
      (get_range-checked w.store index offset count)

begin_task-IsValid :
    (id : ℕ) (t : Option Task) (w : World)
    → IsValid w
    → JsMap.get id w.pending ≡ t
    → IsValid (begin_task id t w)
unfolding begin_task
begin_task-IsValid id (some (queued r)) w h g =
    begin-IsValid id r w h (ended_of_pending id (queued r) w h g)
begin_task-IsValid id _ w h g = h

loaded-IsValid :
    (id i from len : ℕ) (o : Option Bytes) (w : World)
    → IsValid w
    → w.ended ≡ false
    → durable w.store.length w.rows i ≡ o
    → IsValid (loaded id (i, from, len) o w)
unfolding loaded
loaded-IsValid id i from len none w h e g = reply-IsValid id (err enoent) w h
loaded-IsValid id i from len (some d) w h e g =
    reply-IsValid id (ok (piece (slice from len d))) (record w { store = remember i d w.store })
      (contents-IsValid (remember i d w.store) w.rows w h e (SameShape-remember i d w.store)
        (remember-IsSound i d w.store w.rows h.sound g))

finish-IsValid :
    (id : ℕ) (t : Option Task) (w : World)
    → IsValid w
    → JsMap.get id w.pending ≡ t
    → IsValid (finish id t w)
unfolding finish
finish-IsValid id (some (writing i d)) w h g =
    let c = h.tasks id (writing i d) g in
    reply-IsValid id (ok stored) _ (
      contents-IsValid (remember i d w.store) (JsMap.set i (row_of w.store d) w.rows) w h
        (ended_of_pending id (writing i d) w h g) (SameShape-remember i d w.store)
        (write-IsSound i d w.store w.rows h.sound c.1))
finish-IsValid id (some (reading i n from len)) w h g =
    let c = h.tasks id (reading i n from len) g in
    loaded-IsValid id i from len _ w h (ended_of_pending id (reading i n from len) w h g) (rw c.1)
finish-IsValid id _ w h g = h

fail-IsValid :
    (id : ℕ) (c : Cause) (t : Option Task) (w : World) → IsValid w → IsValid (fail id c t w)
unfolding fail
fail-IsValid id c (some (writing i d)) w h = reply-IsValid id _ w h
fail-IsValid id c (some (reading i n from len)) w h = reply-IsValid id _ w h
fail-IsValid id c _ w h = h

abbrev emptied : Store → Store
emptied s = record s { cache = []; memory_bytes = 0 }

end_close-IsValid :
    (ts : JsMap Task) (w : World) → IsValid w → w.pending ≡ ts → IsValid (end_close ts w)
unfolding end_close JsMap.get
end_close-IsValid [] w h p =
    if_cases IsValid w.store.closed _ _
      (λ e. record {
        sound = IsSound-empty (emptied w.store) w.rows refl refl;
        tasks = λ id t g. let n : none ≡ some t = subst (λ m. JsMap.get id m ≡ some t) p g in cc;
        quiet = λ _. (e, refl, p);
      })
      (λ e. h)
end_close-IsValid (t ∷ ts) w h p = h

-- Every event, in every order, keeps the invariant.
pub step-IsValid : (e : Event) (w : World) → IsValid w → IsValid (step w e)
unfolding step
step-IsValid (submit r) w h = perform-IsValid r w h
step-IsValid (start id) w h = begin_task-IsValid id _ w h refl
step-IsValid (commit id) w h = finish-IsValid id _ w h refl
step-IsValid (abort id c) w h = fail-IsValid id c _ w h
step-IsValid close w h = record {
  sound = record {
    unique = h.sound.unique;
    exact = h.sound.exact;
    bounded = h.sound.bounded;
    coherent = h.sound.coherent;
  };
  tasks = λ id t g.
      IsChecked-same w.store (record w.store { closed = true }) t refl refl (h.tasks id t g);
  quiet = λ e. (refl, (h.quiet e).1, (h.quiet e).2);
}
step-IsValid finish_close w h = end_close-IsValid _ w h refl
step-IsValid clear w h =
    if_cases IsValid w.ended _ _
      (λ e. record {
        sound =
            IsSound-empty w.store [] (h.quiet e).1
              (h.sound.exact ∙ unfold total in ap total (h.quiet e).1);
        tasks = h.tasks;
        quiet = h.quiet;
      })
      (λ e. h)

-- Any sequence of calls, of completions and aborts in any order, and of closing keeps the invariant:
-- the count of the RAM cache is exact and within the budget, every piece in RAM is the valid piece
-- that the database holds, each call that has been started has had its range checked, and a store
-- whose close has finished has no piece in RAM and no call in progress.
pub run-IsValid : (es : List Event) (w : World) → IsValid w → IsValid (run w es)
unfolding run
run-IsValid [] w h = h
run-IsValid (e ∷ es) w h = run-IsValid es (step w e) (step-IsValid e w h)
