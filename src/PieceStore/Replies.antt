-- ===== src/PieceStore/Replies.antt =====
-- torrent-store.js: each call gets one reply.
use my.Base.{
  ℕ, ◌+◌, ◌≡◌, refl, Option, none, some, List, [], ◌∷◌, ◌++◌, arith, ltb, ◌==◌, if_cases,
  if◌then◌else◌,
}
use my.Base.Failure.{ok, err, Result, enoent, storage_closed}
use my.Base.JsMap
use my.Base.JsMap.{JsMap}
use my.PieceStore.{Bytes, Cause, remember, touch, slice, failure_code}
use my.PieceStore.World.{
  Request, put, get, Task, queued, writing, reading, Reply, stored, piece, World, Event, submit,
  start, commit, abort, close, finish_close, clear, reply, wait, perform, found, put_checked,
  get_checked, begin, begin_task, loaded, finish, fail, end_close, step, run,
}

abbrev reply_count : ℕ → List (ℕ × Result Reply) → ℕ
reply_count id [] = 0
reply_count id ((k, r) ∷ rs) = (if k == id then 1 else 0) + reply_count id rs

abbrev pending_count {ℓ} : {A : Type ℓ} → Option A → ℕ
pending_count none = 0
pending_count (some t) = 1

reply_count-append :
    (id k : ℕ) (r : Result Reply) (rs : List (ℕ × Result Reply))
    → reply_count id (rs ++ (k, r) ∷ []) ≡ reply_count id rs + (if k == id then 1 else 0)
reply_count-append id k r [] = ground arith
reply_count-append id k r ((j, q) ∷ rs) = omega (arith, reply_count-append id k r rs)

-- Each call has been answered once or is in progress, and no other call has been answered.
abbrev pub IsAnswered : World → Type 0
IsAnswered w =
    (id : ℕ)
    → reply_count id w.replies + pending_count (JsMap.get id w.pending)
      ≡ (if ltb id w.next then 1 else 0)

reply-IsAnswered :
    (id : ℕ) (r : Result Reply) (t : Task) (w : World)
    → JsMap.get id w.pending ≡ some t
    → IsAnswered w
    → IsAnswered (reply id r w)
unfolding reply
reply-IsAnswered id r t w g h k =
    ground (arith, h k, reply_count-append k id r w.replies, JsMap.get-delete id k w.pending)

wait-IsAnswered :
    (id : ℕ) (t u : Task) (w : World)
    → JsMap.get id w.pending ≡ some t
    → IsAnswered w
    → IsAnswered (wait id u w)
unfolding wait
wait-IsAnswered id t u w g h k = ground (arith, h k, JsMap.get-set id k u w.pending)

perform-IsAnswered : (r : Request) (w : World) → IsAnswered w → IsAnswered (perform r w)
unfolding perform wait
perform-IsAnswered r w h k = ground (
  arith,
  h k,
  reply_count-append k w.next (err storage_closed) w.replies,
  JsMap.get-set w.next k (queued r) w.pending,
)

loaded-IsAnswered :
    (id i from len : ℕ) (o : Option Bytes) (t : Task) (w : World)
    → JsMap.get id w.pending ≡ some t
    → IsAnswered w
    → IsAnswered (loaded id (i, from, len) o w)
unfolding loaded
loaded-IsAnswered id i from len none t w g h = reply-IsAnswered id (err enoent) t w g h
loaded-IsAnswered id i from len (some d) t w g h =
    reply-IsAnswered id (ok (piece (slice from len d))) t
      (record w { store = remember i d w.store }) g h

put_checked-IsAnswered :
    (id : ℕ) (r : Result (ℕ × Bytes)) (t : Task) (w : World)
    → JsMap.get id w.pending ≡ some t
    → IsAnswered w
    → IsAnswered (put_checked id r w)
unfolding put_checked
put_checked-IsAnswered id (err c) t w g h = reply-IsAnswered id (err c) t w g h
put_checked-IsAnswered id (ok (i, d)) t w g h = wait-IsAnswered id t (writing i d) w g h

found-IsAnswered :
    (id i n from len : ℕ) (o : Option Bytes) (t : Task) (w : World)
    → JsMap.get id w.pending ≡ some t
    → IsAnswered w
    → IsAnswered (found id (i, n, from, len) o w)
unfolding found
found-IsAnswered id i n from len none t w g h = wait-IsAnswered id t (reading i n from len) w g h
found-IsAnswered id i n from len (some d) t w g h =
    reply-IsAnswered id (ok (piece (slice from len d))) t (record w { store = touch i d w.store }) g
      h

get_checked-IsAnswered :
    (id : ℕ) (r : Result (ℕ × ℕ × ℕ × ℕ)) (t : Task) (w : World)
    → JsMap.get id w.pending ≡ some t
    → IsAnswered w
    → IsAnswered (get_checked id r w)
unfolding get_checked
get_checked-IsAnswered id (err c) t w g h = reply-IsAnswered id (err c) t w g h
get_checked-IsAnswered id (ok (i, n, from, len)) t w g h =
    found-IsAnswered id i n from len _ t w g h

begin-IsAnswered :
    (id : ℕ) (r : Request) (t : Task) (w : World)
    → JsMap.get id w.pending ≡ some t
    → IsAnswered w
    → IsAnswered (begin id r w)
unfolding begin
begin-IsAnswered id (put index input) t w g h = put_checked-IsAnswered id _ t w g h
begin-IsAnswered id (get index offset count) t w g h = get_checked-IsAnswered id _ t w g h

-- A step of the call `id`, whose task is `t`.
task_step-IsAnswered :
    (id : ℕ) (t : Option Task) (cause : Cause) (w : World)
    → JsMap.get id w.pending ≡ t
    → IsAnswered w
    → IsAnswered (begin_task id t w) × IsAnswered (finish id t w) × IsAnswered (fail id cause t w)
unfolding begin_task finish fail
task_step-IsAnswered id none cause w g h = (h, h, h)
task_step-IsAnswered id (some (queued r)) cause w g h =
    (begin-IsAnswered id r (queued r) w g h, h, h)
task_step-IsAnswered id (some (writing i d)) cause w g h = (
  h,
  reply-IsAnswered id (ok stored) (writing i d) _ g h,
  reply-IsAnswered id (err (failure_code cause)) (writing i d) w g h,
)
task_step-IsAnswered id (some (reading i n from len)) cause w g h = (
  h,
  loaded-IsAnswered id i from len _ (reading i n from len) w g h,
  reply-IsAnswered id (err (failure_code cause)) (reading i n from len) w g h,
)

end_close-IsAnswered : (ts : JsMap Task) (w : World) → IsAnswered w → IsAnswered (end_close ts w)
unfolding end_close
end_close-IsAnswered [] w h = if_cases IsAnswered w.store.closed _ _ (λ _. h) (λ _. h)
end_close-IsAnswered (t ∷ ts) w h = h

pub step-IsAnswered : (e : Event) (w : World) → IsAnswered w → IsAnswered (step w e)
unfolding step
step-IsAnswered (submit r) w h = perform-IsAnswered r w h
step-IsAnswered (start id) w h = (task_step-IsAnswered id _ Cause.quota w refl h).0
step-IsAnswered (commit id) w h = (task_step-IsAnswered id _ Cause.quota w refl h).1
step-IsAnswered (abort id c) w h = (task_step-IsAnswered id _ c w refl h).2
step-IsAnswered close w h = h
step-IsAnswered finish_close w h = end_close-IsAnswered _ w h
step-IsAnswered clear w h = if_cases IsAnswered w.ended _ _ (λ _. h) (λ _. h)

-- After any events, each call that was submitted is in progress or has been answered, and then once:
-- also where it was refused, failed, or came after the close.
pub run-IsAnswered : (es : List Event) (w : World) → IsAnswered w → IsAnswered (run w es)
unfolding run
run-IsAnswered [] w h = h
run-IsAnswered (e ∷ es) w h = run-IsAnswered es (step w e) (step-IsAnswered e w h)
