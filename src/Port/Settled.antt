-- ===== src/Port/Settled.antt =====
-- torrent-port.js: each promise of `call` is settled once.
use my.Base.{
  ℕ, ◌+◌, ◌≡◌, ◌≤◌, refl, ap, ◌∙◌, Bool, true, false, ◌&&◌, Option, none, some, List, [], ◌∷◌, ◌++◌,
  leb, ◌==◌, if◌then◌else◌, if_cases, arith,
}
use my.Base.Failure.{Code, transport_error}
use my.Port.{
  Pending, Call, post, abort_posted, notified, progressed, port_closed, resolved, rejected, refused,
  Event, call, answer, progress, message_error, notify, abort, close, Port, emit, has_pending,
  has_listener, forget, submit, start_call, settle, on_answer, on_abort, reject_all, close_with,
  step, run, create,
}

abbrev pub count : ℕ → List ℕ → ℕ
count i [] = 0
count i (k ∷ ks) = (if k == i then 1 else 0) + count i ks

-- The calls that have been settled, and those that have not.
abbrev pub settled : List Call → List ℕ
settled [] = []
settled (resolved id ∷ cs) = id ∷ settled cs
settled (rejected id code ∷ cs) = id ∷ settled cs
settled (_ ∷ cs) = settled cs

abbrev pub ids : List Pending → List ℕ
ids [] = []
ids ((id, listens) ∷ ps) = id ∷ ids ps

count-++ : (i : ℕ) (xs ys : List ℕ) → count i (xs ++ ys) ≡ count i xs + count i ys
count-++ i [] ys = omega arith
count-++ i (x ∷ xs) ys = omega (arith, count-++ i xs ys)

ids-++ : (ps qs : List Pending) → ids (ps ++ qs) ≡ ids ps ++ ids qs
ids-++ [] qs = refl
ids-++ ((id, l) ∷ ps) qs = ap (λ t. id ∷ t) (ids-++ ps qs)

settled-++ : (cs ds : List Call) → settled (cs ++ ds) ≡ settled cs ++ settled ds
settled-++ [] ds = refl
settled-++ (resolved id ∷ cs) ds = ap (λ t. id ∷ t) (settled-++ cs ds)
settled-++ (rejected id c ∷ cs) ds = ap (λ t. id ∷ t) (settled-++ cs ds)
settled-++ (post i ∷ cs) ds = settled-++ cs ds
settled-++ (abort_posted i ∷ cs) ds = settled-++ cs ds
settled-++ (notified ∷ cs) ds = settled-++ cs ds
settled-++ (progressed ∷ cs) ds = settled-++ cs ds
settled-++ (port_closed ∷ cs) ds = settled-++ cs ds
settled-++ (refused c ∷ cs) ds = settled-++ cs ds

count-settled :
    (i : ℕ) (cs ds : List Call)
    → count i (settled (cs ++ ds)) ≡ count i (settled cs) + count i (settled ds)
count-settled i cs ds = ap (count i) (settled-++ cs ds) ∙ count-++ i (settled cs) (settled ds)

count-pending :
    (i : ℕ) (ps qs : List Pending) → count i (ids (ps ++ qs)) ≡ count i (ids ps) + count i (ids qs)
count-pending i ps qs = ap (count i) (ids-++ ps qs) ∙ count-++ i (ids ps) (ids qs)

count-forget :
    (i id : ℕ) (ps : List Pending)
    → count i (ids (forget id ps)) ≡ (if id == i then 0 else count i (ids ps))
unfolding forget
count-forget i id [] = ground arith
count-forget i id ((k, l) ∷ ps) = ground (arith, count-forget i id ps)

has_pending_le : (id : ℕ) (ps : List Pending) → has_pending id ps ≡ true → 1 ≤ count id (ids ps)
unfolding has_pending
has_pending_le id [] h = cc
has_pending_le id ((k, l) ∷ ps) h = ground (arith, has_pending_le id ps)

has_listener_le : (id : ℕ) (ps : List Pending) → has_listener id ps ≡ true → 1 ≤ count id (ids ps)
unfolding has_listener
has_listener_le id [] h = cc
has_listener_le id ((k, l) ∷ ps) h = ground (arith, has_listener_le id ps)

settled-reject_all : (c : Code) (ps : List Pending) → settled (reject_all c ps) ≡ ids ps
unfolding reject_all
settled-reject_all c [] = refl
settled-reject_all c ((id, l) ∷ ps) = ap (λ t. id ∷ t) (settled-reject_all c ps)

-- Each call that has an id is either pending or settled, once; once the port is closed, settled.
pub record IsFair (p : Port) : Type 0 where
  pub once :
      (id : ℕ)
      → count id (settled p.calls) + count id (ids p.pending)
        ≡ (if leb 1 id && leb id p.next then 1 else 0)
  pub over : p.closed ≡ true → p.pending ≡ []

emit-IsFair : (c : Call) (p : Port) → settled (c ∷ []) ≡ [] → IsFair p → IsFair (emit c p)
emit-IsFair c p e h = record {
  once = λ i. omega (arith, count-settled i p.calls (c ∷ []), ap (count i) e, h.once i);
  over = h.over;
}

submit-IsFair :
    (l : Bool) (t : Option Code) (p : Port) → p.closed ≡ false → IsFair p → IsFair (submit l t p)
unfolding submit
submit-IsFair l none p o h = record {
  once = λ i. ground (
    arith,
    count-settled i p.calls (post (p.next + 1) ∷ []),
    count-pending i p.pending ((p.next + 1, l) ∷ []),
    h.once i,
  );
  over = λ e. cc;
}
submit-IsFair l (some c) p o h = record {
  once = λ i. ground (arith, count-settled i p.calls (rejected (p.next + 1) c ∷ []), h.once i);
  over = λ e. cc;
}

start_call-IsFair :
    (s : Option (Option Code)) (t : Option Code) (p : Port) → IsFair p → IsFair (start_call s t p)
unfolding start_call
start_call-IsFair (some (some r)) t p h =
    emit-IsFair (refused (if p.closed then transport_error else r)) p refl h
start_call-IsFair (some none) t p h =
    if_cases IsFair p.closed _ _ (λ _. emit-IsFair (refused transport_error) p refl h)
      (λ o. submit-IsFair true t p o h)
start_call-IsFair none t p h =
    if_cases IsFair p.closed _ _ (λ _. emit-IsFair (refused transport_error) p refl h)
      (λ o. submit-IsFair false t p o h)

-- Settling a promise that is pending.
settle_one :
    (id : ℕ) (c : Call) (p : Port)
    → settled (c ∷ []) ≡ id ∷ []
    → 1 ≤ count id (ids p.pending)
    → IsFair p
    → IsFair (emit c (record p { pending = forget id p.pending }))
settle_one id c p e m h = record {
  once = λ i. ground (
    arith,
    count-settled i p.calls (c ∷ []),
    ap (count i) e,
    count-forget i id p.pending,
    h.once i,
  );
  over = λ o. ap (forget id) (h.over o) ∙ (unfold forget in refl);
}

settled-settle : (id : ℕ) (f : Option Code) → settled (settle id f ∷ []) ≡ id ∷ []
settled-settle id none = refl
settled-settle id (some c) = refl

on_answer-IsFair : (id : ℕ) (f : Option Code) (p : Port) → IsFair p → IsFair (on_answer id f p)
unfolding on_answer
on_answer-IsFair id f p h =
    if_cases IsFair (has_pending id p.pending) _ _
      (λ e. settle_one id (settle id f) p (settled-settle id f) (has_pending_le id p.pending e) h)
      (λ _. h)

on_abort-IsFair : (id : ℕ) (r : Code) (p : Port) → IsFair p → IsFair (on_abort id r p)
unfolding on_abort
on_abort-IsFair id r p h =
    if_cases IsFair (has_listener id p.pending) _ _
      (λ e.
        settle_one id (rejected id r) (emit (abort_posted id) p) refl
          (has_listener_le id p.pending e) (emit-IsFair (abort_posted id) p refl h))
      (λ _. h)

close_with-IsFair : (c : Code) (p : Port) → IsFair p → IsFair (close_with c p)
unfolding close_with
close_with-IsFair c p h = record {
  once = λ i. omega (
    arith,
    count-settled i (p.calls ++ reject_all c p.pending) (port_closed ∷ []),
    count-settled i p.calls (reject_all c p.pending),
    ap (count i) (settled-reject_all c p.pending),
    h.once i,
  );
  over = λ _. refl;
}

step-IsFair : (p : Port) (e : Event) → IsFair p → IsFair (step p e)
unfolding step
step-IsFair p (call s t) h = start_call-IsFair s t p h
step-IsFair p (answer id f) h = on_answer-IsFair id f p h
step-IsFair p progress h = emit-IsFair progressed p refl h
step-IsFair p message_error h = close_with-IsFair transport_error p h
step-IsFair p notify h = if_cases IsFair p.closed _ _ (λ _. h) (λ _. emit-IsFair notified p refl h)
step-IsFair p (abort id r) h = on_abort-IsFair id r p h
step-IsFair p (close c) h = close_with-IsFair c p h

run-keeps : (es : List Event) (p : Port) → IsFair p → IsFair (run p es)
unfolding run
run-keeps [] p h = h
run-keeps (e ∷ es) p h = run-keeps es (step p e) (step-IsFair p e h)

-- After any calls, answers, aborts and closings: each call that was given an id, these being the
-- numbers from 1 to the last, has either been settled once or is pending, not both, and no other id
-- has been settled or is pending; and after a closing none is pending.
pub run-IsFair : (es : List Event) → IsFair (run create es)
run-IsFair es =
    run-keeps es create (unfold create in record { once = λ i. ground arith; over = λ _. refl })
