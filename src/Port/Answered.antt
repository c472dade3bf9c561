-- ===== src/Port/Answered.antt =====
-- torrent-port.js: the window answers each request once.
use my.Base.{
  ℕ, ◌+◌, ◌≡◌, refl, ap, ◌∙◌, Bool, true, false, Option, none, some, List, [], ◌∷◌, if_cases, arith,
}
use my.Base.Failure.{Code}
use my.Port.Settled.{count}
use my.Port.Window.{
  Stage, answering, opening, closing_all, Job, cancelled_transport, aborted_job, prefetch_reported,
  storage_cleared, Event, request, finished, abort, cancel, prefetch_failed, close, all_closed,
  Window, has_session, find_job, drop_job, resume, finish, mark_jobs, abort_job, step, run, create,
}
use my.Port.Replies.{
  answered, executed, requested, count-answered, Adds, Adds_refl, after, calm, reply-Adds,
  wait-Adds, execute-Adds, count-drop,
}

resume-Adds :
    (g : Stage) (id : ℕ) (a : Bool) (t f : Option Code) (w : Window)
    → w.closed ≡ false
    → Adds (id ∷ []) w (resume g id a t f w)
unfolding resume
resume-Adds answering id a t f w o = reply-Adds id t w o
resume-Adds opening id a t f w o = reply-Adds id _ w o
resume-Adds closing_all id a t f w o =
    after (id ∷ []) (storage_cleared ∷ []) [] w _ (λ i. refl) (wait-Adds answering id _)

finish-Adds :
    (id : ℕ) (j : Option Job) (t f : Option Code) (w : Window)
    → w.closed ≡ false
    → find_job id w.jobs ≡ j
    → Adds [] w (finish j t f w)
unfolding finish
finish-Adds id none t f w o e = Adds_refl w
finish-Adds id (some j) t f w o e =
    let h = resume-Adds j.stage j.id j.aborted t f (record w { jobs = drop_job j.id w.jobs }) o in
    record {
      total_eq = λ i. omega (arith, h.total_eq i, count-drop i id w.jobs j e);
      closed_eq = h.closed_eq;
    }

executed-mark : (id : ℕ) (js : List Job) → executed (mark_jobs id js) ≡ executed js
unfolding mark_jobs
executed-mark id [] = refl
executed-mark id (j ∷ js) = ap (λ t. j.id ∷ t) (executed-mark id js)

abort-Adds : (j : Option Job) (w : Window) → Adds [] w (abort_job j w)
unfolding abort_job
abort-Adds none w = Adds_refl w
abort-Adds (some j) w = record {
  total_eq = λ i. omega (
    arith,
    count-answered i w.calls (aborted_job j.id ∷ []),
    ap (count i) (executed-mark j.id w.jobs),
  );
  closed_eq = refl;
}

abbrev pub closes : List Event → Bool
closes [] = false
closes (close ∷ es) = true
closes (_ ∷ es) = closes es

step-Adds :
    (w : Window) (e : Event)
    → closes (e ∷ []) ≡ false
    → w.closed ≡ false
    → Adds (requested (e ∷ [])) w (step w e)
unfolding step
step-Adds w (request id op s f) c o =
    if_cases (Adds (id ∷ []) w) w.closed _ _ (λ e. cc) (λ _. execute-Adds op id s f w o)
step-Adds w (finished id t f) c o = finish-Adds id (find_job id w.jobs) t f w o refl
step-Adds w (abort id) c o = abort-Adds (find_job id w.jobs) w
step-Adds w (cancel s) c o =
    if_cases (Adds [] w) (has_session s w.sessions) _ _
      (λ _. calm (cancelled_transport s ∷ []) w.sessions w (λ i. refl)) (λ _. Adds_refl w)
step-Adds w (prefetch_failed s code) c o =
    if_cases (Adds [] w) _ _ _ (λ _. Adds_refl w)
      (λ _. calm (prefetch_reported s code ∷ []) w.sessions w (λ i. refl))
step-Adds w close c o = cc
step-Adds w all_closed c o = if_cases (Adds [] w) w.closed _ _ (λ e. cc) (λ _. Adds_refl w)

-- One event and then the others.
count-requested :
    (i : ℕ) (e : Event) (es : List Event)
    → count i (requested (e ∷ es)) ≡ count i (requested (e ∷ [])) + count i (requested es)
count-requested i (request id op s f) es = omega arith
count-requested i (finished id t f) es = omega arith
count-requested i (abort id) es = omega arith
count-requested i (cancel s) es = omega arith
count-requested i (prefetch_failed s c) es = omega arith
count-requested i close es = omega arith
count-requested i all_closed es = omega arith

closes_split :
    (e : Event) (es : List Event)
    → closes (e ∷ es) ≡ false
    → (closes (e ∷ []) ≡ false) × (closes es ≡ false)
closes_split (request id op s f) es h = (refl, h)
closes_split (finished id t f) es h = (refl, h)
closes_split (abort id) es h = (refl, h)
closes_split (cancel s) es h = (refl, h)
closes_split (prefetch_failed s c) es h = (refl, h)
closes_split close es h = cc
closes_split all_closed es h = (refl, h)

run-Adds :
    (es : List Event) (w : Window)
    → closes es ≡ false
    → w.closed ≡ false
    → Adds (requested es) w (run w es)
unfolding run
run-Adds [] w c o = Adds_refl w
run-Adds (e ∷ es) w c o =
    let s = closes_split e es c in
    let h = step-Adds w e s.0 o in
    let k = run-Adds es (step w e) s.1 (h.closed_eq ∙ o) in
    record {
      total_eq = λ i. omega (arith, k.total_eq i, h.total_eq i, count-requested i e es);
      closed_eq = k.closed_eq ∙ h.closed_eq;
    }

-- While the bridge has not been closed, whatever requests, answers of the transports, aborts and
-- cancellations there have been: each request has been answered or is still executed, as often as it
-- was made, and nothing else is answered.
pub run-answered :
    (es : List Event) (id : ℕ)
    → closes es ≡ false
    → count id (answered (run create es).calls) + count id (executed (run create es).jobs)
      ≡ count id (requested es)
run-answered es id c =
    let h : Adds (requested es) create (run create es) =
      run-Adds es create c (unfold create in refl) in
    h.total_eq id ∙ (unfold create in omega arith)
