-- ===== src/WorkerProtocol/Replies.antt =====
-- worker-protocol.js: each request gets one reply, in the order of the requests.
use my.Base.{ℕ, ◌≡◌, refl, sym, ap, ◌∙◌, true, Option, none, some, List, [], ◌∷◌, ◌++◌, if_cases}
use mathlib.Core.List.{append_assoc, append-nil}
use my.Base.Failure.{Code, cancelled}
use my.WorkerProtocol.{
  Request, Call, on_cancel, on_request, on_cancelled, abort_request, execute, reply, Protocol,
  Event, cancel, store, configure, request, initialized, resolved, rejected, is_cancelled, refuse,
  activate, start, start_idle, advance, aborts, resolve, reject, step, run, create,
}

abbrev pub replied : List Call → List ℕ
replied [] = []
replied (reply id c ∷ cs) = id ∷ replied cs
replied (_ ∷ cs) = replied cs

abbrev pub ids : List Request → List ℕ
ids [] = []
ids (r ∷ rs) = r.0 ∷ ids rs

abbrev pub one : Option ℕ → List ℕ
one none = []
one (some id) = id ∷ []

abbrev pub requested : List Event → List ℕ
requested [] = []
requested (request id epoch ∷ es) = id ∷ requested es
requested (_ ∷ es) = requested es

abbrev line : Protocol → List ℕ
line p = replied p.calls ++ (one p.running ++ ids p.waiting)

replied-++ : (cs ds : List Call) → replied (cs ++ ds) ≡ replied cs ++ replied ds
replied-++ [] ds = refl
replied-++ (reply id c ∷ cs) ds = ap (λ l. id ∷ l) (replied-++ cs ds)
replied-++ (on_cancel ∷ cs) ds = replied-++ cs ds
replied-++ (on_request ∷ cs) ds = replied-++ cs ds
replied-++ (on_cancelled ∷ cs) ds = replied-++ cs ds
replied-++ (abort_request ∷ cs) ds = replied-++ cs ds
replied-++ (execute id ∷ cs) ds = replied-++ cs ds

ids-++ : (rs ss : List Request) → ids (rs ++ ss) ≡ ids rs ++ ids ss
ids-++ [] ss = refl
ids-++ (r ∷ rs) ss = ap (λ l. r.0 ∷ l) (ids-++ rs ss)

-- Calls that answer `new`, and leave the rest of the state.
silent : (cs ds : List Call) → replied ds ≡ [] → replied (cs ++ ds) ≡ replied cs
silent cs ds e = replied-++ cs ds ∙ ap (λ l. replied cs ++ l) e ∙ append-nil (replied cs)

-- What `refuse` does: it answers `id`.
record Refused (id : ℕ) (p k : Protocol) : Type 0 where
  calls : replied k.calls ≡ replied p.calls ++ id ∷ []
  running : k.running ≡ p.running
  waiting : k.waiting ≡ p.waiting

refuse-Refused : (id : ℕ) (c : Code) (p : Protocol) → Refused id p (refuse id c p)
unfolding refuse
refuse-Refused id c p =
    if_cases (Refused id p) (is_cancelled p) _ _
      (λ _. record {
        calls = replied-++ p.calls (on_cancelled ∷ reply id (some cancelled) ∷ []);
        running = refl;
        waiting = refl;
      })
      (λ _. record {
        calls = replied-++ p.calls (reply id (some c) ∷ []);
        running = refl;
        waiting = refl;
      })

-- The line where the requests `rs` wait and none runs.
start-line :
    (e : Option Code) (rs : List Request) (p : Protocol)
    → p.running ≡ none
    → line (start e rs p) ≡ replied p.calls ++ ids rs
unfolding start
start-line e [] p n = rw n refl
start-line (some c) ((id, epoch) ∷ rs) p n =
    let r = refuse-Refused id c p in
    start-line (some c) rs (refuse id c p) (r.running ∙ n)
    ∙ ap (λ l. l ++ ids rs) r.calls
    ∙ append_assoc (replied p.calls) (id ∷ []) (ids rs)
start-line none ((id, epoch) ∷ rs) p n =
    let k = activate epoch p in
    let r = refuse-Refused id cancelled k in
    let same : replied k.calls ≡ replied p.calls = silent p.calls (on_request ∷ []) refl in
    if_cases (λ (q : Protocol). line q ≡ replied p.calls ++ id ∷ ids rs) (is_cancelled k)
      (start none rs (refuse id cancelled k))
      (record k { waiting = rs; running = some id; calls = k.calls ++ execute id ∷ [] })
      (λ _.
        start-line none rs (refuse id cancelled k) (r.running ∙ n)
        ∙ ap (λ l. l ++ ids rs) (r.calls ∙ ap (λ l. l ++ id ∷ []) same)
        ∙ append_assoc (replied p.calls) (id ∷ []) (ids rs))
      (λ _. ap (λ l. l ++ id ∷ ids rs) (silent k.calls (execute id ∷ []) refl ∙ same))

start_idle-line : (o : Option ℕ) (p : Protocol) → p.running ≡ o → line (start_idle o p) ≡ line p
unfolding start_idle
start_idle-line (some id) p e = refl
start_idle-line none p e =
    if_cases (λ (q : Protocol). line q ≡ line p) p.is_ready _ _
      (λ _.
        start-line p.init_error p.waiting p e
        ∙ ap (λ o. replied p.calls ++ (one o ++ ids p.waiting)) (sym e))
      (λ _. refl)

advance-line : (p : Protocol) → line (advance p) ≡ line p
unfolding advance
advance-line p = start_idle-line p.running p refl

resolve-line : (o : Option ℕ) (p : Protocol) → p.running ≡ o → line (resolve o p) ≡ line p
unfolding resolve
resolve-line none p e = refl
resolve-line (some id) p e =
    advance-line (record p { running = none; calls = p.calls ++ reply id none ∷ [] })
    ∙ ap (λ l. l ++ ids p.waiting) (replied-++ p.calls (reply id none ∷ []))
    ∙ append_assoc (replied p.calls) (id ∷ []) (ids p.waiting)
    ∙ ap (λ o. replied p.calls ++ (one o ++ ids p.waiting)) (sym e)

reject-line :
    (o : Option ℕ) (c : Code) (p : Protocol) → p.running ≡ o → line (reject o c p) ≡ line p
unfolding reject
reject-line none c p e = refl
reject-line (some id) c p e =
    let k : Protocol = record p { running = none } in
    let r = refuse-Refused id c k in
    advance-line (refuse id c k)
    ∙ ap (λ l. l ++ (one (refuse id c k).running ++ ids (refuse id c k).waiting)) r.calls
    ∙ ap (λ o. (replied p.calls ++ id ∷ []) ++ (one o ++ ids (refuse id c k).waiting)) r.running
    ∙ ap (λ w. (replied p.calls ++ id ∷ []) ++ ids w) r.waiting
    ∙ append_assoc (replied p.calls) (id ∷ []) (ids p.waiting)
    ∙ ap (λ o. replied p.calls ++ (one o ++ ids p.waiting)) (sym e)

replied-aborts : (o : Option ℕ) → replied (aborts o ++ on_cancel ∷ []) ≡ []
replied-aborts none = refl
replied-aborts (some id) = refl

step-line : (p : Protocol) (e : Event) → line (step p e) ≡ line p ++ requested (e ∷ [])
unfolding step
step-line p (cancel epoch) =
    ap (λ l. l ++ (one p.running ++ ids p.waiting))
      (silent p.calls (aborts p.running ++ on_cancel ∷ []) (replied-aborts p.running))
    ∙ sym (append-nil (line p))
step-line p (store epoch) = sym (append-nil (line p))
step-line p (configure buffer) = sym (append-nil (line p))
step-line p (request id epoch) =
    advance-line (record p { waiting = p.waiting ++ (id, epoch) ∷ [] })
    ∙ ap (λ l. replied p.calls ++ (one p.running ++ l)) (ids-++ p.waiting ((id, epoch) ∷ []))
    ∙ ap (λ l. replied p.calls ++ l) (sym (append_assoc (one p.running) (ids p.waiting) (id ∷ [])))
    ∙ sym (append_assoc (replied p.calls) (one p.running ++ ids p.waiting) (id ∷ []))
step-line p (initialized e) =
    advance-line (record p { is_ready = true; init_error = e }) ∙ sym (append-nil (line p))
step-line p resolved = resolve-line p.running p refl ∙ sym (append-nil (line p))
step-line p (rejected c) = reject-line p.running c p refl ∙ sym (append-nil (line p))

requested-cons :
    (e : Event) (es : List Event) → requested (e ∷ es) ≡ requested (e ∷ []) ++ requested es
requested-cons (request id epoch) es = refl
requested-cons (cancel epoch) es = refl
requested-cons (store epoch) es = refl
requested-cons (configure b) es = refl
requested-cons (initialized e) es = refl
requested-cons resolved es = refl
requested-cons (rejected c) es = refl

run-line : (p : Protocol) (es : List Event) → line (run p es) ≡ line p ++ requested es
unfolding run
run-line p [] = sym (append-nil (line p))
run-line p (e ∷ es) =
    run-line (step p e) es
    ∙ ap (λ l. l ++ requested es) (step-line p e)
    ∙ append_assoc (line p) (requested (e ∷ [])) (requested es)
    ∙ ap (λ l. line p ++ l) (sym (requested-cons e es))

-- Whatever is cancelled, fails or arrives before the Worker is ready: the requests that have been
-- replied to, then the one that runs, then those that wait are the requests made, in their order.
pub run-replied :
    (es : List Event)
    → replied (run create es).calls ++ (one (run create es).running ++ ids (run create es).waiting)
      ≡ requested es
run-replied es = run-line create es ∙ unfold create in refl
