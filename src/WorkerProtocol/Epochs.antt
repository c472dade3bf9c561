-- ===== src/WorkerProtocol/Epochs.antt =====
-- worker-protocol.js: a request that has been cancelled before its turn is not executed.
use my.Base.{
  ℕ, ◌+◌, ◌<◌, ◌==◌, ◌≡◌, refl, sym, ap, ◌∙◌, true, false, Option, none, some, List, [], ◌∷◌, ◌++◌,
  ◌⊎◌, inl, inr, if◌then◌else◌, if_cases, arith,
}
use mathlib.Core.Path.{subst}
use my.Base.Failure.{Code, cancelled}
use my.WorkerProtocol.{
  Request, Call, on_request, on_cancelled, on_cancel, execute, reply, Protocol, Event, cancel,
  store, configure, request, initialized, resolved, rejected, is_cancelled, refuse, activate, start,
  start_idle, advance, aborts, resolve, reject, step,
}

-- How often the `execute` of a request has been called.
abbrev pub executions : ℕ → List Call → ℕ
executions id [] = 0
executions id (execute i ∷ cs) = (if i == id then 1 else 0) + executions id cs
executions id (_ ∷ cs) = executions id cs

-- A request of this id and this epoch is in a list.
abbrev pub Queued : ℕ → ℕ → List Request → Type 0
Queued id epoch [] = ⊥
Queued id epoch ((i, e) ∷ rs) = ((i ≡ id) × (e ≡ epoch)) ⊎ Queued id epoch rs

-- The requests that have not had their turn, with the one that a message brings.
abbrev pub queue : Event → List Request → List Request
queue (request id epoch) rs = rs ++ (id, epoch) ∷ []
queue _ rs = rs

-- What holds where the execution of a request starts: it runs, it was waiting, the epoch that is
-- active is the one it came with, and it is not cancelled.
pub record IsStarted (id : ℕ) (rs : List Request) (p : Protocol) : Type 0 where
  pub runs : p.running ≡ some id
  pub queued : Queued id p.active_epoch rs
  pub current : is_cancelled p ≡ false

executions-++ :
    (id : ℕ) (cs ds : List Call) → executions id (cs ++ ds) ≡ executions id cs + executions id ds
executions-++ id [] ds = omega arith
executions-++ id (c ∷ cs) ds = ground (arith, executions-++ id cs ds)

-- A state in which `id` was executed more than `n` times has just started it.
abbrev More : ℕ → ℕ → List Request → Protocol → Type 0
More id n rs p = n < executions id p.calls → IsStarted id rs p

no_more : (id n : ℕ) (rs : List Request) (p : Protocol) → executions id p.calls ≡ n → More id n rs p
no_more id n rs p e l = absurd (omega arith)

-- Calls that execute nothing.
silent :
    (id : ℕ) (cs ds : List Call)
    → executions id ds ≡ 0
    → executions id (cs ++ ds) ≡ executions id cs
silent id cs ds z = omega (arith, executions-++ id cs ds)

refuse-executions :
    (id i : ℕ) (c : Code) (p : Protocol)
    → executions id (refuse i c p).calls ≡ executions id p.calls
unfolding refuse
refuse-executions id i c p =
    if_cases (λ (k : Protocol). executions id k.calls ≡ executions id p.calls) (is_cancelled p) _ _
      (λ _. silent id p.calls (on_cancelled ∷ reply i (some cancelled) ∷ []) refl)
      (λ _. silent id p.calls (reply i (some c) ∷ []) refl)

refuse-waiting : (id : ℕ) (c : Code) (p : Protocol) → (refuse id c p).waiting ≡ p.waiting
unfolding refuse
refuse-waiting id c p =
    if_cases (λ (k : Protocol). k.waiting ≡ p.waiting) (is_cancelled p) _ _ (λ _. refl) (λ _. refl)

executed :
    (id i : ℕ) (cs : List Call) → executions id cs < executions id (cs ++ execute i ∷ []) → i ≡ id
executed id i cs l = ground (arith, executions-++ id cs (execute i ∷ []))

wait :
    (id n : ℕ) (r : Request) (rs : List Request) (p : Protocol)
    → More id n rs p
    → More id n (r ∷ rs) p
wait id n r rs p h l =
    let s = h l in record { runs = s.runs; queued = inr s.queued; current = s.current }

start-More :
    (id n : ℕ) (e : Option Code) (rs : List Request) (p : Protocol)
    → executions id p.calls ≡ n
    → More id n rs (start e rs p)
unfolding start is_cancelled
start-More id n e [] p z = no_more id n [] (record p { waiting = [] }) z
start-More id n (some c) ((i, epoch) ∷ rs) p z =
    wait id n (i, epoch) rs (start (some c) rs (refuse i c p))
      (start-More id n (some c) rs (refuse i c p) (refuse-executions id i c p ∙ z))
start-More id n none ((i, epoch) ∷ rs) p z =
    let k = activate epoch p in
    let z' : executions id k.calls ≡ n = silent id p.calls (on_request ∷ []) refl ∙ z in
    if_cases (More id n ((i, epoch) ∷ rs)) (is_cancelled k) (start none rs (refuse i cancelled k))
      (record k { waiting = rs; running = some i; calls = k.calls ++ execute i ∷ [] })
      (λ _.
        wait id n (i, epoch) rs (start none rs (refuse i cancelled k))
          (start-More id n none rs (refuse i cancelled k)
            (refuse-executions id i cancelled k ∙ z')))
      (λ f l.
        let same =
          executed id i k.calls
            (subst (λ m. m < executions id (k.calls ++ execute i ∷ [])) (sym z') l) in
        record { runs = ap some same; queued = inl (same, refl); current = f })

start_idle-More :
    (id n : ℕ) (o : Option ℕ) (p : Protocol)
    → executions id p.calls ≡ n
    → More id n p.waiting (start_idle o p)
unfolding start_idle
start_idle-More id n (some i) p z = no_more id n p.waiting p z
start_idle-More id n none p z =
    if_cases (More id n p.waiting) p.is_ready _ _ (λ _. start-More id n p.init_error p.waiting p z)
      (λ _. no_more id n p.waiting p z)

advance-More :
    (id n : ℕ) (p : Protocol) → executions id p.calls ≡ n → More id n p.waiting (advance p)
unfolding advance
advance-More id n p z = start_idle-More id n p.running p z

resolve-More :
    (id : ℕ) (o : Option ℕ) (p : Protocol) → More id (executions id p.calls) p.waiting (resolve o p)
unfolding resolve
resolve-More id none p = no_more id _ p.waiting p refl
resolve-More id (some i) p =
    let k : Protocol = record p { running = none; calls = p.calls ++ reply i none ∷ [] } in
    advance-More id _ k (silent id p.calls (reply i none ∷ []) refl)

reject-More :
    (id : ℕ) (o : Option ℕ) (c : Code) (p : Protocol)
    → More id (executions id p.calls) p.waiting (reject o c p)
unfolding reject
reject-More id none c p = no_more id _ p.waiting p refl
reject-More id (some i) c p =
    let k : Protocol = record p { running = none } in
    subst (λ rs. More id (executions id p.calls) rs (advance (refuse i c k))) (refuse-waiting i c k)
      (advance-More id (executions id p.calls) (refuse i c k) (refuse-executions id i c k))

aborts-executions : (id : ℕ) (o : Option ℕ) → executions id (aborts o ++ on_cancel ∷ []) ≡ 0
aborts-executions id none = refl
aborts-executions id (some i) = refl

-- Where a step calls `execute` for a request, whatever the state and whether another request has just
-- settled: it is the one that runs after the step, it was waiting or has come with the step, the
-- active epoch is the one it came with, and it is not cancelled, neither by a message nor in the
-- shared buffer.
pub step-starts :
    (p : Protocol) (e : Event) (id : ℕ)
    → executions id p.calls < executions id (step p e).calls
    → IsStarted id (queue e p.waiting) (step p e)
unfolding step
step-starts p (cancel epoch) id l =
    no_more id (executions id p.calls) p.waiting (step p (cancel epoch))
      (silent id p.calls (aborts p.running ++ on_cancel ∷ []) (aborts-executions id p.running)) l
step-starts p (store epoch) id l = no_more id _ p.waiting (step p (store epoch)) refl l
step-starts p (configure b) id l = no_more id _ p.waiting (step p (configure b)) refl l
step-starts p (request i epoch) id l =
    advance-More id _ (record p { waiting = p.waiting ++ (i, epoch) ∷ [] }) refl l
step-starts p (initialized e) id l =
    advance-More id _ (record p { is_ready = true; init_error = e }) refl l
step-starts p resolved id l = resolve-More id p.running p l
step-starts p (rejected c) id l = reject-More id p.running c p l
