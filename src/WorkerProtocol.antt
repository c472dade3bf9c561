-- ===== src/WorkerProtocol.antt =====
-- src/disk/web/worker-protocol.js: the requests of the page to the disk Worker, one after the other,
-- their cancellation and their replies. What `execute` does is a pair of events.
pub mod Replies
pub mod Epochs
mod Tests
use my.Base.{
  ℕ, Bool, true, false, not, ◌||◌, Option, none, some, List, [], ◌∷◌, ◌++◌, ◌==◌, if◌then◌else◌,
}
use my.Base.Failure.{Code, cancelled}

-- A message with its `id` and `epoch`.
abbrev pub Request : Type 0
Request = ℕ × ℕ

-- A reply is `none` for a result, or the code of an error.
pub data Call : Type 0 where
  on_cancel on_request on_cancelled abort_request : Call
  execute : ℕ → Call
  reply : ℕ → Option Code → Call

-- `view` is what the shared buffer holds, if there is one; `waiting` is the chain of `sequence`, and
-- `running` the request whose `execute` has not settled.
pub record Protocol : Type 0 where
  pub is_ready : Bool
  pub init_error : Option Code
  pub cancel_epoch : ℕ
  pub active_epoch : ℕ
  pub view : Option ℕ
  pub waiting : List Request
  pub running : Option ℕ
  pub calls : List Call

-- `store` is the page's Atomics.store, and `initialized` the settling of `ready`.
pub data Event : Type 0 where
  cancel store : ℕ → Event
  configure : Option ℕ → Event
  request : ℕ → ℕ → Event
  initialized : Option Code → Event
  resolved : Event
  rejected : Code → Event

abbrev view_differs : Option ℕ → ℕ → Bool
view_differs none epoch = false
view_differs (some v) epoch = not (v == epoch)

-- cancelled()
unfoldable pub is_cancelled : Protocol → Bool
is_cancelled p = not (p.active_epoch == p.cancel_epoch) || view_differs p.view p.active_epoch

-- The handler of a request that threw `code`.
unfoldable pub refuse : ℕ → Code → Protocol → Protocol
refuse id code p =
    if is_cancelled p
    then record p { calls = p.calls ++ on_cancelled ∷ reply id (some cancelled) ∷ [] }
    else record p { calls = p.calls ++ reply id (some code) ∷ [] }

abbrev activate : ℕ → Protocol → Protocol
activate epoch p = record p { active_epoch = epoch; calls = p.calls ++ on_request ∷ [] }

-- The body of a request up to the await of `execute`, and of those after it where it throws.
unfoldable pub start : Option Code → List Request → Protocol → Protocol
start e [] p = record p { waiting = [] }
start (some c) ((id, epoch) ∷ rs) p = start (some c) rs (refuse id c p)
start none ((id, epoch) ∷ rs) p =
    let p' = activate epoch p in
    let rest = start none rs (refuse id cancelled p') in
    if is_cancelled p'
    then rest
    else record p' { waiting = rs; running = some id; calls = p'.calls ++ execute id ∷ [] }

unfoldable pub start_idle : Option ℕ → Protocol → Protocol
start_idle (some id) p = p
start_idle none p = if p.is_ready then start p.init_error p.waiting p else p

unfoldable pub advance : Protocol → Protocol
advance p = start_idle p.running p

abbrev pub aborts : Option ℕ → List Call
aborts none = []
aborts (some id) = abort_request ∷ []

unfoldable pub resolve : Option ℕ → Protocol → Protocol
resolve none p = p
resolve (some id) p = advance (record p { running = none; calls = p.calls ++ reply id none ∷ [] })

unfoldable pub reject : Option ℕ → Code → Protocol → Protocol
reject none c p = p
reject (some id) c p = advance (refuse id c (record p { running = none }))

abbrev stored : Option ℕ → ℕ → Option ℕ
stored none epoch = none
stored (some v) epoch = some epoch

-- handle(data), and the settling of what it waits for
unfoldable pub step : Protocol → Event → Protocol
step p (cancel epoch) = record p {
  cancel_epoch = epoch;
  calls = p.calls ++ (aborts p.running ++ on_cancel ∷ []);
}
step p (store epoch) = record p { view = stored p.view epoch }
step p (configure buffer) = record p { view = buffer }
step p (request id epoch) = advance (record p { waiting = p.waiting ++ (id, epoch) ∷ [] })
step p (initialized e) = advance (record p { is_ready = true; init_error = e })
step p resolved = resolve p.running p
step p (rejected c) = reject p.running c p

unfoldable pub run : Protocol → List Event → Protocol
run p [] = p
run p (e ∷ es) = run (step p e) es

-- The constructor.
unfoldable pub create : Protocol
create = record {
  is_ready = false;
  init_error = none;
  cancel_epoch = 0;
  active_epoch = 0;
  view = none;
  waiting = [];
  running = none;
  calls = [];
}
