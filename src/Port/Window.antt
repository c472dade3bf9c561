-- ===== src/Port/Window.antt =====
-- `WindowTorrentPort` of torrent-port.js, which answers the Worker's requests by the transports of
-- the sessions. Its requests are executed side by side; a wait for a transport ends in a later
-- event. The requests have ids that differ, as `TorrentPort` gives them.
use my.Base.{
  ℕ, Bool, true, false, ◌||◌, Option, none, some, List, [], ◌∷◌, ◌++◌, ◌==◌, if◌then◌else◌,
}
use my.Base.Failure.{Code, transport_error, cancelled}

pub data Op : Type 0 where
  -- with `sourcesPending`
  create_session : Bool → Op
  clear_storage sources open_torrent metadata read recover prefetch_startup background stop_prefetch
        prefetch stats :
      Op
  clear close_session unknown : Op

-- What a request waits for: its answer, the opening of the torrent whose metadata it asks for, or the
-- closing of every transport before the storage is cleared.
pub data Stage : Type 0 where
  answering opening closing_all : Stage

pub record Job : Type 0 where
  pub id : ℕ
  pub aborted : Bool
  pub stage : Stage

pub data Call : Type 0 where
  replied : ℕ → Option Code → Call
  -- a method of a transport, for a request
  asked : ℕ → Op → ℕ → Call
  created deferred closed_transport cancelled_transport : ℕ → Call
  aborted_job : ℕ → Call
  prefetch_reported : ℕ → Code → Call
  storage_cleared port_closed : Call

pub data Event : Type 0 where
  -- with the session that it names, if it names one, and the error of the method that it calls
  -- and need not wait for
  request : ℕ → Op → Option ℕ → Option Code → Event
  -- what a request waited for is there or has failed; with the error of a method called next
  finished : ℕ → Option Code → Option Code → Event
  abort : ℕ → Event
  cancel : ℕ → Event
  prefetch_failed : ℕ → Code → Event
  close all_closed : Event

pub record Window : Type 0 where
  pub sessions : List ℕ
  pub jobs : List Job
  pub closed : Bool
  pub calls : List Call

abbrev pub emit : Call → Window → Window
emit c w = record w { calls = w.calls ++ c ∷ [] }

unfoldable pub has_session : ℕ → List ℕ → Bool
has_session s [] = false
has_session s (k ∷ ks) = if k == s then true else has_session s ks

unfoldable pub delete_session : ℕ → List ℕ → List ℕ
delete_session s [] = []
delete_session s (k ∷ ks) = let rest = delete_session s ks in if k == s then rest else k ∷ rest

-- The end of a request. A postMessage that throws is left out.
unfoldable pub reply : ℕ → Option Code → Window → Window
reply id failed w = if w.closed then w else emit (replied id failed) w

-- The request goes on later.
unfoldable pub wait : Stage → ℕ → Window → Window
wait stage id w = record w {
  jobs = w.jobs ++ (record { id = id; aborted = false; stage = stage }) ∷ [];
}

unfoldable pub close_each : List ℕ → List Call
close_each [] = []
close_each (s ∷ ss) = closed_transport s ∷ close_each ss

unfoldable pub create_for : Bool → ℕ → ℕ → Option Code → Window → Window
create_for pending id s (some code) w =
    reply id (some (if has_session s w.sessions then transport_error else code)) w
create_for pending id s none w =
    let w' = emit (created s) w in
    let w'' = if pending then emit (deferred s) w' else w' in
    if has_session s w.sessions
    then reply id (some transport_error) w
    else reply id none (record w'' { sessions = w.sessions ++ s ∷ [] })

-- The switch of `execute`, for a session that there is.
unfoldable pub dispatch : Op → ℕ → ℕ → Option Code → Window → Window
dispatch sources id s failed w = reply id failed (emit (asked s sources id) w)
dispatch background id s failed w = reply id failed (emit (asked s background id) w)
dispatch stats id s failed w = reply id failed (emit (asked s stats id) w)
dispatch prefetch id s failed w = reply id none (emit (asked s prefetch id) w)
dispatch metadata id s failed w = wait opening id (emit (asked s metadata id) w)
dispatch close_session id s failed w =
    wait answering id
      (emit (closed_transport s) (record w { sessions = delete_session s w.sessions }))
dispatch unknown id s failed w = reply id (some transport_error) w
dispatch op id s failed w = wait answering id (emit (asked s op id) w)

-- execute(op,args,signal), up to its first wait.
unfoldable pub execute_for : Op → ℕ → ℕ → Option Code → Window → Window
execute_for clear_storage id s failed w =
    wait closing_all id (record w { calls = w.calls ++ close_each w.sessions })
execute_for (create_session pending) id s failed w = create_for pending id s failed w
execute_for op id s failed w =
    if has_session s w.sessions
    then dispatch op id s failed w
    else reply id (some transport_error) w

unfoldable pub execute : Op → ℕ → Option ℕ → Option Code → Window → Window
execute op id none failed w = reply id (some transport_error) w
execute op id (some s) failed w = execute_for op id s failed w

-- The request of an id, and the others.
unfoldable pub find_job : ℕ → List Job → Option Job
find_job id [] = none
find_job id (j ∷ js) = if j.id == id then some j else find_job id js

unfoldable pub drop_job : ℕ → List Job → List Job
drop_job id [] = []
drop_job id (j ∷ js) = let rest = drop_job id js in if j.id == id then js else j ∷ rest

-- `metadata` once the torrent is open.
abbrev metadata_error : Option Code → Bool → Option Code → Option Code
metadata_error (some code) aborted failed = some code
metadata_error none true failed = some cancelled
metadata_error none false failed = failed

unfoldable pub resume : Stage → ℕ → Bool → Option Code → Option Code → Window → Window
resume answering id aborted outcome failed w = reply id outcome w
resume opening id aborted outcome failed w = reply id (metadata_error outcome aborted failed) w
resume closing_all id aborted outcome failed w =
    wait answering id (emit storage_cleared (record w { sessions = [] }))

unfoldable pub finish : Option Job → Option Code → Option Code → Window → Window
finish none outcome failed w = w
finish (some j) outcome failed w =
    resume j.stage j.id j.aborted outcome failed (record w { jobs = drop_job j.id w.jobs })

abbrev mark : ℕ → Job → Job
mark id j = record j { aborted = if j.id == id then true else j.aborted }

unfoldable pub mark_jobs : ℕ → List Job → List Job
mark_jobs id [] = []
mark_jobs id (j ∷ js) = mark id j ∷ mark_jobs id js

-- this.requests.get(id)?.abort(...)
unfoldable pub abort_job : Option Job → Window → Window
abort_job none w = w
abort_job (some j) w = emit (aborted_job j.id) (record w { jobs = mark_jobs j.id w.jobs })

unfoldable pub abort_all : List Job → List Job
abort_all [] = []
abort_all (j ∷ js) = record j { aborted = true } ∷ abort_all js

unfoldable pub abort_calls : List Job → List Call
abort_calls [] = []
abort_calls (j ∷ js) = aborted_job j.id ∷ abort_calls js

abbrev is_cancelled : Code → Bool
is_cancelled cancelled = true
is_cancelled _ = false

unfoldable pub step : Window → Event → Window
step w (request id op session failed) = if w.closed then w else execute op id session failed w
step w (finished id outcome failed) = finish (find_job id w.jobs) outcome failed w
step w (abort id) = abort_job (find_job id w.jobs) w
step w (cancel s) = if has_session s w.sessions then emit (cancelled_transport s) w else w
step w (prefetch_failed s code) =
    if w.closed || is_cancelled code then w else emit (prefetch_reported s code) w
step w close = record w {
  closed = true;
  jobs = abort_all w.jobs;
  calls = ((w.calls ++ abort_calls w.jobs) ++ port_closed ∷ []) ++ close_each w.sessions;
}
step w all_closed = if w.closed then record w { sessions = [] } else w

unfoldable pub run : Window → List Event → Window
run w [] = w
run w (e ∷ es) = run (step w e) es

unfoldable pub create : Window
create = record { sessions = []; jobs = []; closed = false; calls = [] }
