-- ===== src/WorkerProtocol/Tests.antt =====
-- Three requests, of which the second is cancelled while it waits.
use my.Base.{arith, ◌<◌, ◌≡◌, refl, none, some, List, [], ◌∷◌, ◌++◌}
use my.Base.Failure.{cancelled}
use my.WorkerProtocol.{
  on_cancel, on_request, on_cancelled, abort_request, execute, reply, Protocol, Event, cancel,
  request, initialized, is_cancelled, refuse, start, start_idle, advance, resolve, resolved, step,
  run, create,
}
use my.WorkerProtocol.Replies.{replied, ids, one, requested, run-replied}
use my.WorkerProtocol.Epochs.{executions, IsStarted, step-starts}

abbrev script : List Event
script = request 0 0 ∷ initialized none ∷ request 1 0 ∷ cancel 1 ∷ request 2 1 ∷ resolved ∷ []

script_calls :
    (run create script).calls
    ≡ on_request
      ∷ execute 0
      ∷ abort_request
      ∷ on_cancel
      ∷ reply 0 none
      ∷ on_request
      ∷ on_cancelled
      ∷ reply 1 (some cancelled)
      ∷ on_request
      ∷ execute 2
      ∷ []
unfolding run step create advance start_idle start refuse is_cancelled resolve
script_calls = refl

run-replied_example :
    replied (run create script).calls
      ++ (one (run create script).running ++ ids (run create script).waiting)
    ≡ requested script
run-replied_example = run-replied script

-- A request that comes while another one runs, and has its turn when that one settles.
abbrev queued : Protocol
queued = run create (request 0 0 ∷ initialized none ∷ request 1 0 ∷ [])

executed_next : executions 1 queued.calls < executions 1 (step queued resolved).calls
unfolding run step create advance start_idle start refuse is_cancelled resolve
executed_next = omega arith

step-starts_example : IsStarted 1 ((1, 0) ∷ []) (step queued resolved)
unfolding run step create advance start_idle start refuse is_cancelled
step-starts_example = step-starts queued resolved 1 executed_next
