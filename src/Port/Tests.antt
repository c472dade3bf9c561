-- ===== src/Port/Tests.antt =====
-- Runs of the two ends of the ciphertext bridge.
use my.Base.{◌+◌, ◌≡◌, refl, false, none, some, List, [], ◌∷◌}
use my.Base.Failure.{cancelled, transport_error}
use my.Port.{
  Event, call, answer, abort, close, post, abort_posted, resolved, rejected, refused, port_closed,
  has_pending, has_listener, forget, submit, start_call, on_answer, on_abort, reject_all,
  close_with, step, run, create,
}
use my.Port.Settled.{count, IsFair, run-IsFair}
use my.Port.Window
use my.Port.Replies.{answered, executed, requested}
use my.Port.Answered.{run-answered}

-- Three calls: one is answered, one aborted, and one rejected by the closing.
abbrev calls : List Event
calls =
    call none none
    ∷ call (some none) none
    ∷ call none none
    ∷ answer 1 none
    ∷ abort 2 cancelled
    ∷ answer 2 none
    ∷ close transport_error
    ∷ call none none
    ∷ []

calls_settled :
    (run create calls).calls
    ≡ post 1
      ∷ post 2
      ∷ post 3
      ∷ resolved 1
      ∷ abort_posted 2
      ∷ rejected 2 cancelled
      ∷ rejected 3 transport_error
      ∷ port_closed
      ∷ refused transport_error
      ∷ []
unfolding run step create start_call submit on_answer on_abort has_pending has_listener forget
    close_with reject_all
calls_settled = refl

run-IsFair_example : IsFair (run create calls)
run-IsFair_example = run-IsFair calls

-- A session is made and read, and its metadata are aborted while it opens.
abbrev requests : List Window.Event
requests =
    Window.request 1 (Window.create_session false) (some 0) none
    ∷ Window.request 2 Window.read (some 0) none
    ∷ Window.request 3 Window.metadata (some 0) none
    ∷ Window.abort 3
    ∷ Window.finished 3 none none
    ∷ Window.request 4 Window.read (some 7) none
    ∷ []

requests_answered :
    (Window.run Window.create requests).calls
    ≡ Window.created 0
      ∷ Window.replied 1 none
      ∷ Window.asked 0 Window.read 2
      ∷ Window.asked 0 Window.metadata 3
      ∷ Window.aborted_job 3
      ∷ Window.replied 3 (some cancelled)
      ∷ Window.replied 4 (some transport_error)
      ∷ []
unfolding Window.run Window.step Window.create Window.execute Window.execute_for Window.create_for
    Window.dispatch Window.reply Window.wait Window.has_session Window.find_job Window.drop_job
    Window.finish Window.resume Window.abort_job Window.mark_jobs
requests_answered = refl

run-answered_example :
    count 2 (answered (Window.run Window.create requests).calls)
      + count 2 (executed (Window.run Window.create requests).jobs)
    ≡ count 2 (requested requests)
run-answered_example = run-answered requests 2 refl
