-- ===== src/StateWindow/Tests.antt =====
-- A small state, whose one range comes after the stream waits for it.
use my.Base.{◌≡◌, refl, true, some, none, List, ℕ, [], ◌∷◌}
use my.StateWindow.{
  Event, pulled, resumed, aborted, answered, stop, has_room, request, fill_for, find, remove,
  resolve, settle, release, on_answer, on_pull, enqueue, hand_on, take_first, on_resume, step, run,
  create,
}
use my.StateWindow.Streams.{Streams, run-Streams}

abbrev file : List ℕ
file = 5 ∷ 6 ∷ 7 ∷ []

abbrev events : List Event
events = pulled ∷ answered 0 (some file) ∷ resumed ∷ pulled ∷ []

run_closes : (run events (create 3)).closed ≡ true
unfolding run step on_pull fill_for has_room request on_answer find remove release settle resolve
    on_resume take_first hand_on enqueue
run_closes = refl

-- Three ranges are requested at once, and the read is aborted before one of them fails.
run_aborted :
    (run (pulled ∷ aborted ∷ answered 0 none ∷ resumed ∷ []) (create 600000)).errored ≡ true
unfolding run step on_pull fill_for has_room request on_answer find remove release settle stop
    on_resume
run_aborted = refl

run-Streams_example : Streams file (run events (create 3))
run-Streams_example = run-Streams file events (tt, ((λ _. refl), (tt, (tt, tt))))
