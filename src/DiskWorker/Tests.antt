-- ===== src/DiskWorker/Tests.antt =====
-- Runs of the disk Worker.
use my.Base.{ℕ, ◌≤◌, any, length, ◌+◌, ◌≡◌, refl, true, false, none, some, List, [], ◌∷◌}
use my.Base.Num.{Num, nat}
use my.Base.Failure.{ok, err, cancelled}
use my.DiskWorker.{Facts, find_remote, delete_previous, delete_source}
use my.DiskWorker.Execute.{
  Op, unlock_op, open_op, open_remote_op, prepare_state_op, commit_state_op, close_op, run, create,
  execute, guarded, with_vault, switch, close_vault,
}
use my.DiskWorker.Open.{
  Publication, open_publication, unlock, make_identity, open_remote, remote_found, remote_opened,
  first_error, remote_prefetched, open_file, open_opened,
}
use my.DiskWorker.State.{
  prepare_dropped, published_state, state_input, decoded_state, make_candidate, commit_state,
  commit_checked,
}
use my.DiskWorker.Analysis
use my.DiskWorker.Observed.{touches, finish-units}
use my.DiskWorker.Handles.{IsOwned}
use my.DiskWorker.Owned.{run-IsOwned}
use my.DiskWorker.Sources.{IsTidy}
use my.DiskWorker.Closed.{run-IsTidy, open_remote-lost}

abbrev facts : Facts
facts = record { revision = 5; is_dirty = false }

abbrev publication : Publication
publication = record { known = true; scope_ok = true; has_bridge = true; opened = ok tt }

-- A remote disk is opened, a published state becomes its candidate and then the disk's, and another
-- candidate is left when the disk is closed.
abbrev session : List Op
session =
    unlock_op (ok tt)
    ∷ open_remote_op false publication [] (ok tt)
    ∷ prepare_state_op true (some (ok 1)) (ok tt) (ok (record { names_other = false; digest = 9 }))
        (ok tt) facts
    ∷ commit_state_op 1 facts (ok tt) (ok tt)
    ∷ prepare_state_op true none (ok tt) (ok (record { names_other = false; digest = 9 })) (ok tt)
        facts
    ∷ close_op
    ∷ []

session_freed : (run create session).freed ≡ 0 ∷ 2 ∷ 1 ∷ []
unfolding run create execute guarded unlock make_identity with_vault switch open_remote
    open_publication remote_found remote_opened first_error remote_prefetched prepare_dropped
    find_remote delete_previous published_state state_input decoded_state make_candidate
    commit_state commit_checked close_vault delete_source
session_freed = refl

run-IsOwned_example : IsOwned (run create session)
run-IsOwned_example = run-IsOwned session

run-IsTidy_example : IsTidy (run create session)
run-IsTidy_example = run-IsTidy session

abbrev unlocked : List Op
unlocked = unlock_op (ok tt) ∷ open_op (ok tt) ∷ []

open_remote-lost_example :
    ((execute (open_remote_op false publication [] (err cancelled)) (run create unlocked)).1
      ≡ err cancelled)
    × ((execute
          (open_remote_op false publication [] (err cancelled))
          (run create unlocked)).0.current
        ≡ some ((run create unlocked).source_id + 1))
    × ((execute
          (open_remote_op false publication [] (err cancelled))
          (run create unlocked)).0.sources
        ≡ [])
open_remote-lost_example =
    open_remote-lost (run create unlocked) 0 publication cancelled (run-IsTidy unlocked)
      (unfold run create execute guarded unlock make_identity with_vault switch open_file
          open_opened in
        refl)
      (unfold run create execute guarded unlock make_identity with_vault switch open_file
          open_opened in
        refl)
      (unfold run create execute guarded unlock make_identity with_vault switch open_file
          open_opened in
        refl)
      (unfold open_publication in refl)

-- Reads of units 0 and 1, of unit 1 again, of nothing, and past the end.
abbrev reads : List (Num × Num)
reads = (nat 65000, nat 1000) ∷ (nat 70000, nat 512) ∷ (nat 0, nat 0) ∷ (nat 1000000, nat 512) ∷ []

reads_units : (Analysis.finish (Analysis.run (Analysis.create 1000000) reads)).1 ≡ ok (0 ∷ 1 ∷ [])
unfolding Analysis.finish Analysis.run Analysis.create Analysis.observe_range Analysis.observe_units
    Analysis.contains
reads_units = refl

finish-units_example :
    ((u : ℕ) → Analysis.contains u (0 ∷ 1 ∷ []) ≡ any (touches 1000000 u) reads)
    × (length {A = ℕ} (0 ∷ 1 ∷ []) ≤ Analysis.max_analysis_units)
finish-units_example = finish-units 1000000 reads (0 ∷ 1 ∷ []) reads_units
