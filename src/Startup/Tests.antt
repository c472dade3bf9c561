-- ===== src/Startup/Tests.antt =====
-- Runs of a job for a disk of two pieces, and the theorems at them.
use my.Base.{ℕ, ◌≤◌, ◌≡◌, refl, true, Option, none, some, List, [], ◌∷◌, All, replicate, arith}
use my.Base.Num.{nat}
use my.Base.Failure.{ok, transport_error}
use my.Base.Text.{Text, text_eq}
use my.Ranges.{Range}
use my.Ranges.Profile.{sort, insert}
use my.LoadProfiles.{Origin, state, same_origin}
use my.Startup.Target.{
  Given, prefetch_options, Options, Extent, extent, extents, intervals, merge, merge_from, bytes,
  startup_ranges,
}
use my.Startup.Union.{startup_ranges-total, OnDisk}
use my.Startup.Pieces.{sum_pieces, covered}
use my.Startup.Job.{
  disk_part, Profile, recover, prefetch, on_progress, on_outcome, complete, Report, Event, start,
  prepared, recovered, commit, timeout, failure, validate, progress, profiles, fetched, run, create,
  step, resume, unless_current, current, attempt, attempt_report, share, take_profile, aim, emit,
  emit_totals, report, report_numbers, state_numbers, state_report, take_fetched, try_complete,
  finish, validate_origin, commit_state, caught, find_state,
}
use my.Startup.Limits.{prefetch_options-bounds}
use my.Startup.Once.{IsOnce, outcome-IsOnce}
use my.Startup.Attempts.{IsBounded, attempts-IsBounded}
use my.Startup.Progress.{IsRising, progress_rises}

abbrev disk : ℕ
disk = 300000

-- Two units that overlap in the first piece, and one that crosses into the second.
abbrev ranges : List (Option Range)
ranges = some (0, 1) ∷ none ∷ some (3, 3) ∷ []

abbrev target : List Extent
target = (198, 131196) ∷ (196992, 65598) ∷ []

target_total : startup_ranges disk ranges ≡ ok (target, 300000)
unfolding startup_ranges extents extent intervals sort insert merge merge_from bytes
target_total = refl

startup_ranges-total_example :
    All (OnDisk disk) target
    × (300000 ≡ sum_pieces disk (covered (intervals target)) 2)
    × (300000 ≤ disk)
startup_ranges-total_example =
    startup_ranges-total disk ranges target 300000 2 target_total (omega arith)

abbrev options : Options
options = record { max_attempts = 3; post_restore_budget_ms = 10000; window_pieces = 8 }

abbrev hash : Text
hash = replicate 40 97

abbrev origin : Origin
origin = record { kind = state; sha256 = some (replicate 64 48) }

abbrev profile : Profile
profile = record { origin = origin; ranges = ranges }

abbrev half : Report
half = record {
  info_hash = hash;
  size = nat 100;
  covered_bytes = nat 50;
  startup = some (2, nat 262144, nat 300000);
}

-- The first download fails, and the second completes.
abbrev script : List Event
script =
    start
    ∷ prepared
    ∷ profiles (profile ∷ [])
    ∷ failure transport_error
    ∷ recovered
    ∷ profiles (profile ∷ [])
    ∷ progress half
    ∷ validate origin
    ∷ commit
    ∷ fetched (nat 300000) (nat 300000)
    ∷ timeout
    ∷ []

script_calls :
    (run (create options disk hash true) script).calls
    ≡ prefetch 1 target
      ∷ recover disk_part
      ∷ prefetch 2 target
      ∷ on_progress 262194 300100
      ∷ on_progress 300050 300100
      ∷ on_outcome complete 2
      ∷ []
unfolding startup_ranges extents extent intervals sort insert merge merge_from bytes run step resume
    create unless_current current attempt attempt_report share take_profile aim emit emit_totals
    report report_numbers state_numbers state_report take_fetched try_complete finish
    validate_origin commit_state caught find_state same_origin text_eq
script_calls = refl

outcome-IsOnce_example : IsOnce script (run (create options disk hash true) script)
outcome-IsOnce_example = outcome-IsOnce options disk hash true script

attempts-IsBounded_example : IsBounded options (run (create options disk hash true) script)
attempts-IsBounded_example = attempts-IsBounded options disk hash true script

progress_rises_example : IsRising (run (create options disk hash true) script).calls
progress_rises_example = progress_rises options disk hash true script

abbrev given : Given
given = record {
  known_keys = true;
  scope_ok = true;
  max_attempts = none;
  post_restore_budget_ms = none;
  window_pieces = some (nat 16);
}

defaults :
    prefetch_options given
    ≡ ok (record { max_attempts = 3; post_restore_budget_ms = 10000; window_pieces = 16 })
unfolding prefetch_options
defaults = refl

given-accepted : (1 ≤ 3) × (3 ≤ 3) × (10000 ≤ 60000) × (1 ≤ 16) × (16 ≤ 16)
given-accepted =
    prefetch_options-bounds given
      (record { max_attempts = 3; post_restore_budget_ms = 10000; window_pieces = 16 }) defaults
