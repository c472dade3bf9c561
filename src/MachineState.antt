-- ===== src/MachineState.antt =====
-- src/browser/machine-state.js: saving the state of a machine, and replacing a machine by one that is
-- restored from a state. What each call answers is an argument; an emulator, a disk adapter and a
-- prepared state are counted by the calls that make them and end them.
mod Ends
pub mod Restored
mod Tests
use my.Base.{
  ℕ, ◌*◌, ◌%◌, Bool, true, false, not, ◌&&◌, ◌||◌, Option, none, some, List, [], ◌∷◌, ◌++◌, leb,
  ◌==◌, if◌then◌else◌,
}
use my.Base.Num.{Num, safe_nat}
use my.Base.Failure.{Code, Result, ok, err, other_code}

abbrev pub Reply : Type 0
Reply = Result (Unit {0})

-- A saved configuration: whether its other fields are those that are supported.
pub record Config : Type 0 where
  pub memory_size : Num
  pub vga_memory_size : Num
  pub supported : Bool

abbrev mebibytes : ℕ → ℕ → Option ℕ → Bool
mebibytes low high none = false
mebibytes low high (some n) = leb (low * 1048576) n && leb n (high * 1048576) && n % 1048576 == 0

-- validateConfig(c)
unfoldable pub validate_config : Config → Reply
validate_config c =
    if mebibytes 16 512 (safe_nat c.memory_size)
      && mebibytes 1 16 (safe_nat c.vga_memory_size)
      && c.supported
    then ok tt
    else err other_code

pub data Call : Type 0 where
  stop_machine drain_adapter run_machine save_state listen unlisten : Call
  prepare_state create_adapter create_machine restore_state commit_state : Call
  destroy_machine dispose_adapter discard_state : Call

-- What has been done, and what `finally` needs to know of it.
pub record Progress : Type 0 where
  pub prepared : Bool
  pub has_adapter : Bool
  pub has_candidate : Bool
  pub committed : Bool
  pub snapshot_ready : Bool
  pub calls : List Call

abbrev pub did : Call → Progress → Progress
did c p = record p { calls = p.calls ++ c ∷ [] }

abbrev pub Outcome : Type 0
Outcome = Progress × Reply

-- A call that may fail: what it does if it succeeds, and what comes next.
unfoldable pub after : Reply → (Progress → Progress) → (Progress → Outcome) → Progress → Outcome
after (err c) change next p = (p, err c)
after (ok t) change next p = next (change p)

abbrev pub same : Progress → Progress
same p = p

abbrev pub start : Progress
start = record {
  prepared = false;
  has_adapter = false;
  has_candidate = false;
  committed = false;
  snapshot_ready = false;
  calls = [];
}

-- The answers of a capture, in the order of its calls; `cancelled` ones are those of `check`.
pub record CaptureAnswers : Type 0 where
  pub can_save : Bool
  pub config : Config
  pub checked : Reply
  pub stopped : Reply
  pub drained : Reply
  pub checked_drained : Reply
  pub saved : Reply
  pub checked_saved : Reply
  pub stored : Reply

unfoldable pub capture_stopped : CaptureAnswers → Progress → Outcome
capture_stopped a = after a.drained (did drain_adapter) (
    after a.checked_drained (λ p. record p { snapshot_ready = true })
      (after a.saved (did save_state)
        (after a.checked_saved (did listen) (after a.stored same (λ p. (p, ok tt))))))

abbrev pub resume : Bool → Progress → Progress
resume resumes p = if resumes then did run_machine p else p

-- `finally` of captureMachineState
unfoldable pub capture_end : Bool → Outcome → Outcome
capture_end resumes out =
    (resume resumes (record (did unlisten out.0) { snapshot_ready = false }), out.1)

-- captureMachineState, of a machine that runs or not, whose adapter has failed in the end or not
unfoldable pub capture : CaptureAnswers → Bool → Bool → Outcome
capture a running failed =
    let go = after (validate_config a.config) same (
      after a.checked same (
        after a.stopped (did stop_machine)
          (λ p. capture_end (running && not failed) (capture_stopped a p)))) in
    if a.can_save then go start else (start, err other_code)

-- What becomes of commitState: the disk is not changed, it takes that of the state, or it has taken it
-- and the call is rejected all the same.
pub data Commit : Type 0 where
  refused late : Code → Commit
  taken : Commit

pub record RestoreAnswers : Type 0 where
  pub checked : Reply
  pub stopped : Reply
  pub drained : Reply
  pub checked_drained : Reply
  pub prepared : Reply
  pub checked_prepared : Reply
  -- the version, the running flag and the build of the state
  pub compatible : Bool
  pub config : Config
  pub created : Reply
  pub checked_created : Reply
  pub restored : Reply
  pub checked_restored : Reply
  pub media_empty : Bool
  pub drained_new : Reply
  pub committed : Commit

abbrev pub holds : Bool → Reply
holds b = if b then ok tt else err other_code

-- `await disk.commitState(prepared.token)`: `calls` has it where the disk is that of the state.
unfoldable pub commit : Commit → Progress → Outcome
commit (refused c) p = (p, err c)
commit (late c) p = (did commit_state p, err c)
commit taken p = (record (did commit_state p) { committed = true; snapshot_ready = false }, ok tt)

-- The state is prepared: a machine is made of it and takes the disk.
unfoldable pub restore_prepared : RestoreAnswers → Progress → Outcome
restore_prepared a = after (holds a.compatible) same (
    after (validate_config a.config)
      (λ p. record (did create_adapter p) { has_adapter = true; snapshot_ready = true })
      (after a.created (λ p. record (did create_machine p) { has_candidate = true })
        (after a.checked_created same (
          after a.restored (did restore_state) (
            after a.checked_restored same (
              after (holds a.media_empty) same
                (after a.drained_new (did drain_adapter) (commit a.committed))))))))

unfoldable pub restore_drained : RestoreAnswers → Progress → Outcome
restore_drained a = after a.checked_drained (did listen) (
    after a.prepared (λ p. record (did prepare_state p) { prepared = true })
      (after a.checked_prepared same (restore_prepared a)))

-- with whether there is a machine to replace
unfoldable pub restore_begun : Bool → RestoreAnswers → Progress → Outcome
restore_begun true a =
    after a.stopped (did stop_machine) (after a.drained (did drain_adapter) (restore_drained a))
restore_begun false a = restore_drained a

abbrev pub if_done : Bool → Call → Progress → Progress
if_done b c p = if b then did c p else p

-- `finally` of restoreMachineState
unfoldable pub restore_end : Bool → Progress → Progress
restore_end resumes p =
    let p' = did unlisten p in
    let undone = resume resumes (
      if_done p.prepared discard_state
        (if_done p.has_adapter dispose_adapter (if_done p.has_candidate destroy_machine p'))) in
    if p.committed then p' else undone

abbrev pub restore_ended : Bool → Outcome → Outcome
restore_ended resumes out = (restore_end resumes out.0, out.1)

-- restoreMachineState, with whether there is a machine, whether it runs, and whether its adapter has failed
unfoldable pub restore : Bool → Bool → Bool → RestoreAnswers → Outcome
restore has_current running failed a =
    after a.checked same
      (λ p. restore_ended (has_current && running && not failed) (restore_begun has_current a p))
      start
