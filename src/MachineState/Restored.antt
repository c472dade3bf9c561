-- ===== src/MachineState/Restored.antt =====
-- machine-state.js: a restoration that fails undoes what it made.
use my.Base.{arith, ◌≡◌, refl, sym, Bool, true, false, not, ◌&&◌, List, [], ◌∷◌, ◌++◌}
use mathlib.Core.Path.{subst}
use my.Base.Failure.{Code, ok, err}
use my.MachineState.{
  Reply, Call, stop_machine, drain_adapter, listen, prepare_state, create_adapter, create_machine,
  restore_state, commit_state, Progress, did, Outcome, after, same, start, Commit, refused, late,
  taken, commit, RestoreAnswers, holds, restore_prepared, restore_drained, restore_begun,
  restore_ended, restore,
}
use my.MachineState.Ends.{Settled, Even, Even-snoc, Undone-end, Committed-end}

-- The outcome before `finally` leads to one that is settled.
record Leads (resumes replaced : Bool) (out : Outcome) : Type 0 where
  settled : Settled resumes replaced (restore_ended resumes out)

after-Leads :
    (resumes replaced : Bool) (r : Reply) (change : Progress → Progress) (next : Progress → Outcome)
    (p : Progress)
    → ((c : Code) → Leads resumes replaced (p, err c))
    → Leads resumes replaced (next (change p))
    → Leads resumes replaced (after r change next p)
unfolding after
after-Leads resumes replaced (ok t) change next p e h = h
after-Leads resumes replaced (err c) change next p e h = e c

-- Whether the disk is replaced by a call that is rejected.
abbrev pub is_late : Commit → Bool
is_late (late c) = true
is_late _ = false

module _ (resumes : Bool) (a : RestoreAnswers) where
  -- The progress with these calls fails.
  fails :
      (s d m snap : Bool) (cs : List Call)
      → Even s d m false cs
      → (c : Code)
      → Leads resumes (is_late a.committed) (
        record {
          prepared = s;
          has_adapter = d;
          has_candidate = m;
          committed = false;
          snapshot_ready = snap;
          calls = cs;
        },
        err c,
      )
  fails s d m snap cs h c = record {
    settled = Undone-end resumes (is_late a.committed) s d m false snap cs (omega arith) h;
  }

  commit-Leads :
      (c : Commit) (cs : List Call)
      → Even true true true false cs
      → Leads resumes (is_late c) (
          commit c (record {
            prepared = true;
            has_adapter = true;
            has_candidate = true;
            committed = false;
            snapshot_ready = true;
            calls = cs;
          }))
  unfolding commit
  commit-Leads (refused c) cs h = record {
    settled = Undone-end resumes false true true true false true cs (omega arith) h;
  }
  commit-Leads (late c) cs h = record {
    settled =
        Undone-end resumes true true true true true true (cs ++ commit_state ∷ []) (omega arith)
          (Even-snoc h commit_state true true true true refl refl refl refl refl);
  }
  commit-Leads taken cs h = record {
    settled =
        Committed-end resumes true true true (cs ++ commit_state ∷ [])
          (Even-snoc h commit_state true true true true refl refl refl refl refl);
  }

  restored-Leads :
      (cs : List Call)
      → Even true true true false cs
      → Leads resumes (is_late a.committed) (
          after a.checked_created same
            (after a.restored (did restore_state) (
              after a.checked_restored same (
                after
                  (holds a.media_empty)
                  same
                  (after a.drained_new (did drain_adapter) (commit a.committed)))))
            (record {
              prepared = true;
              has_adapter = true;
              has_candidate = true;
              committed = false;
              snapshot_ready = true;
              calls = cs;
            }))
  restored-Leads cs h =
      let h1 = Even-snoc h restore_state true true true false refl refl refl refl refl in
      let h2 = Even-snoc h1 drain_adapter true true true false refl refl refl refl refl in
      let f1 = fails true true true true (cs ++ restore_state ∷ []) h1 in
      after-Leads resumes (is_late a.committed) _ _ _ _ (fails true true true true cs h) (
        after-Leads resumes (is_late a.committed) _ _ _ _ (fails true true true true cs h) (
          after-Leads resumes (is_late a.committed) _ _ _ _ f1 (
            after-Leads resumes (is_late a.committed) _ _ _ _ f1 (
              after-Leads resumes (is_late a.committed) _ _ _ _ f1
                (commit-Leads a.committed ((cs ++ restore_state ∷ []) ++ drain_adapter ∷ []) h2)))))

  restore_prepared-Leads :
      (cs : List Call)
      → Even true false false false cs
      → Leads resumes (is_late a.committed) (
          restore_prepared a (record {
            prepared = true;
            has_adapter = false;
            has_candidate = false;
            committed = false;
            snapshot_ready = false;
            calls = cs;
          }))
  unfolding restore_prepared
  restore_prepared-Leads cs h =
      let h1 = Even-snoc h create_adapter true true false false refl refl refl refl refl in
      let h2 = Even-snoc h1 create_machine true true true false refl refl refl refl refl in
      after-Leads resumes (is_late a.committed) _ _ _ _ (fails true false false false cs h) (
        after-Leads resumes (is_late a.committed) _ _ _ _ (fails true false false false cs h) (
          after-Leads resumes (is_late a.committed) _ _ _ _
            (fails true true false true (cs ++ create_adapter ∷ []) h1)
            (restored-Leads ((cs ++ create_adapter ∷ []) ++ create_machine ∷ []) h2)))

  restore_drained-Leads :
      (cs : List Call)
      → Even false false false false cs
      → Leads resumes (is_late a.committed) (
          restore_drained a (record {
            prepared = false;
            has_adapter = false;
            has_candidate = false;
            committed = false;
            snapshot_ready = false;
            calls = cs;
          }))
  unfolding restore_drained
  restore_drained-Leads cs h =
      let h1 = Even-snoc h listen false false false false refl refl refl refl refl in
      let h2 = Even-snoc h1 prepare_state true false false false refl refl refl refl refl in
      after-Leads resumes (is_late a.committed) _ _ _ _ (fails false false false false cs h) (
        after-Leads resumes (is_late a.committed) _ _ _ _
          (fails false false false false (cs ++ listen ∷ []) h1)
          (after-Leads resumes (is_late a.committed) _ _ _ _
            (fails true false false false ((cs ++ listen ∷ []) ++ prepare_state ∷ []) h2)
            (restore_prepared-Leads ((cs ++ listen ∷ []) ++ prepare_state ∷ []) h2)))

  restore_begun-Leads : (b : Bool) → Leads resumes (is_late a.committed) (restore_begun b a start)
  unfolding restore_begun
  restore_begun-Leads false =
      restore_drained-Leads []
        (record { states = refl; adapters = refl; machines = refl; commit = refl; ended = refl })
  restore_begun-Leads true =
      let h : Even false false false false [] = record {
        states = refl;
        adapters = refl;
        machines = refl;
        commit = refl;
        ended = refl;
      } in
      let h1 = Even-snoc h stop_machine false false false false refl refl refl refl refl in
      let h2 = Even-snoc h1 drain_adapter false false false false refl refl refl refl refl in
      after-Leads resumes (is_late a.committed) _ _ _ _ (fails false false false false [] h) (
        after-Leads resumes (is_late a.committed) _ _ _ _
          (fails false false false false (stop_machine ∷ []) h1)
          (restore_drained-Leads (stop_machine ∷ drain_adapter ∷ []) h2))

-- A restoration that is not cancelled before it begins, whatever its calls answer: if it succeeds it
-- has committed the state once, and has ended no emulator, adapter or state and not run the old
-- machine; if it fails, every emulator and every disk adapter that it made and every state that it
-- prepared is ended, as often as it was made, the old machine is run again, once, exactly if there is
-- one that ran and whose adapter has not failed, and the disk has been replaced by that of the state
-- never, but where commitState is rejected after it did so, and then at most once.
pub restore-Settled :
    (has_current running failed : Bool) (a : RestoreAnswers)
    → a.checked ≡ ok tt
    → Settled
        (has_current && running && not failed)
        (is_late a.committed)
        (restore has_current running failed a)
unfolding restore after
restore-Settled has_current running failed a e =
    subst
      (λ r. Settled (has_current && running && not failed) (is_late a.committed) (
        after r same
          (λ p.
            restore_ended (has_current && running && not failed) (restore_begun has_current a p))
          start))
      (sym e) (restore_begun-Leads (has_current && running && not failed) a has_current).settled
