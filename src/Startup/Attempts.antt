-- ===== src/Startup/Attempts.antt =====
-- startup-prefetch.js: the retries of a job are bounded.
use mathlib.Core.Path.{subst}
use my.Base.{ℕ, ◌+◌, ◌≤◌, ◌<◌, ◌≡◌, refl, ◌∙◌, Bool, List, [], ◌∷◌, ◌++◌, if_cases, arith}
use my.Base.Text.{Text}
use my.Startup.Target.{Options}
use my.Startup.Job.{Outcome, complete, Call, prefetch, Job, Event, finish, run, create}
use my.Startup.Keeps.{Kept, IsReady, owed}
use my.Startup.Runs.{run-keeps}

abbrev pub prefetches : List Call → ℕ
prefetches [] = 0
prefetches (prefetch n es ∷ cs) = 1 + prefetches cs
prefetches (_ ∷ cs) = prefetches cs

prefetches-++ : (cs ds : List Call) → prefetches (cs ++ ds) ≡ prefetches cs + prefetches ds
prefetches-++ [] ds = omega arith
prefetches-++ (c ∷ cs) ds = ground (arith, prefetches-++ cs ds)

-- The count of downloads asked for, with the one that the attempt in progress still owes.
pub record IsBounded (options : Options) (j : Job) : Type 0 where
  pub same : j.options ≡ options
  pub counted : prefetches j.calls + owed j.phase ≤ j.attempts
  pub bounded : j.attempts ≤ options.max_attempts

module _ (options : Options) where
  moved :
      (j k : Job)
      → k.options ≡ j.options
      → k.attempts ≡ j.attempts
      → prefetches k.calls + owed k.phase ≤ prefetches j.calls + owed j.phase
      → IsBounded options j
      → IsBounded options k
  moved j k o a l h = record {
    same = o ∙ h.same;
    counted = omega (arith, l, h.counted, a);
    bounded = omega (arith, h.bounded, a);
  }

  quiet :
      (cs : List Call) (c : Call) (w : ℕ)
      → prefetches (c ∷ []) ≡ 0
      → prefetches (cs ++ c ∷ []) + w ≤ prefetches cs + w
  quiet cs c w z = omega (arith, prefetches-++ cs (c ∷ []))

  finish-IsBounded :
      (o : Outcome) (j : Job)
      → (o ≡ complete → IsReady j)
      → IsBounded options j
      → IsBounded options (finish o j)
  unfolding finish
  finish-IsBounded o j r h =
      if_cases (IsBounded options) j.settled _ _ (λ e. h)
        (λ e. moved j _ refl refl (quiet j.calls _ (owed j.phase) refl) h)

  tried :
      (j k : Job)
      → k.options ≡ j.options
      → k.attempts ≡ j.attempts + 1
      → prefetches k.calls + owed k.phase ≤ prefetches j.calls + 1
      → j.attempts < j.options.max_attempts
      → IsBounded options j
      → IsBounded options k
  tried j k o a l m h =
      let m' : j.attempts < options.max_attempts =
        subst (λ (x : Options). j.attempts < x.max_attempts) h.same m in
      record {
        same = o ∙ h.same;
        counted = omega (arith, l, h.counted, a);
        bounded = omega (arith, m', a);
      }

  IsBounded-kept : Kept (λ e. Unit) (IsBounded options)
  IsBounded-kept = record {
    phase = λ q j w h. moved j _ refl refl (omega arith) h;
    finish = finish-IsBounded;
    origin = λ o j c h. moved j _ refl refl (omega arith) h;
    commit = λ j s h. moved j _ refl refl (omega arith) h;
    emit = λ s p j c e f h. moved j _ refl refl (quiet j.calls _ (owed j.phase) refl) h;
    state = λ s c j f h. moved j _ refl refl (omega arith) h;
    share = λ c j h. moved j _ refl refl (omega arith) h;
    first = λ j l h. tried j _ refl refl (omega arith) l h;
    retry = λ p j l h. tried j _ refl refl (quiet j.calls _ 1 refl) l h;
    profile = λ p j c h. moved j _ refl refl (omega arith) h;
    total = λ n j c t h. moved j _ refl refl (omega arith) h;
    prefetch = λ es j w h.
        moved j _ refl refl (omega (arith, prefetches-++ j.calls (prefetch j.attempts es ∷ []))) h;
    download = λ d n j c s e h. moved j _ refl refl (omega arith) h;
  }

-- Whatever happens to a job, it makes no more than the `maxAttempts` of its options, and asks the
-- transport for no more downloads than it made attempts.
pub attempts-IsBounded :
    (options : Options) (disk_size : ℕ) (hash : Text) (has_profile : Bool) (es : List Event)
    → IsBounded options (run (create options disk_size hash has_profile) es)
attempts-IsBounded options disk_size hash has_profile es =
    run-keeps (λ e. Unit) (IsBounded options) (IsBounded-kept options)
      (create options disk_size hash has_profile) es (λ e o. tt)
      (unfold create in record { same = refl; counted = omega arith; bounded = omega arith })
