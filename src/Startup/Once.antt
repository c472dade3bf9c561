-- ===== src/Startup/Once.antt =====
-- startup-prefetch.js: what the host is told of the end of the job.
use mathlib.Core.Path.{subst}
use my.Base.{
  ℕ, ◌+◌, ◌≤◌, ◌≡◌, refl, Bool, true, false, ◌&&◌, Option, none, some, List, [], ◌∷◌, ◌++◌,
  if◌then◌else◌, if_cases, arith, ap, sym, ◌∙◌,
}
use my.Base.Num.{Num, nat}
use my.Base.Text.{Text}
use my.Startup.Target.{Options}
use my.Startup.Job.{
  Outcome, complete, fallback, Call, on_outcome, Job, Event, fetched, current, finish, size_clash,
  is_number, run, create,
}
use my.Startup.Keeps.{Occurs, Target, Kept, IsReady}
use my.Startup.Runs.{run-keeps}

abbrev pub outcomes : List Call → ℕ
outcomes [] = 0
outcomes (on_outcome o n ∷ cs) = 1 + outcomes cs
outcomes (_ ∷ cs) = outcomes cs

abbrev pub completions : List Call → ℕ
completions [] = 0
completions (on_outcome complete n ∷ cs) = 1 + completions cs
completions (_ ∷ cs) = completions cs

outcomes-++ : (cs ds : List Call) → outcomes (cs ++ ds) ≡ outcomes cs + outcomes ds
outcomes-++ [] ds = omega arith
outcomes-++ (c ∷ cs) ds = ground (arith, outcomes-++ cs ds)

completions-++ : (cs ds : List Call) → completions (cs ++ ds) ≡ completions cs + completions ds
completions-++ [] ds = omega arith
completions-++ (c ∷ cs) ds = ground (arith, completions-++ cs ds)

completions_le : (cs : List Call) → completions cs ≤ outcomes cs
completions_le [] = omega arith
completions_le (c ∷ cs) = ground (arith, completions_le cs)

-- The transport has answered that it has all of the `n` bytes of the target, and that these are all.
pub record Whole (es : List Event) (j : Job) : Type 0 where
  pub total : ℕ
  pub target : j.profile_total ≡ some total
  pub answered : Occurs (fetched (nat total) (nat total)) es

-- The total of a job is that of a profile that it was given, and nothing less has completed a download.
pub record IsAimed (es : List Event) (j : Job) : Type 0 where
  pub aimed : (n : ℕ) → j.profile_total ≡ some n → Target (λ e. Occurs e es) j.disk_size n
  pub whole : j.download_complete ≡ true → Whole es j

pub record IsOnce (es : List Event) (j : Job) : Type 0 where
  pub once : outcomes j.calls ≡ (if j.settled then 1 else 0)
  pub honest : 1 ≤ completions j.calls → IsReady j
  pub target : IsAimed es j
  pub quiet : j.settled ≡ true → j.timer ≡ false

module _ (es : List Event) where
  -- Before the end the host has been told of no completion, so what it needs may change.
  live-IsOnce :
      (j k : Job)
      → current j ≡ true
      → (outcomes k.calls ≡ outcomes j.calls) × (completions k.calls ≡ completions j.calls)
      → k.settled ≡ j.settled
      → IsAimed es k
      → IsOnce es j
      → IsOnce es k
  unfolding current
  live-IsOnce j k c t s w h =
      let quiet : j.settled ≡ false = ground arith in
      let none : outcomes j.calls ≡ 0 = rw quiet at h.once in
      record {
        once = t.0 ∙ h.once ∙ ap (λ b. if b then 1 else 0) (sym s);
        honest = λ m. absurd (omega (arith, t.1, completions_le j.calls));
        target = w;
        quiet = λ e. absurd (ground arith);
      }

  only_complete : (o : Outcome) (n : ℕ) → 1 ≤ 0 + completions (on_outcome o n ∷ []) → o ≡ complete
  only_complete complete n h = refl
  only_complete (fallback c) n h = absurd (omega arith)

  same_target :
      (j k : Job)
      → k.profile_total ≡ j.profile_total
      → k.download_complete ≡ j.download_complete
      → k.disk_size ≡ j.disk_size
      → IsOnce es j
      → IsAimed es k
  same_target j k p d z h = record {
    aimed =
        λ n e. subst (λ s. Target (λ e. Occurs e es) s n) (sym z) (h.target.aimed n (sym p ∙ e));
    whole = λ e.
        let w = h.target.whole (sym d ∙ e) in
        record { total = w.total; target = p ∙ w.target; answered = w.answered };
  }

  finish-IsOnce :
      (o : Outcome) (j : Job) → (o ≡ complete → IsReady j) → IsOnce es j → IsOnce es (finish o j)
  unfolding finish
  finish-IsOnce o j r h =
      if_cases (IsOnce es) j.settled _ _ (λ e. h)
        (λ e.
          let none : outcomes j.calls ≡ 0 = rw e at h.once in
          let zero : completions j.calls ≡ 0 = omega (arith, completions_le j.calls) in
          record {
            once = rw (outcomes-++ j.calls (on_outcome o j.attempts ∷ [])) (omega arith);
            honest = λ m. r (
                only_complete o j.attempts (
                  subst (λ n. 1 ≤ n)
                    (completions-++ j.calls (on_outcome o j.attempts ∷ [])
                      ∙ ap (λ n. n + completions (on_outcome o j.attempts ∷ [])) zero)
                    m));
            target = same_target j _ refl refl refl h;
            quiet = λ _. refl;
          })

  told :
      (cs : List Call) (c : Call)
      → outcomes (c ∷ []) ≡ 0
      → (outcomes (cs ++ c ∷ []) ≡ outcomes cs) × (completions (cs ++ c ∷ []) ≡ completions cs)
  told cs c z = (
    rw (outcomes-++ cs (c ∷ [])) (omega arith),
    rw (completions-++ cs (c ∷ [])) (omega (arith, completions_le (c ∷ []))),
  )

  same-IsOnce :
      (j k : Job)
      → (outcomes k.calls ≡ outcomes j.calls) × (completions k.calls ≡ completions j.calls)
      → k.settled ≡ j.settled
      → k.timer ≡ j.timer
      → (IsReady j → IsReady k)
      → IsAimed es k
      → IsOnce es j
      → IsOnce es k
  same-IsOnce j k t s u r w h = record {
    once = t.0 ∙ h.once ∙ ap (λ b. if b then 1 else 0) (sym s);
    honest = λ c. r (h.honest (subst (λ n. 1 ≤ n) t.1 c));
    target = w;
    quiet = λ e. u ∙ h.quiet (sym s ∙ e);
  }

  -- A target that is known stays the same.
  fixed_total : (n m : ℕ) (t : Option ℕ) → size_clash t n ≡ false → t ≡ some m → some n ≡ t
  fixed_total n m (some u) c e = ground arith
  fixed_total n m none c e = cc

  fetched_number :
      (d : Num) (t : Option ℕ) → is_number d t ≡ true → (n : ℕ) × (t ≡ some n) × (d ≡ nat n)
  fetched_number (nat m) (some n) e = (m, ground arith, refl)
  fetched_number d t e = absurd (ground arith)

  -- The two numbers are the target.
  download-Whole :
      (d n : Num) (j k : Job)
      → k.profile_total ≡ j.profile_total
      → Occurs (fetched d n) es
      → is_number d j.profile_total && is_number n j.profile_total ≡ true
      → Whole es k
  download-Whole d n j k p a e =
      let f = fetched_number d j.profile_total (ground arith) in
      let g = fetched_number n j.profile_total (ground arith) in
      let one : f.0 ≡ g.0 = ground (arith, sym f.1 ∙ g.1) in
      record {
        total = f.0;
        target = p ∙ f.1;
        answered =
            subst (λ x. Occurs (fetched (nat f.0) x) es) (g.2 ∙ ap nat (sym one))
              (subst (λ x. Occurs (fetched x n) es) f.2 a);
      }

  IsOnce-kept : Kept (λ e. Occurs e es) (IsOnce es)
  IsOnce-kept = record {
    phase = λ q j w h.
        same-IsOnce j _ (refl, refl) refl refl (λ r. r) (same_target j _ refl refl refl h) h;
    finish = finish-IsOnce;
    origin = λ o j c h. live-IsOnce j _ c (refl, refl) refl (same_target j _ refl refl refl h) h;
    commit = λ j s h. record {
      once = h.once;
      honest = h.honest;
      target = same_target j _ refl refl refl h;
      quiet = λ e. absurd (ground arith);
    };
    emit = λ s p j c e f h.
        same-IsOnce j _ (told j.calls _ refl) refl refl (λ r. r) (same_target j _ refl refl refl h)
          h;
    state = λ s c j f h.
        same-IsOnce j _ (refl, refl) refl refl (λ r. r) (same_target j _ refl refl refl h) h;
    share = λ c j h.
        same-IsOnce j _ (refl, refl) refl refl (λ r. r) (same_target j _ refl refl refl h) h;
    first = λ j l h.
        same-IsOnce j _ (refl, refl) refl refl (λ r. r) (same_target j _ refl refl refl h) h;
    retry = λ p j l h.
        same-IsOnce j _ (told j.calls _ refl) refl refl (λ r. r) (same_target j _ refl refl refl h)
          h;
    profile = λ p j c h. live-IsOnce j _ c (refl, refl) refl (same_target j _ refl refl refl h) h;
    total = λ n j c t h.
        same-IsOnce j _ (refl, refl) refl refl (λ r. r)
          (record {
            aimed =
                λ m e. subst (λ x. Target (λ e. Occurs e es) j.disk_size x) (ground (arith, e)) t;
            whole = λ e.
                let w = h.target.whole e in
                record {
                  total = w.total;
                  target = fixed_total n w.total j.profile_total c w.target ∙ w.target;
                  answered = w.answered;
                };
          })
          h;
    prefetch = λ xs j w h.
        same-IsOnce j _ (told j.calls _ refl) refl refl (λ r. r) (same_target j _ refl refl refl h)
          h;
    download = λ d n j c s e h.
        live-IsOnce j _ c (refl, refl) refl
          (record { aimed = h.target.aimed; whole = λ _. download-Whole d n j _ refl s e }) h;
  }

-- Whatever happens to a job, in whatever order, the host is told of an outcome once it has settled
-- and never twice; it is told of a completion only for a profile of the origin that the machine was
-- resumed from and once the download is complete, which it is only where the transport has answered
-- that it fetched all of as many bytes as the total of the job, and a total is that of the ranges of
-- a profile of a state that the job was given; and no timer is left behind.
pub outcome-IsOnce :
    (options : Options) (disk_size : ℕ) (hash : Text) (has_profile : Bool) (es : List Event)
    → IsOnce es (run (create options disk_size hash has_profile) es)
outcome-IsOnce options disk_size hash has_profile es =
    run-keeps (λ e. Occurs e es) (IsOnce es) (IsOnce-kept es)
      (create options disk_size hash has_profile) es (λ e o. o)
      (unfold create in
        record {
          once = refl;
          honest = λ m. absurd (omega arith);
          target = record {
            aimed = λ n e. absurd (ground (arith, e));
            whole = λ e. absurd (ground arith);
          };
          quiet = λ _. refl;
        })
