-- ===== src/Startup/Keeps.antt =====
-- startup-prefetch.js: the writes of the job, and what its reports change.
use my.Base.{
  max, ◌+◌, ◌<◌, leb, ℕ, ◌≤◌, ◌≡◌, refl, true, false, ◌&&◌, Option, none, some, List, [], ◌∷◌, ◌++◌,
  ◌⊎◌, if_cases, arith, ◌==◌, ap,
}
use my.Base.Num.{Num, safe_nat}
use my.Base.Failure.{ok}
use my.LoadProfiles.{Origin}
use my.Startup.Target.{Extent, startup_ranges}
use my.Startup.Job.{
  Part, Phase, loading, fetching, recovering, Outcome, complete, Profile, prefetch, recover,
  on_progress, shown, Job, current, finish, matches, emit_totals, emit, size_clash, state_report,
  share, attempt_report, or_zero, is_number, Event, fetched, profiles, find_state,
}

-- 1 where the attempt in progress has still to ask for its target.
abbrev pub owed : Phase → ℕ
owed loading = 1
owed (recovering p) = 1
owed _ = 0

-- What the job needs to have completed.
abbrev pub IsReady : Job → Type 0
IsReady j = (j.download_complete ≡ true) × (matches j.profile j.origin ≡ true)

abbrev pub Occurs : Event → List Event → Type 0
Occurs x [] = ⊥
Occurs x (e ∷ es) = (e ≡ x) ⊎ Occurs x es

-- The ranges of a profile of a state, one that an event brought, come to `n` bytes of the disk.
pub record Target (Seen : Event → Type 0) (disk_size n : ℕ) : Type 0 where
  pub offer : List Profile
  pub seen : Seen (profiles offer)
  pub profile : Profile
  pub found : find_state offer ≡ some profile
  pub extents : List Extent
  pub ranges : startup_ranges disk_size profile.ranges ≡ ok (extents, n)

-- The writes of the job, each under the tests that the code makes before it; `Seen` is what is known
-- of the events.
pub record Kept (Seen : Event → Type 0) (P : Job → Type 0) : Type 0 where
  pub phase : (q : Phase) (j : Job) → owed q ≤ owed j.phase → P j → P (record j { phase = q })
  pub finish : (o : Outcome) (j : Job) → (o ≡ complete → IsReady j) → P j → P (finish o j)
  pub origin : (o : Origin) (j : Job) → current j ≡ true → P j → P (record j { origin = some o })
  pub commit : (j : Job) → j.settled ≡ false → P j → P (record j { committed = true; timer = true })
  pub emit :
      (s p : ℕ) (j : Job)
      → current j ≡ true
      → j.state_total ≡ some s
      → j.profile_total ≡ some p
      → P j
      → P (record j {
        last_completed = shown (s + p) j;
        calls = j.calls ++ on_progress (shown (s + p) j) (s + p) ∷ [];
      })
  pub state :
      (s c : ℕ) (j : Job)
      → size_clash j.state_total s ≡ false
      → P j
      → P (record j { state_total = some s; state_completed = c })
  pub share : (c : ℕ) (j : Job) → P j → P (record j { profile_completed = c })
  pub first :
      (j : Job)
      → j.attempts < j.options.max_attempts
      → P j
      → P (record j { attempts = j.attempts + 1; failed = none; phase = loading })
  pub retry :
      (p : Part) (j : Job)
      → j.attempts < j.options.max_attempts
      → P j
      → P (record j {
        attempts = j.attempts + 1;
        failed = some p;
        phase = recovering p;
        calls = j.calls ++ recover p ∷ [];
      })
  pub profile : (p : Profile) (j : Job) → current j ≡ true → P j → P (record j { profile = some p })
  pub total :
      (n : ℕ) (j : Job)
      → size_clash j.profile_total n ≡ false
      → Target Seen j.disk_size n
      → P j
      → P (record j { profile_total = some n })
  pub prefetch :
      (es : List Extent) (j : Job)
      → owed j.phase ≡ 1
      → P j
      → P (record j { phase = fetching; calls = j.calls ++ prefetch j.attempts es ∷ [] })
  pub download :
      (d n : Num) (j : Job)
      → current j ≡ true
      → Seen (fetched d n)
      → is_number d j.profile_total && is_number n j.profile_total ≡ true
      → P j
      → P (record j { profile_completed = or_zero j.profile_total; download_complete = true })

emit_totals-phase : (s p : Option ℕ) (j : Job) → (emit_totals s p j).phase ≡ j.phase
unfolding emit_totals
emit_totals-phase (some s) (some p) j = refl
emit_totals-phase (some s) none j = refl
emit_totals-phase none p j = refl

pub emit-phase : (j : Job) → (emit j).phase ≡ j.phase
unfolding emit
emit-phase j =
    if_cases (λ (k : Job). k.phase ≡ j.phase) (current j) _ _
      (λ e. emit_totals-phase j.state_total j.profile_total j) (λ e. refl)

share_lem :
    (id : ℕ) (t d n : Option ℕ) (j : Job)
    → (c : ℕ) × (share id t d n j ≡ record j { profile_completed = c })
unfolding share
share_lem id (some t) (some d) (some n) j =
    if_cases (λ (k : Job). (c : ℕ) × (k ≡ record j { profile_completed = c }))
      (id == j.attempts && n == t && leb d n) _ _ (λ _. (max j.profile_completed d, refl))
      (λ _. (j.profile_completed, refl))
share_lem id none d n j = (j.profile_completed, refl)
share_lem id (some t) none n j = (j.profile_completed, refl)
share_lem id (some t) (some d) none j = (j.profile_completed, refl)

pub attempt_report_lem :
    (r : Option (ℕ × Num × Num)) (j : Job)
    → (c : ℕ) × (attempt_report r j ≡ record j { profile_completed = c })
unfolding attempt_report
attempt_report_lem none j = (j.profile_completed, refl)
attempt_report_lem (some (id, done, total)) j =
    share_lem id j.profile_total (safe_nat done) (safe_nat total) j

pub state_report_lem :
    (s c : ℕ) (t : Option ℕ) (j : Job)
    → j.state_total ≡ t
    → size_clash t s ≡ false
    → state_report s c t j
      ≡ record j { state_total = some s; state_completed = max j.state_completed c }
unfolding state_report
state_report_lem s c none j e h = refl
state_report_lem s c (some t) j e h =
    let same : j.state_total ≡ some s = ground arith in
    if_cases
      (λ (k : Job).
        k ≡ record j { state_total = some s; state_completed = max j.state_completed c })
      (t == s) _ _
      (λ _.
        ap
          (λ (u : Option ℕ). record j {
            state_total = u;
            state_completed = max j.state_completed c;
          })
          same)
      (λ f. absurd (ground arith))
