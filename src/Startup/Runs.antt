-- ===== src/Startup/Runs.antt =====
-- startup-prefetch.js: a property that the writes of the job keep is kept by every run of it.
use mathlib.Core.Path.{subst}
use my.Base.{
  sym, ltb, tests, ℕ, ◌≡◌, refl, true, false, not, ◌&&◌, ◌||◌, Option, none, some, List, [], ◌∷◌,
  if_cases, arith, ◌==◌, ap, ◌∙◌, inl, inr,
}
use my.Base.Num.{Num}
use my.Base.Failure.{
  Code, Result, ok, err, prefetch_timeout, profile_mismatch, no_profile, invalid_profile,
  transport_error,
}
use my.Base.Text.{text_eq}
use my.LoadProfiles.{Origin}
use my.Startup.Target.{Extent, startup_ranges}
use my.Startup.Job.{
  Part, profile_part, disk_part, Phase, starting, preparing, loading, fetching, ended, recovering,
  complete, fallback, Profile, leave, stop, Job, Report, Event, start, prepared, recovered, commit,
  timeout, cancel, failure, validate, progress, profiles, fetched, current, finish, matches,
  emit_totals, mismatch, try_complete, validate_origin, commit_state, emit, size_clash,
  state_report, state_numbers, attempt_report, report_numbers, report, attempt, caught, find_state,
  aim, take_profile, take_fetched, unless_current, is_permanent, is_number, resume, step, run,
}
use my.Startup.Keeps.{owed, Occurs, Target, Kept, emit-phase, attempt_report_lem, state_report_lem}

module _ (Seen : Event → Type 0) (P : Job → Type 0) (kept : Kept Seen P) where
  emit_totals-keeps :
      (s p : Option ℕ) (j : Job)
      → current j ≡ true
      → j.state_total ≡ s
      → j.profile_total ≡ p
      → P j
      → P (emit_totals s p j)
  unfolding emit_totals
  emit_totals-keeps (some s) (some p) j c e f h = kept.emit s p j c e f h
  emit_totals-keeps (some s) none j c e f h = h
  emit_totals-keeps none p j c e f h = h

  emit-keeps : (j : Job) → P j → P (emit j)
  unfolding emit
  emit-keeps j h =
      if_cases P (current j) _ _
        (λ c. emit_totals-keeps j.state_total j.profile_total j c refl refl h) (λ _. h)

  share-keeps : (r : Option (ℕ × Num × Num)) (j : Job) → P j → P (attempt_report r j)
  share-keeps r j h = let l = attempt_report_lem r j in subst P (sym l.1) (kept.share l.0 j h)

  state-keeps :
      (s c : ℕ) (j : Job)
      → size_clash j.state_total s ≡ false
      → P j
      → P (state_report s c j.state_total j)
  state-keeps s c j f h =
      subst P (sym (state_report_lem s c j.state_total j refl f)) (kept.state s _ j f h)

  attempt-keeps : (f : Option Part) (j : Job) → P j → P (attempt f j)
  unfolding attempt
  attempt-keeps none j h =
      if_cases P (current j && ltb j.attempts j.options.max_attempts) _ _
        (λ e. kept.first j (grind tests) h) (λ e. kept.phase ended j (omega arith) h)
  attempt-keeps (some p) j h =
      if_cases P (current j && ltb j.attempts j.options.max_attempts) _ _
        (λ e. kept.retry p j (grind tests) h) (λ e. kept.phase ended j (omega arith) h)

  leave-keeps : (j : Job) → P j → P (leave j)
  leave-keeps j h = kept.phase ended j (omega arith) h

  stop-keeps : (c : Code) (j : Job) → P j → P (stop (fallback c) j)
  stop-keeps c j h = leave-keeps (finish (fallback c) j) (kept.finish (fallback c) j (λ e. cc) h)

  complete-keeps : (j : Job) → P j → P (try_complete j)
  unfolding try_complete
  complete-keeps j h =
      if_cases P (current j && j.download_complete && matches j.profile j.origin) _ _
        (λ e. kept.finish complete j (λ _. ground arith) h) (λ e. h)

  validate-keeps : (o : Origin) (j : Job) → P j → P (validate_origin o j)
  unfolding validate_origin
  validate-keeps o j h =
      let live : current j ≡ true → P (record j { origin = some o }) = λ e. kept.origin o j e h in
      if_cases P (not (current j)) _ _ (λ e. h)
        (λ e.
          if_cases P (mismatch j.profile (some o)) _ _
            (λ f. kept.finish (fallback profile_mismatch) _ (λ g. cc) (live (ground arith)))
            (λ f. complete-keeps _ (live (ground arith))))

  commit-keeps : (j : Job) → P j → P (commit_state j)
  unfolding commit_state
  commit-keeps j h =
      if_cases P (j.committed || j.settled) _ _ (λ e. h)
        (λ e. complete-keeps _ (kept.commit j (ground arith) h))

  numbers-keeps : (n : Option (ℕ × ℕ)) (r : Report) (j : Job) → P j → P (report_numbers n r j)
  unfolding report_numbers
  numbers-keeps none r j h = emit-keeps _ (share-keeps r.startup j h)
  numbers-keeps (some (s, c)) r j h =
      if_cases P (not (text_eq r.info_hash j.state_hash)) _ _
        (λ e. emit-keeps _ (share-keeps r.startup j h))
        (λ e.
          if_cases P (size_clash j.state_total s) _ _ (λ f. h)
            (λ f. emit-keeps _ (share-keeps r.startup _ (state-keeps s c j f h))))

  report-keeps : (r : Report) (j : Job) → P j → P (report r j)
  unfolding report
  report-keeps r j h =
      if_cases P (current j) _ _ (λ e. numbers-keeps (state_numbers r) r j h) (λ e. h)

  caught-keeps : (p : Part) (c : Code) (j : Job) → P j → P (caught p c j)
  unfolding caught
  caught-keeps p c j h =
      if_cases P (not (current j)) _ _ (λ e. leave-keeps j h)
        (λ e.
          if_cases P (is_permanent c || j.attempts == j.options.max_attempts) _ _
            (λ f. stop-keeps c j h) (λ f. attempt-keeps (some p) j h))

  aim-keeps :
      (r : Result (List Extent × ℕ)) (j : Job)
      → ((es : List Extent) (n : ℕ) → r ≡ ok (es, n) → Target Seen j.disk_size n)
      → j.phase ≡ loading
      → P j
      → P (aim r j)
  unfolding aim
  aim-keeps (err c) j t l h = caught-keeps profile_part c j h
  aim-keeps (ok (es, n)) j t l h =
      if_cases P (size_clash j.profile_total n) _ _
        (λ e. caught-keeps profile_part invalid_profile j h)
        (λ e.
          kept.prefetch es _ (ap owed (emit-phase _ ∙ l))
            (emit-keeps _ (kept.total n j e (t es n refl) h)))

  take_profile-keeps :
      (p : Option Profile) (j : Job)
      → ((q : Profile)
          → p ≡ some q
          → (ps : List Profile) × Seen (profiles ps) × (find_state ps ≡ some q))
      → j.phase ≡ loading
      → current j ≡ true
      → P j
      → P (take_profile p j)
  unfolding take_profile
  take_profile-keeps none j o l c h = stop-keeps no_profile j h
  take_profile-keeps (some p) j o l c h =
      if_cases P (mismatch (some p) j.origin) _ _ (λ e. stop-keeps profile_mismatch j h)
        (λ e.
          aim-keeps (startup_ranges j.disk_size p.ranges) _
            (λ es n f.
              let from = o p refl in
              record {
                offer = from.0;
                seen = from.1;
                profile = p;
                found = from.2;
                extents = es;
                ranges = f;
              })
            l (kept.profile p j c h))

  take_fetched-keeps :
      (done n : Num) (j : Job) → Seen (fetched done n) → P j → P (take_fetched done n j)
  unfolding take_fetched
  take_fetched-keeps done n j s h =
      if_cases P (not (current j)) _ _ (λ e. leave-keeps j h)
        (λ e.
          if_cases P (is_number done j.profile_total && is_number n j.profile_total) _ _
            (λ f.
              leave-keeps _
                (complete-keeps _ (emit-keeps _ (kept.download done n j (ground arith) s f h))))
            (λ f. caught-keeps disk_part transport_error j h))

  unless_current-keeps :
      (f : Job → Job) (j : Job) → P j → (current j ≡ true → P (f j)) → P (unless_current f j)
  unfolding unless_current
  unless_current-keeps f j h k = if_cases P (current j) _ _ k (λ e. leave-keeps j h)

  resume-keeps : (q : Phase) (e : Event) (j : Job) → Seen e → j.phase ≡ q → P j → P (resume q e j)
  unfolding resume
  resume-keeps starting start j s q h =
      unless_current-keeps _ j h (λ _. kept.phase preparing j (omega arith) h)
  resume-keeps preparing prepared j s q h = unless_current-keeps _ j h (λ _.
      if_cases P j.has_profile_hash _ _ (λ e. attempt-keeps none j h)
        (λ e. stop-keeps no_profile j h))
  resume-keeps preparing (failure c) j s q h = stop-keeps c j h
  resume-keeps (recovering p) recovered j s q h =
      unless_current-keeps _ j h (λ _. kept.phase loading j (rw q (omega arith)) h)
  resume-keeps (recovering p) (failure c) j s q h = caught-keeps p c j h
  resume-keeps loading (profiles ps) j s q h =
      unless_current-keeps _ j h
        (λ c. take_profile-keeps (find_state ps) j (λ p f. (ps, s, f)) q c h)
  resume-keeps loading (failure c) j s q h = caught-keeps profile_part c j h
  resume-keeps fetching (fetched done n) j s q h = take_fetched-keeps done n j s h
  resume-keeps fetching (failure c) j s q h = caught-keeps disk_part c j h
  resume-keeps _ _ j s q h = h

  step-keeps : (j : Job) (e : Event) → Seen e → P j → P (step j e)
  unfolding step
  step-keeps j (validate o) s h = validate-keeps o j h
  step-keeps j commit s h = commit-keeps j h
  step-keeps j (cancel c) s h = kept.finish (fallback c) j (λ e. cc) h
  step-keeps j timeout s h =
      if_cases P j.timer _ _ (λ t. kept.finish (fallback prefetch_timeout) j (λ e. cc) h) (λ t. h)
  step-keeps j (progress r) s h = report-keeps r j h
  step-keeps j e s h = resume-keeps j.phase e j s refl h

  pub run-keeps :
      (j : Job) (es : List Event) → ((e : Event) → Occurs e es → Seen e) → P j → P (run j es)
  unfolding run
  run-keeps j [] s h = h
  run-keeps j (e ∷ es) s h =
      run-keeps (step j e) es (λ x o. s x (inr o)) (step-keeps j e (s e (inl refl)) h)
