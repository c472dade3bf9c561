-- ===== src/Startup/Job.antt =====
-- The object of startup-prefetch.js. `run` waits for a promise at each `phase`; an event is a call of
-- a method or the settling of that promise. `calls` are those that the host gets, in order.
use my.Base.{
  ℕ, ◌+◌, min, max, Bool, true, false, not, ◌&&◌, ◌||◌, Option, none, some, List, [], ◌∷◌, ◌++◌,
  leb, ltb, ◌==◌, if◌then◌else◌,
}
use my.Base.Num.{Num, nat, safe_nat}
use my.Base.Failure.{
  Code, cancelled, transport_error, invalid_profile, invalid_publication, invalid_range,
  invalid_state, no_profile, profile_mismatch, prefetch_timeout, Result, ok, err,
}
use my.Base.Text.{Text, text_eq}
use my.Ranges.{Range}
use my.LoadProfiles.{Origin, state, kind_eq, same_origin}
use my.Startup.Target.{Options, Extent, startup_ranges}

-- The part of the await that a failed attempt is blamed on.
pub data Part : Type 0 where
  profile_part disk_part : Part

pub data Phase : Type 0 where
  starting preparing loading fetching ended : Phase
  recovering : Part → Phase

pub data Outcome : Type 0 where
  complete : Outcome
  fallback : Code → Outcome

-- A profile as `loadProfiles` returns it, validated.
pub record Profile : Type 0 where
  pub origin : Origin
  pub ranges : List (Option Range)

pub data Call : Type 0 where
  recover : Part → Call
  prefetch : ℕ → List Extent → Call
  on_progress : ℕ → ℕ → Call
  on_outcome : Outcome → ℕ → Call

pub record Job : Type 0 where
  pub options : Options
  pub disk_size : ℕ
  pub state_hash : Text
  pub has_profile_hash : Bool
  pub phase : Phase
  pub failed : Option Part
  pub attempts : ℕ
  pub profile_completed : ℕ
  pub state_completed : ℕ
  pub last_completed : ℕ
  pub profile_total : Option ℕ
  pub state_total : Option ℕ
  pub committed : Bool
  pub settled : Bool
  pub aborted : Bool
  pub timer : Bool
  pub origin : Option Origin
  pub profile : Option Profile
  pub download_complete : Bool
  pub calls : List Call

-- What a progress report of the transport holds: of one torrent, and of an attempt of this job, by
-- the number in its id.
pub record Report : Type 0 where
  pub info_hash : Text
  pub size : Num
  pub covered_bytes : Num
  pub startup : Option (ℕ × Num × Num)

pub data Event : Type 0 where
  start prepared recovered commit timeout : Event
  cancel failure : Code → Event
  validate : Origin → Event
  progress : Report → Event
  profiles : List Profile → Event
  fetched : Num → Num → Event

abbrev pub emit_call : Call → Job → Job
emit_call c j = record j { calls = j.calls ++ c ∷ [] }

-- current()
unfoldable pub current : Job → Bool
current j = not j.settled && not j.aborted

abbrev is_complete : Outcome → Bool
is_complete complete = true
is_complete (fallback c) = false

-- finish(outcome,reason): the timer is cleared, and the controller aborted unless it completed.
unfoldable pub finish : Outcome → Job → Job
finish o j = if j.settled then j else record j {
  settled = true;
  timer = false;
  aborted = j.aborted || not (is_complete o);
  calls = j.calls ++ on_outcome o j.attempts ∷ [];
}

abbrev pub matches : Option Profile → Option Origin → Bool
matches (some p) (some o) = same_origin p.origin o
matches _ _ = false

abbrev pub mismatch : Option Profile → Option Origin → Bool
mismatch (some p) (some o) = not (same_origin p.origin o)
mismatch _ _ = false

-- complete()
unfoldable pub try_complete : Job → Job
try_complete j =
    if current j && j.download_complete && matches j.profile j.origin then finish complete j else j

-- validate(origin)
unfoldable pub validate_origin : Origin → Job → Job
validate_origin o j =
    let j' = record j { origin = some o } in
    if not (current j)
    then j
    else if mismatch j.profile (some o)
    then finish (fallback profile_mismatch) j'
    else try_complete j'

-- commit()
unfoldable pub commit_state : Job → Job
commit_state j =
    if j.committed || j.settled
    then j
    else try_complete (record j { committed = true; timer = true })

-- The body of emit() once both totals are known.
abbrev pub shown : ℕ → Job → ℕ
shown total j = min total (max j.last_completed (j.state_completed + j.profile_completed))

unfoldable pub emit_totals : Option ℕ → Option ℕ → Job → Job
emit_totals (some s) (some p) j = record j {
  last_completed = shown (s + p) j;
  calls = j.calls ++ on_progress (shown (s + p) j) (s + p) ∷ [];
}
emit_totals _ _ j = j

-- emit()
unfoldable pub emit : Job → Job
emit j = if current j then emit_totals j.state_total j.profile_total j else j

-- The size of the state is fixed by its first report.
unfoldable pub state_report : ℕ → ℕ → Option ℕ → Job → Job
state_report size covered none j = record j {
  state_total = some size;
  state_completed = max j.state_completed covered;
}
state_report size covered (some t) j =
    if t == size then record j { state_completed = max j.state_completed covered } else j

-- The test of a report on the state: a size above 0, and no more covered than that.
unfoldable pub state_numbers : Report → Option (ℕ × ℕ)
state_numbers r = elim (safe_nat r.size) [
  | none ↦ none
  | some s ↦ elim (safe_nat r.covered_bytes) [
    | none ↦ none
    | some c ↦ if ltb 0 s && leb c s then some (s, c) else none
  ]
]

abbrev pub size_clash : Option ℕ → ℕ → Bool
size_clash none s = false
size_clash (some t) s = not (t == s)

-- A share of this attempt counts if its total is that of the target.
unfoldable pub share : ℕ → Option ℕ → Option ℕ → Option ℕ → Job → Job
share id (some t) (some d) (some n) j =
    if id == j.attempts && n == t && leb d n
    then record j { profile_completed = max j.profile_completed d }
    else j
share id _ _ _ j = j

unfoldable pub attempt_report : Option (ℕ × Num × Num) → Job → Job
attempt_report none j = j
attempt_report (some (id, done, total)) j =
    share id j.profile_total (safe_nat done) (safe_nat total) j

unfoldable pub report_numbers : Option (ℕ × ℕ) → Report → Job → Job
report_numbers none r j = emit (attempt_report r.startup j)
report_numbers (some (s, c)) r j =
    if not (text_eq r.info_hash j.state_hash)
    then emit (attempt_report r.startup j)
    else if size_clash j.state_total s
    then j
    else emit (attempt_report r.startup (state_report s c j.state_total j))

-- progress(value): a report that gives the state another size is dropped whole.
unfoldable pub report : Report → Job → Job
report r j = if current j then report_numbers (state_numbers r) r j else j

-- Where `run` returns without finishing.
abbrev pub leave : Job → Job
leave j = record j { phase = ended }

abbrev pub stop : Outcome → Job → Job
stop o j = leave (finish o j)

-- The head of the loop in `run`, and the body up to its first await.
unfoldable pub attempt : Option Part → Job → Job
attempt none j =
    if current j && ltb j.attempts j.options.max_attempts
    then record j { attempts = j.attempts + 1; failed = none; phase = loading }
    else leave j
attempt (some p) j =
    if current j && ltb j.attempts j.options.max_attempts
    then record j {
      attempts = j.attempts + 1;
      failed = some p;
      phase = recovering p;
      calls = j.calls ++ recover p ∷ [];
    }
    else leave j

abbrev pub is_permanent : Code → Bool
is_permanent invalid_profile = true
is_permanent invalid_publication = true
is_permanent invalid_range = true
is_permanent invalid_state = true
is_permanent cancelled = true
is_permanent _ = false

-- The handler of the loop: what was awaited threw `code`.
unfoldable pub caught : Part → Code → Job → Job
caught part code j =
    if not (current j)
    then leave j
    else if is_permanent code || j.attempts == j.options.max_attempts
    then stop (fallback code) j
    else attempt (some part) j

-- `profiles.find(value=>value.origin.kind==='state')`
unfoldable pub find_state : List Profile → Option Profile
find_state [] = none
find_state (p ∷ ps) = if kind_eq p.origin.kind state then some p else find_state ps

-- The body of the loop from the target on, which throws INVALID_PROFILE where it has changed.
unfoldable pub aim : Result (List Extent × ℕ) → Job → Job
aim (err c) j = caught profile_part c j
aim (ok (extents, total)) j =
    if size_clash j.profile_total total
    then caught profile_part invalid_profile j
    else let j' = emit (record j { profile_total = some total }) in
      record j' { phase = fetching; calls = j'.calls ++ prefetch j'.attempts extents ∷ [] }

unfoldable pub take_profile : Option Profile → Job → Job
take_profile none j = stop (fallback no_profile) j
take_profile (some p) j =
    if mismatch (some p) j.origin
    then stop (fallback profile_mismatch) j
    else aim (startup_ranges j.disk_size p.ranges) (record j { profile = some p })

abbrev pub is_number : Num → Option ℕ → Bool
is_number (nat n) (some t) = n == t
is_number _ _ = false

abbrev pub or_zero : Option ℕ → ℕ
or_zero none = 0
or_zero (some n) = n

-- The end of the body: the transport says that it has verified the target.
unfoldable pub take_fetched : Num → Num → Job → Job
take_fetched done total j =
    if not (current j)
    then leave j
    else if is_number done j.profile_total && is_number total j.profile_total
    then leave (
        try_complete (
          emit
            (record j { profile_completed = or_zero j.profile_total; download_complete = true })))
    else caught disk_part transport_error j

unfoldable pub unless_current : (Job → Job) → Job → Job
unless_current f j = if current j then f j else leave j

-- What the promise that `run` awaits brings; an event that does not fit the phase does not happen.
unfoldable pub resume : Phase → Event → Job → Job
resume starting start j = unless_current (λ k. record k { phase = preparing }) j
resume preparing prepared j =
    unless_current
      (λ k. if k.has_profile_hash then attempt none k else stop (fallback no_profile) k) j
resume preparing (failure c) j = stop (fallback c) j
resume (recovering p) recovered j = unless_current (λ k. record k { phase = loading }) j
resume (recovering p) (failure c) j = caught p c j
resume loading (profiles ps) j = unless_current (take_profile (find_state ps)) j
resume loading (failure c) j = caught profile_part c j
resume fetching (fetched done total) j = take_fetched done total j
resume fetching (failure c) j = caught disk_part c j
resume _ _ j = j

unfoldable pub step : Job → Event → Job
step j (validate o) = validate_origin o j
step j commit = commit_state j
step j (cancel c) = finish (fallback c) j
step j timeout = if j.timer then finish (fallback prefetch_timeout) j else j
step j (progress r) = report r j
step j e = resume j.phase e j

unfoldable pub run : Job → List Event → Job
run j [] = j
run j (e ∷ es) = run (step j e) es

-- The constructor.
unfoldable pub create : Options → ℕ → Text → Bool → Job
create options disk_size state_hash has_profile_hash = record {
  options = options;
  disk_size = disk_size;
  state_hash = state_hash;
  has_profile_hash = has_profile_hash;
  phase = starting;
  failed = none;
  attempts = 0;
  profile_completed = 0;
  state_completed = 0;
  last_completed = 0;
  profile_total = none;
  state_total = none;
  committed = false;
  settled = false;
  aborted = false;
  timer = false;
  origin = none;
  profile = none;
  download_complete = false;
  calls = [];
}
