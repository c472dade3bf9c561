-- ===== src/DiskWorker/State.antt =====
-- worker.js: saved states of the machine, first a candidate and then the disk's, and load analyses.
use my.Base.{ℕ, ◌+◌, Bool, true, false, not, ◌&&◌, ◌||◌, Option, none, some, ◌==◌, if◌then◌else◌}
use my.Base.Failure.{
  Result, ok, err, operation_failed, invalid_state, invalid_profile, no_published_state,
}
use my.DiskWorker.{
  is_given, Reply, Origin, boot, restored_state, Candidate, Facts, Worker, Outcome, throws, returns,
  has_remote, free, drop_state,
}

-- What decodeState found: whether the state names a disk other than the publication's, and its digest.
pub record Decoded : Type 0 where
  pub names_other : Bool
  pub digest : ℕ

-- The state is decoded: it becomes the candidate, if the startup prefetch agrees with it, `check` and the vault's fork succeed.
unfoldable pub make_candidate : Reply → Decoded → Option ℕ → Facts → Worker → Outcome
make_candidate (err c) d prefetch f w = throws c w
make_candidate (ok t) d prefetch f w = returns (record w {
  next_handle = w.next_handle + 1;
  state_serial = w.state_serial + 1;
  candidate = some (record {
    vault = w.next_handle;
    token = w.state_serial + 1;
    revision = f.revision;
    source = w.current;
    origin = d.digest;
    prefetch = prefetch;
  });
})

unfoldable pub decoded_state : Result Decoded → Reply → Option ℕ → Facts → Worker → Outcome
decoded_state (err c) forked prefetch f w = throws c w
decoded_state (ok d) forked prefetch f w =
    if d.names_other && has_remote w
    then throws invalid_state w
    else make_candidate forked d prefetch f w

unfoldable pub state_input : Reply → Result Decoded → Reply → Option ℕ → Facts → Worker → Outcome
state_input (err c) decoded forked prefetch f w = throws c w
state_input (ok t) decoded forked prefetch f w = decoded_state decoded forked prefetch f w

-- The published state, with the startup prefetch if one is wanted.
unfoldable pub published_state :
    Option (Result ℕ) → Reply → Result Decoded → Reply → Facts → Worker → Outcome
published_state none input decoded forked f w = state_input input decoded forked none f w
published_state (some (err c)) input decoded forked f w = throws c w
published_state (some (ok id)) input decoded forked f w =
    state_input input decoded forked (some id) f w

-- prepareState. `started` is what startStartupPrefetch answers if a prefetch is wanted; `forked` is the first
-- error of validateStartupPrefetch, of `check` and of the vault's fork_state.
unfoldable pub prepare_dropped :
    Bool → Option (Result ℕ) → Reply → Result Decoded → Reply → Facts → Worker → Outcome
prepare_dropped true started input decoded forked f w =
    if has_remote w
    then published_state started input decoded forked f w
    else throws no_published_state w
prepare_dropped false started input decoded forked f w =
    if is_given started then throws invalid_profile w else decoded_state decoded forked none f w

abbrev pub prepare_state :
    Bool → Option (Result ℕ) → Reply → Result Decoded → Reply → Facts → Worker → Outcome
prepare_state published started input decoded forked f w =
    prepare_dropped published started input decoded forked f (drop_state w)

unfoldable pub candidate_read : Option Candidate → ℕ → Reply → Worker → Outcome
candidate_read none token read w = throws invalid_state w
candidate_read (some c) token read w =
    if token == c.token then (w, read) else throws invalid_state w

unfoldable pub discard_state : Option Candidate → ℕ → Worker → Outcome
discard_state none token w = returns w
discard_state (some c) token w = if c.token == token then returns (drop_state w) else returns w

abbrev pub same_source : Option ℕ → Option ℕ → Bool
same_source none none = true
same_source (some a) (some b) = a == b
same_source _ _ = false

-- The candidate's vault takes the place of vault `old`, and the load prefetch follows.
unfoldable pub commit_checked : Reply → Reply → Candidate → ℕ → Worker → Outcome
commit_checked (err e) prefetched c old w = throws e w
commit_checked (ok t) prefetched c old w = (
  free old (record w {
    vault = some c.vault;
    restored = some c.origin;
    fresh_restore = true;
    candidate = none;
    prepared = none;
  }),
  prefetched,
)

unfoldable pub commit_state : Option Candidate → ℕ → Facts → Reply → Reply → ℕ → Worker → Outcome
commit_state none token f checked prefetched old w = throws invalid_state w
commit_state (some c) token f checked prefetched old w =
    if token == c.token && c.revision == f.revision && same_source c.source w.current
    then commit_checked checked prefetched c old w
    else throws invalid_state w

abbrev pub is_prefetch : Option Candidate → ℕ → Bool
is_prefetch none id = false
is_prefetch (some c) id = elim c.prefetch [ none ↦ false | some k ↦ k == id ]

unfoldable pub wait_load_prefetch : ℕ → Reply → Worker → Outcome
wait_load_prefetch id waited w =
    if is_prefetch w.candidate id
    then throws invalid_state w
    else if has_remote w
    then (w, waited)
    else throws invalid_profile w

-- The origin that a request names: `'boot'`, `'restored'`, or something else.
pub data Kind : Type 0 where
  boot_kind restored_kind no_kind : Kind

-- originFor(kind)
unfoldable pub origin_for : Kind → Option ℕ → Result Origin
origin_for boot_kind restored = ok boot
origin_for restored_kind (some digest) = ok (restored_state digest)
origin_for restored_kind none = err operation_failed
origin_for no_kind restored = err operation_failed

abbrev is_boot : Kind → Bool
is_boot boot_kind = true
is_boot _ = false

unfoldable pub start_analysis_of : Result Origin → Bool → Worker → Outcome
start_analysis_of (err c) refused w = throws c w
start_analysis_of (ok o) refused w =
    if is_given w.analysis || not (has_remote w) || refused
    then throws operation_failed w
    else returns (record w { analysis = some o; fresh_restore = false })

unfoldable pub start_load_analysis : Kind → Facts → Worker → Outcome
start_load_analysis k f w =
    start_analysis_of (origin_for k w.restored)
      (if is_boot k then f.is_dirty else not w.fresh_restore) w

unfoldable pub start_boot_analysis : Facts → Worker → Outcome
start_boot_analysis f w =
    if is_given w.analysis || not (has_remote w) || f.is_dirty
    then throws operation_failed w
    else returns (record w { analysis = some boot })

-- with what the profile's making answers
unfoldable pub finish_analysis : Option Origin → Reply → Worker → Outcome
finish_analysis none profile w = throws operation_failed w
finish_analysis (some o) (err c) w = throws c w
finish_analysis (some o) (ok t) w = returns (record w { analysis = none })

unfoldable pub set_prefetch_of : Result Origin → Bool → Reply → Worker → Outcome
set_prefetch_of (err c) scope_ok prefetched w = throws c w
set_prefetch_of (ok o) scope_ok prefetched w =
    if not scope_ok
    then throws operation_failed w
    else (w, if has_remote w then prefetched else ok tt)

abbrev pub set_load_prefetch : Kind → Bool → Reply → Worker → Outcome
set_load_prefetch k scope_ok prefetched w =
    set_prefetch_of (origin_for k w.restored) scope_ok prefetched w
