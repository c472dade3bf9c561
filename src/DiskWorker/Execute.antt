-- ===== src/DiskWorker/Execute.antt =====
-- worker.js: `execute`. An operation has the arguments that it tests, and then what its calls answer.
use my.Base.{
  ℕ, ◌+◌, Bool, true, false, not, ◌&&◌, Option, none, some, List, [], ◌∷◌, ◌++◌, leb, if◌then◌else◌,
}
use my.Base.Num.{Num, safe_nat}
use my.Base.Failure.{Result, ok, err, operation_failed, read_only, io_error}
use my.DiskWorker.{
  is_given, Reply, Facts, Worker, Outcome, throws, returns, free_handle, candidate_handle,
  has_remote,
}
use my.DiskWorker.Open.{
  Publication, open_publication, open_read_only, open_remote_read_only, unlock, create_file,
  create_empty, open_file, open_remote, save_begun,
}
use my.DiskWorker.State.{
  Decoded, Kind, prepare_state, candidate_read, discard_state, commit_state, wait_load_prefetch,
  start_load_analysis, start_boot_analysis, finish_analysis, set_load_prefetch,
}

pub data Op : Type 0 where
  open_read_only_op : Bool → Bool → Reply → Reply → Op
  open_remote_read_only_op : Bool → Publication → Reply → Reply → Reply → Op
  unlock_op : Reply → Op
  start_load_analysis_op : Kind → Facts → Op
  set_load_prefetch_op : Kind → Bool → Reply → Op
  start_boot_analysis_op : Facts → Op
  finish_analysis_op : Reply → Op
  cancel_analysis_op : Op
  create_empty_op : Num → Reply → List Reply → Reply → Op
  create_op : Reply → List Reply → Reply → Op
  open_op : Reply → Op
  open_remote_op : Bool → Publication → List Reply → Reply → Op
  prepare_state_op : Bool → Option (Result ℕ) → Reply → Result Decoded → Reply → Facts → Op
  candidate_read_op : ℕ → Reply → Op
  discard_state_op : ℕ → Op
  commit_state_op : ℕ → Facts → Reply → Reply → Op
  wait_load_prefetch_op : ℕ → Reply → Op
  -- the challenge passes its tests
  sign_relay_challenge_op : Bool → Reply → Op
  read_op : Num → Reply → Op
  write_op : Reply → Op
  save_op : Result Bool → Reply → List Reply → Reply → Op
  -- the vault has pending writes; the reads of the whole disk
  download_op : Facts → Reply → Op
  retry_op : Op
  discard_op : Reply → Op
  verify_op save_state_op export_read_only_key_op : Reply → Op
  -- describe, relayPublicKey, readStats, readTrace, resumePrefetch and clearCaches
  other_op : Reply → Op
  close_op : Op

-- The operations that a vault opened with a read key refuses.
abbrev pub wants_identity : Op → Bool
wants_identity (unlock_op m) = true
wants_identity (create_empty_op n b s a) = true
wants_identity (create_op b s a) = true
wants_identity (open_op o) = true
wants_identity (open_remote_op k r o p) = true
wants_identity (save_op b c s a) = true
wants_identity (export_read_only_key_op r) = true
wants_identity (save_state_op r) = true
wants_identity _ = false

-- The operations that wait for the end of an analysis.
abbrev pub wants_no_analysis : Op → Bool
wants_no_analysis (create_empty_op n b s a) = true
wants_no_analysis (create_op b s a) = true
wants_no_analysis (open_op o) = true
wants_no_analysis (open_remote_op k r o p) = true
wants_no_analysis (save_op b c s a) = true
wants_no_analysis (download_op f r) = true
wants_no_analysis retry_op = true
wants_no_analysis (discard_op p) = true
wants_no_analysis (verify_op r) = true
wants_no_analysis (save_state_op r) = true
wants_no_analysis (prepare_state_op p s i d k f) = true
wants_no_analysis _ = false

-- `!Number.isSafeInteger(a.length)||a.length<0||a.length>0xffffffff` is false
abbrev pub length_ok : Option ℕ → Bool
length_ok none = false
length_ok (some n) = leb n 4294967295

unfoldable pub download : Option ℕ → Facts → Reply → Worker → Outcome
download prepared f (err c) w =
    if f.is_dirty
    then throws operation_failed w
    else if is_given prepared
    then returns w
    else throws c w
download prepared f (ok t) w =
    if f.is_dirty
    then throws operation_failed w
    else if is_given prepared
    then returns w
    else returns
        (record w { next_download = w.next_download + 1; prepared = some (w.next_download + 1) })

-- `close` with vault `v`
unfoldable pub close_vault : ℕ → Worker → Worker
close_vault v w = record w {
  candidate = none;
  freed = (w.freed ++ free_handle (candidate_handle w.candidate)) ++ v ∷ [];
  analysis = none;
  restored = none;
  fresh_restore = false;
  vault = none;
  sources = [];
  identity = false;
  current = none;
  prepared = none;
}

-- The switch of `execute`, for vault `v`.
unfoldable pub switch : Op → ℕ → Worker → Outcome
switch (start_load_analysis_op k f) v w = start_load_analysis k f w
switch (set_load_prefetch_op k s p) v w = set_load_prefetch k s p w
switch (start_boot_analysis_op f) v w = start_boot_analysis f w
switch (finish_analysis_op p) v w = finish_analysis w.analysis p w
switch cancel_analysis_op v w = returns (record w { analysis = none })
switch (create_empty_op n b s a) v w = create_empty n b s a w
switch (create_op b s a) v w = create_file b s a w
switch (open_op o) v w = open_file o w
switch (open_remote_op k r o p) v w = open_remote k (open_publication r) o p w
switch (prepare_state_op p s i d k f) v w = prepare_state p s i d k f w
switch (candidate_read_op t r) v w = candidate_read w.candidate t r w
switch (discard_state_op t) v w = discard_state w.candidate t w
switch (commit_state_op t f c p) v w = commit_state w.candidate t f c p v w
switch (wait_load_prefetch_op id r) v w = wait_load_prefetch id r w
switch (sign_relay_challenge_op valid r) v w =
    if not w.identity
    then throws read_only w
    else if valid
    then (w, r)
    else throws operation_failed w
switch (read_op n r) v w =
    let w' = record w { fresh_restore = false } in
    if length_ok (safe_nat n) then (w', r) else throws io_error w'
switch (write_op r) v w = (record w { fresh_restore = false }, r)
switch (save_op b c s a) v w = save_begun b c s a w
switch (download_op f r) v w = download w.prepared f r w
switch retry_op v w = if is_given w.prepared then returns w else throws operation_failed w
switch (discard_op p) v w =
    (record w { restored = none; fresh_restore = false }, if has_remote w then p else ok tt)
switch (verify_op r) v w = (w, r)
switch (save_state_op r) v w = (w, r)
switch (export_read_only_key_op r) v w = (w, r)
switch (other_op r) v w = (w, r)
switch close_op v w = returns (close_vault v w)
-- these three do not come so far
switch (open_read_only_op k b o c) v w = throws operation_failed w
switch (open_remote_read_only_op k r o c p) v w = throws operation_failed w
switch (unlock_op m) v w = throws operation_failed w

unfoldable pub with_vault : Option ℕ → Op → Worker → Outcome
with_vault none op w = throws operation_failed w
with_vault (some v) op w =
    if is_given w.analysis && wants_no_analysis op then throws operation_failed w else switch op v w

unfoldable pub guarded : Op → Worker → Outcome
guarded (open_read_only_op k b o c) w = open_read_only k b o c w.vault w
guarded (open_remote_read_only_op k r o c p) w =
    open_remote_read_only k (open_publication r) o c p w.vault w
guarded (unlock_op m) w = unlock m w.vault w
guarded close_op w = if is_given w.vault then with_vault w.vault close_op w else returns w
guarded op w = with_vault w.vault op w

-- execute(op,args)
unfoldable pub execute : Op → Worker → Outcome
execute op w =
    if is_given w.vault && not w.identity && wants_identity op
    then throws read_only w
    else guarded op w

-- The state after some operations.
unfoldable pub run : Worker → List Op → Worker
run w [] = w
run w (op ∷ ops) = run (execute op w).0 ops

unfoldable pub create : Worker
create = record {
  identity = false;
  vault = none;
  sources = [];
  source_id = 0;
  current = none;
  prepared = none;
  next_download = 0;
  candidate = none;
  state_serial = 0;
  analysis = none;
  restored = none;
  fresh_restore = false;
  next_handle = 0;
  freed = [];
}
