-- ===== src/DiskWorker/Owned.antt =====
-- worker.js: every vault that the Worker makes is freed once, and none that it still uses.
use my.Base.{ℕ, ◌≡◌, refl, Bool, not, ◌&&◌, ◌||◌, Option, none, some, List, [], ◌∷◌, arith}
use my.Base.Num.{safe_nat}
use my.Base.Failure.{Result, ok, err}
use my.DiskWorker.{is_given, Reply, Origin, Facts, Worker, has_remote, drop_state}
use my.DiskWorker.Open.{open_publication}
use my.DiskWorker.State.{
  is_prefetch, Kind, wait_load_prefetch, origin_for, start_analysis_of, start_load_analysis,
  start_boot_analysis, finish_analysis, set_prefetch_of,
}
use my.DiskWorker.Execute.{
  wants_identity, wants_no_analysis, length_ok, Op, open_read_only_op, open_remote_read_only_op,
  unlock_op, start_load_analysis_op, set_load_prefetch_op, start_boot_analysis_op,
  finish_analysis_op, cancel_analysis_op, create_empty_op, create_op, open_op, open_remote_op,
  prepare_state_op, candidate_read_op, discard_state_op, commit_state_op, wait_load_prefetch_op,
  sign_relay_challenge_op, read_op, write_op, save_op, download_op, retry_op, discard_op, verify_op,
  save_state_op, export_read_only_key_op, other_op, close_op, download, close_vault, switch,
  with_vault, guarded, execute, run, create,
}
use my.DiskWorker.Handles.{
  IsOwned, open_read_only-Keeps, open_remote_read_only-Keeps, unlock-Keeps, create_file-Keeps,
  create_empty-Keeps, open_file-Keeps, open_remote-Keeps, save_begun-Keeps,
}
use my.DiskWorker.Kept.{
  Held-dropped, Held-closed, prepare_dropped-Keeps, Kept, keep, branch, candidate_read-Kept,
  discard_state-Kept, commit_state-Kept,
}

-- The operations that leave the handles alone.
wait_load_prefetch-Kept :
    (id : ℕ) (r : Reply) (w : Worker) → IsOwned w → Kept (wait_load_prefetch id r w)
unfolding wait_load_prefetch
wait_load_prefetch-Kept id r w h =
    branch (is_prefetch w.candidate id) (keep h) (branch (has_remote w) (keep h) (keep h))

start_analysis_of-Kept :
    (o : Result Origin) (b : Bool) (w : Worker) → IsOwned w → Kept (start_analysis_of o b w)
unfolding start_analysis_of
start_analysis_of-Kept (err e) b w h = keep h
start_analysis_of-Kept (ok o) b w h =
    branch (is_given w.analysis || not (has_remote w) || b) (keep h) (keep h)

start_load_analysis-Kept :
    (k : Kind) (f : Facts) (w : Worker) → IsOwned w → Kept (start_load_analysis k f w)
unfolding start_load_analysis
start_load_analysis-Kept k f w h = start_analysis_of-Kept (origin_for k w.restored) _ w h

start_boot_analysis-Kept : (f : Facts) (w : Worker) → IsOwned w → Kept (start_boot_analysis f w)
unfolding start_boot_analysis
start_boot_analysis-Kept f w h =
    branch (is_given w.analysis || not (has_remote w) || f.is_dirty) (keep h) (keep h)

finish_analysis-Kept :
    (o : Option Origin) (r : Reply) (w : Worker) → IsOwned w → Kept (finish_analysis o r w)
unfolding finish_analysis
finish_analysis-Kept none r w h = keep h
finish_analysis-Kept (some o) (ok t) w h = keep h
finish_analysis-Kept (some o) (err e) w h = keep h

set_prefetch_of-Kept :
    (o : Result Origin) (b : Bool) (r : Reply) (w : Worker)
    → IsOwned w
    → Kept (set_prefetch_of o b r w)
unfolding set_prefetch_of
set_prefetch_of-Kept (err e) b r w h = keep h
set_prefetch_of-Kept (ok o) b r w h = branch (not b) (keep h) (keep h)

download-Kept :
    (p : Option ℕ) (f : Facts) (r : Reply) (w : Worker) → IsOwned w → Kept (download p f r w)
unfolding download
download-Kept p f (ok t) w h = branch (f.is_dirty) (keep h) (branch (is_given p) (keep h) (keep h))
download-Kept p f (err e) w h = branch (f.is_dirty) (keep h) (branch (is_given p) (keep h) (keep h))

switch-Kept : (op : Op) (v : ℕ) (w : Worker) → w.vault ≡ some v → IsOwned w → Kept (switch op v w)
unfolding switch close_vault
switch-Kept (start_load_analysis_op k f) v w e h = start_load_analysis-Kept k f w h
switch-Kept (set_load_prefetch_op k s p) v w e h =
    set_prefetch_of-Kept (origin_for k w.restored) s p w h
switch-Kept (start_boot_analysis_op f) v w e h = start_boot_analysis-Kept f w h
switch-Kept (finish_analysis_op p) v w e h = finish_analysis-Kept w.analysis p w h
switch-Kept cancel_analysis_op v w e h = keep h
switch-Kept (create_empty_op n b s a) v w e h = keep (create_empty-Keeps n b s a w h)
switch-Kept (create_op b s a) v w e h = keep (create_file-Keeps b s a w h)
switch-Kept (open_op o) v w e h = keep (open_file-Keeps o w h)
switch-Kept (open_remote_op k r o p) v w e h =
    keep (open_remote-Keeps k (open_publication r) o p w h)
switch-Kept (prepare_state_op p s i d k f) v w e h =
    keep (prepare_dropped-Keeps f (drop_state w) refl (Held-dropped h) p s i d k)
switch-Kept (candidate_read_op t r) v w e h = candidate_read-Kept w.candidate t r w h
switch-Kept (discard_state_op t) v w e h = discard_state-Kept w.candidate t w h
switch-Kept (commit_state_op t f c p) v w e h = commit_state-Kept w.candidate t f c p v w refl e h
switch-Kept (wait_load_prefetch_op id r) v w e h = wait_load_prefetch-Kept id r w h
switch-Kept (sign_relay_challenge_op b r) v w e h =
    branch (not w.identity) (keep h) (branch (b) (keep h) (keep h))
switch-Kept (read_op n r) v w e h = branch (length_ok (safe_nat n)) (keep h) (keep h)
switch-Kept (write_op r) v w e h = keep h
switch-Kept (save_op b c s a) v w e h = keep (save_begun-Keeps b c s a w h)
switch-Kept (download_op f r) v w e h = download-Kept w.prepared f r w h
switch-Kept retry_op v w e h = branch (is_given w.prepared) (keep h) (keep h)
switch-Kept (discard_op p) v w e h = keep h
switch-Kept (verify_op r) v w e h = keep h
switch-Kept (save_state_op r) v w e h = keep h
switch-Kept (export_read_only_key_op r) v w e h = keep h
switch-Kept (other_op r) v w e h = keep h
switch-Kept close_op v w e h = keep (Held-closed h v e)
switch-Kept (open_read_only_op k b o c) v w e h = keep h
switch-Kept (open_remote_read_only_op k r o c p) v w e h = keep h
switch-Kept (unlock_op m) v w e h = keep h

with_vault-Kept :
    (o : Option ℕ) (op : Op) (w : Worker) → w.vault ≡ o → IsOwned w → Kept (with_vault o op w)
unfolding with_vault
with_vault-Kept none op w e h = keep h
with_vault-Kept (some v) op w e h =
    branch (is_given w.analysis && wants_no_analysis op) (keep h) (switch-Kept op v w e h)

guarded-Kept : (op : Op) (w : Worker) → IsOwned w → Kept (guarded op w)
unfolding guarded
guarded-Kept (open_read_only_op k b o c) w h = keep (open_read_only-Keeps k b o c w.vault w refl h)
guarded-Kept (open_remote_read_only_op k r o c p) w h =
    keep (open_remote_read_only-Keeps k (open_publication r) o c p w.vault w refl h)
guarded-Kept (unlock_op m) w h = keep (unlock-Keeps m w.vault w refl h)
guarded-Kept close_op w h =
    branch (is_given w.vault) (with_vault-Kept w.vault close_op w refl h) (keep h)
guarded-Kept op w h = with_vault-Kept w.vault op w refl h

execute-Kept : (op : Op) (w : Worker) → IsOwned w → Kept (execute op w)
unfolding execute
execute-Kept op w h =
    branch (is_given w.vault && not w.identity && wants_identity op) (keep h) (guarded-Kept op w h)

run-keeps : (ops : List Op) (w : Worker) → IsOwned w → IsOwned (run w ops)
unfolding run
run-keeps [] w h = h
run-keeps (op ∷ ops) w h = run-keeps ops (execute op w).0 (execute-Kept op w h).kept

-- After any operations, with whatever answers and failures: each vault that has been made is either
-- freed, exactly once, or the vault of the disk, or that of the state candidate, and only one of
-- these; nothing else has been freed.
pub run-IsOwned : (ops : List Op) → IsOwned (run create ops)
run-IsOwned ops = run-keeps ops create (unfold create in record { once = λ i. ground arith })
