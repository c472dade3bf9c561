-- ===== src/DiskWorker/Closed.antt =====
-- worker.js: every operation closes the sources that it leaves behind.
use my.Base.{
  ℕ, ◌+◌, ◌≡◌, refl, ap, ◌∙◌, Bool, true, false, not, ◌&&◌, ◌||◌, Option, none, some, List, [], ◌∷◌,
}
use my.Base.Num.{safe_nat}
use my.Base.Failure.{Code, Result, ok, err}
use my.DiskWorker.{Reply, Origin, Facts, Worker, delete_source, is_given, has_remote, drop_state}
use my.DiskWorker.Open.{
  Publication, open_publication, first_error, remote_prefetched, remote_opened, remote_found,
  open_remote,
}
use my.DiskWorker.State.{
  is_prefetch, Kind, wait_load_prefetch, origin_for, start_analysis_of, start_load_analysis,
  start_boot_analysis, finish_analysis, set_prefetch_of,
}
use my.DiskWorker.Execute.{
  wants_identity, wants_no_analysis, length_ok, Op, open_read_only_op, open_remote_read_only_op,
  unlock_op, start_load_analysis_op, set_load_prefetch_op, start_boot_analysis_op,
  finish_analysis_op, cancel_analysis_op, create_empty_op, create_op, open_op, open_remote_op,
  prepare_state_op, candidate_read_op, discard_state_op, commit_state_op, wait_load_prefetch_op,
  sign_relay_challenge_op, read_op, write_op, save_op, download_op, retry_op, discard_op, verify_op,
  save_state_op, export_read_only_key_op, other_op, close_op, download, close_vault, switch,
  with_vault, guarded, execute, run, create,
}
use my.DiskWorker.Sources.{replaced_eq, delete-same, IsTidy}
use my.DiskWorker.Opened.{
  Neat, keep, branch, some_ne, open_read_only-Neat, open_remote_read_only-Neat, unlock-Neat,
  save_begun-Neat, create_file-Neat, create_empty-Neat, open_file-Neat, open_remote-Neat,
}
use my.DiskWorker.Neat.{
  prepare_dropped-Neat, candidate_read-Neat, discard_state-Neat, commit_state-Neat,
}

-- The operations that leave the handles alone.
wait_load_prefetch-Neat :
    (id : ℕ) (r : Reply) (w : Worker) → IsTidy w → Neat (wait_load_prefetch id r w)
unfolding wait_load_prefetch
wait_load_prefetch-Neat id r w h =
    branch (is_prefetch w.candidate id) (keep h) (branch (has_remote w) (keep h) (keep h))

start_analysis_of-Neat :
    (o : Result Origin) (b : Bool) (w : Worker) → IsTidy w → Neat (start_analysis_of o b w)
unfolding start_analysis_of
start_analysis_of-Neat (err e) b w h = keep h
start_analysis_of-Neat (ok o) b w h =
    branch (is_given w.analysis || not (has_remote w) || b) (keep h) (keep h)

start_load_analysis-Neat :
    (k : Kind) (f : Facts) (w : Worker) → IsTidy w → Neat (start_load_analysis k f w)
unfolding start_load_analysis
start_load_analysis-Neat k f w h = start_analysis_of-Neat (origin_for k w.restored) _ w h

start_boot_analysis-Neat : (f : Facts) (w : Worker) → IsTidy w → Neat (start_boot_analysis f w)
unfolding start_boot_analysis
start_boot_analysis-Neat f w h =
    branch (is_given w.analysis || not (has_remote w) || f.is_dirty) (keep h) (keep h)

finish_analysis-Neat :
    (o : Option Origin) (r : Reply) (w : Worker) → IsTidy w → Neat (finish_analysis o r w)
unfolding finish_analysis
finish_analysis-Neat none r w h = keep h
finish_analysis-Neat (some o) (ok t) w h = keep h
finish_analysis-Neat (some o) (err e) w h = keep h

set_prefetch_of-Neat :
    (o : Result Origin) (b : Bool) (r : Reply) (w : Worker)
    → IsTidy w
    → Neat (set_prefetch_of o b r w)
unfolding set_prefetch_of
set_prefetch_of-Neat (err e) b r w h = keep h
set_prefetch_of-Neat (ok o) b r w h = branch (not b) (keep h) (keep h)

download-Neat :
    (p : Option ℕ) (f : Facts) (r : Reply) (w : Worker) → IsTidy w → Neat (download p f r w)
unfolding download
download-Neat p f (ok t) w h = branch (f.is_dirty) (keep h) (branch (is_given p) (keep h) (keep h))
download-Neat p f (err e) w h = branch (f.is_dirty) (keep h) (branch (is_given p) (keep h) (keep h))

switch-Neat : (op : Op) (v : ℕ) (w : Worker) → w.vault ≡ some v → IsTidy w → Neat (switch op v w)
unfolding switch close_vault
switch-Neat (start_load_analysis_op k f) v w e h = start_load_analysis-Neat k f w h
switch-Neat (set_load_prefetch_op k s p) v w e h =
    set_prefetch_of-Neat (origin_for k w.restored) s p w h
switch-Neat (start_boot_analysis_op f) v w e h = start_boot_analysis-Neat f w h
switch-Neat (finish_analysis_op p) v w e h = finish_analysis-Neat w.analysis p w h
switch-Neat cancel_analysis_op v w e h = keep h
switch-Neat (create_empty_op n b s a) v w e h = create_empty-Neat w (some_ne e) h n b s a
switch-Neat (create_op b s a) v w e h = create_file-Neat w (some_ne e) h b s a
switch-Neat (open_op o) v w e h = open_file-Neat w (some_ne e) h o
switch-Neat (open_remote_op k r o p) v w e h =
    open_remote-Neat w (some_ne e) h k (open_publication r) o p
switch-Neat (prepare_state_op p s i d k f) v w e h =
    prepare_dropped-Neat f (drop_state w) h p s i d k
switch-Neat (candidate_read_op t r) v w e h = candidate_read-Neat w.candidate t r w h
switch-Neat (discard_state_op t) v w e h = discard_state-Neat w.candidate t w h
switch-Neat (commit_state_op t f c p) v w e h = commit_state-Neat w.candidate t f c p v w refl e h
switch-Neat (wait_load_prefetch_op id r) v w e h = wait_load_prefetch-Neat id r w h
switch-Neat (sign_relay_challenge_op b r) v w e h =
    branch (not w.identity) (keep h) (branch (b) (keep h) (keep h))
switch-Neat (read_op n r) v w e h = branch (length_ok (safe_nat n)) (keep h) (keep h)
switch-Neat (write_op r) v w e h = keep h
switch-Neat (save_op b c s a) v w e h = save_begun-Neat w (some_ne e) h b c s a
switch-Neat (download_op f r) v w e h = download-Neat w.prepared f r w h
switch-Neat retry_op v w e h = branch (is_given w.prepared) (keep h) (keep h)
switch-Neat (discard_op p) v w e h = keep h
switch-Neat (verify_op r) v w e h = keep h
switch-Neat (save_state_op r) v w e h = keep h
switch-Neat (export_read_only_key_op r) v w e h = keep h
switch-Neat (other_op r) v w e h = keep h
switch-Neat close_op v w e h = keep (record { only = tt; bound = tt; closed = λ f. refl })
switch-Neat (open_read_only_op k b o c) v w e h = keep h
switch-Neat (open_remote_read_only_op k r o c p) v w e h = keep h
switch-Neat (unlock_op m) v w e h = keep h

with_vault-Neat :
    (o : Option ℕ) (op : Op) (w : Worker) → w.vault ≡ o → IsTidy w → Neat (with_vault o op w)
unfolding with_vault
with_vault-Neat none op w e h = keep h
with_vault-Neat (some v) op w e h =
    branch (is_given w.analysis && wants_no_analysis op) (keep h) (switch-Neat op v w e h)

guarded-Neat : (op : Op) (w : Worker) → IsTidy w → Neat (guarded op w)
unfolding guarded
guarded-Neat (open_read_only_op k b o c) w h = open_read_only-Neat k b o c w.vault w refl h
guarded-Neat (open_remote_read_only_op k r o c p) w h =
    open_remote_read_only-Neat k (open_publication r) o c p w.vault w refl h
guarded-Neat (unlock_op m) w h = unlock-Neat m w.vault w refl h
guarded-Neat close_op w h =
    branch (is_given w.vault) (with_vault-Neat w.vault close_op w refl h) (keep h)
guarded-Neat op w h = with_vault-Neat w.vault op w refl h

execute-Neat : (op : Op) (w : Worker) → IsTidy w → Neat (execute op w)
unfolding execute
execute-Neat op w h =
    branch (is_given w.vault && not w.identity && wants_identity op) (keep h) (guarded-Neat op w h)

run-keeps : (ops : List Op) (w : Worker) → IsTidy w → IsTidy (run w ops)
unfolding run
run-keeps [] w h = h
run-keeps (op ∷ ops) w h = run-keeps ops (execute op w).0 (execute-Neat op w h).neat

-- After any operations, with whatever answers and failures: the sources are none, or one that is
-- the disk's; the disk's source has an id that has been given out; and without a vault there is no
-- disk, so no source either.
pub run-IsTidy : (ops : List Op) → IsTidy (run create ops)
run-IsTidy ops =
    run-keeps ops create (unfold create in record { only = tt; bound = tt; closed = λ f. refl })

-- `openRemote` by an unlocked identity, on a tidy Worker, when the publication and the vault open but
-- starting the background prefetch fails: the error is returned, and the Worker is left with the new
-- publication as its disk while its source has been removed, and the source before with it.
pub open_remote-lost :
    (w : Worker) (v : ℕ) (p : Publication) (c : Code)
    → IsTidy w
    → w.vault ≡ some v
    → w.identity ≡ true
    → w.analysis ≡ none
    → open_publication p ≡ ok tt
    → ((execute (open_remote_op false p [] (err c)) w).1 ≡ err c)
      × ((execute (open_remote_op false p [] (err c)) w).0.current ≡ some (w.source_id + 1))
      × ((execute (open_remote_op false p [] (err c)) w).0.sources ≡ [])
unfolding execute guarded with_vault switch open_remote remote_found first_error remote_opened
    remote_prefetched
open_remote-lost w v p c h e i a o =
    rw (e, i, a, o)
      (
        refl,
        refl,
        ap (delete_source (w.source_id + 1))
              (replaced_eq w.current w.sources w.source_id true h.only h.bound)
            ∙ delete-same (record { id = w.source_id + 1; is_remote = true }),
      )
