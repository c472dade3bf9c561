-- ===== src/DiskWorker/Opened.antt =====
-- worker.js: what opening and building a disk do to the sources.
use my.Base.{
  ℕ, ◌+◌, ◌≡◌, ◌≢◌, Bool, true, false, not, Option, none, some, List, if◌then◌else◌, if_cases,
}
use my.Base.Num.{Num, safe_nat}
use my.Base.Failure.{Result, ok, err}
use my.DiskWorker.{Reply, Worker, Outcome, add_source}
use my.DiskWorker.Open.{
  size_ok, read_only_checked, read_only_opened, open_read_only, remote_read_only_prefetched,
  remote_read_only_checked, remote_read_only_opened, remote_read_only, open_remote_read_only,
  make_identity, unlock, first_error, accept_build, build_from, begin_build, create_file,
  create_end, create_empty, open_opened, open_file, remote_prefetched, remote_opened, remote_found,
  open_remote, save_begun,
}
use my.DiskWorker.Sources.{
  IsTidy, Tidy-removed, Tidy-replaced, Tidy-lost, Tidy-closed, Tidy-built, Tidy-unbuilt,
  Tidy-opened,
}

-- The state after an operation is tidy.
pub record Neat (out : Outcome) : Type 0 where
  pub neat : IsTidy out.0

pub keep : {out : Outcome} → IsTidy out.0 → Neat out
keep h = record { neat = h }

pub branch : (b : Bool) {x y : Outcome} → Neat x → Neat y → Neat (if b then x else y)
branch b {x} {y} h k = if_cases Neat b x y (λ _. h) (λ _. k)

pub some_ne : {o : Option ℕ} {v : ℕ} → o ≡ some v → o ≢ none
some_ne e f = cc

-- Opening with a read key, when nothing is open.
module _ (w : Worker) (e : w.vault ≡ none) (h : IsTidy w) where
  read_only_opened-Neat :
      (r s : Reply) → Neat (read_only_opened r s (w.source_id + 1) (add_source false w))
  unfolding read_only_opened read_only_checked
  read_only_opened-Neat (err c) s = keep (Tidy-removed h false)
  read_only_opened-Neat (ok t) (err c) = keep (Tidy-removed h false)
  read_only_opened-Neat (ok t) (ok u) = keep (Tidy-opened h false w.next_handle e)

  remote_read_only_opened-Neat :
      (r s t : Reply) → Neat (remote_read_only_opened r s t (w.source_id + 1) (add_source true w))
  unfolding remote_read_only_opened remote_read_only_checked remote_read_only_prefetched
  remote_read_only_opened-Neat (err c) s t = keep (Tidy-closed h e true)
  remote_read_only_opened-Neat (ok u) (err c) t = keep (Tidy-closed h e true)
  remote_read_only_opened-Neat (ok u) (ok x) (err c) = keep (Tidy-closed h e true)
  remote_read_only_opened-Neat (ok u) (ok x) (ok y) = keep (Tidy-opened h true w.next_handle e)

  remote_read_only-Neat : (m r s t : Reply) → Neat (remote_read_only m r s t w)
  unfolding remote_read_only
  remote_read_only-Neat (err c) r s t = keep h
  remote_read_only-Neat (ok u) r s t = remote_read_only_opened-Neat r s t

  make_identity-Neat : (r : Reply) → Neat (make_identity r w)
  unfolding make_identity
  make_identity-Neat (err c) = keep h
  make_identity-Neat (ok t) = keep (record { only = h.only; bound = h.bound; closed = λ f. cc })

pub open_read_only-Neat :
    (k b : Bool) (r s : Reply) (o : Option ℕ) (w : Worker)
    → w.vault ≡ o
    → IsTidy w
    → Neat (open_read_only k b r s o w)
unfolding open_read_only
open_read_only-Neat k b r s (some v) w e h = keep h
open_read_only-Neat k b r s none w e h =
    branch (not k) (keep h) (branch (not b) (keep h) (read_only_opened-Neat w e h r s))

pub open_remote_read_only-Neat :
    (k : Bool) (m r s t : Reply) (o : Option ℕ) (w : Worker)
    → w.vault ≡ o
    → IsTidy w
    → Neat (open_remote_read_only k m r s t o w)
unfolding open_remote_read_only
open_remote_read_only-Neat k m r s t (some v) w e h = keep h
open_remote_read_only-Neat k m r s t none w e h =
    branch (not k) (keep h) (remote_read_only-Neat w e h m r s t)

pub unlock-Neat :
    (r : Reply) (o : Option ℕ) (w : Worker) → w.vault ≡ o → IsTidy w → Neat (unlock r o w)
unfolding unlock
unlock-Neat r (some v) w e h = keep h
unlock-Neat r none w e h = make_identity-Neat w e h r

-- Building and opening, over a vault.
module _ (w : Worker) (e : w.vault ≢ none) (h : IsTidy w) where
  accept_build-Neat : (r : Reply) → Neat (accept_build r w)
  unfolding accept_build
  accept_build-Neat (ok t) = keep (Tidy-replaced h false e)
  accept_build-Neat (err c) = keep (Tidy-removed h false)

  build_from-Neat : (r s : Reply) → Neat (build_from r s w)
  unfolding build_from
  build_from-Neat (ok t) s = accept_build-Neat s
  build_from-Neat (err c) s = keep h

  pub save_begun-Neat :
      (b : Result Bool) (c : Reply) (rs : List Reply) (s : Reply) → Neat (save_begun b c rs s w)
  unfolding save_begun
  save_begun-Neat (ok true) c rs s = build_from-Neat (first_error rs) s
  save_begun-Neat (ok false) c rs s = keep h
  save_begun-Neat (err x) c rs s = keep h

  -- Building from a file, whose source goes in the end.
  create_built :
      (r s : Reply) → Neat (create_end (w.source_id + 1) (build_from r s (add_source false w)))
  unfolding create_end build_from accept_build
  create_built (err c) s = keep (Tidy-removed h false)
  create_built (ok t) (err c) = keep (Tidy-unbuilt h false false)
  create_built (ok t) (ok u) = keep (Tidy-built h false false e)

  pub create_file-Neat : (b : Reply) (rs : List Reply) (s : Reply) → Neat (create_file b rs s w)
  unfolding create_file begin_build create_end
  create_file-Neat (err c) rs s = keep (Tidy-removed h false)
  create_file-Neat (ok t) rs s = create_built (first_error rs) s

  pub create_empty-Neat :
      (n : Num) (b : Reply) (rs : List Reply) (s : Reply) → Neat (create_empty n b rs s w)
  unfolding create_empty
  create_empty-Neat n b rs s = branch (size_ok (safe_nat n)) (create_file-Neat b rs s) (keep h)

  pub open_file-Neat : (r : Reply) → Neat (open_file r w)
  unfolding open_file open_opened
  open_file-Neat (ok t) = keep (Tidy-replaced h false e)
  open_file-Neat (err c) = keep (Tidy-removed h false)

  remote_opened-Neat :
      (r s : Reply) → Neat (remote_opened r s (w.source_id + 1) (add_source true w))
  unfolding remote_opened remote_prefetched
  remote_opened-Neat (err c) s = keep (Tidy-removed h true)
  remote_opened-Neat (ok t) (ok u) = keep (Tidy-replaced h true e)
  remote_opened-Neat (ok t) (err c) = keep (Tidy-lost h true e)

  remote_found-Neat : (m : Reply) (rs : List Reply) (s : Reply) → Neat (remote_found m rs s w)
  unfolding remote_found
  remote_found-Neat (err c) rs s = keep h
  remote_found-Neat (ok t) rs s = remote_opened-Neat (first_error rs) s

  pub open_remote-Neat :
      (k : Bool) (m : Reply) (rs : List Reply) (s : Reply) → Neat (open_remote k m rs s w)
  unfolding open_remote
  open_remote-Neat k m rs s = branch k (keep h) (remote_found-Neat m rs s)
