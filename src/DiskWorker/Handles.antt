-- ===== src/DiskWorker/Handles.antt =====
-- worker.js: what opening, creating and saving do to the handles of vaults.
use my.Base.{
  ℕ, ◌+◌, ◌≡◌, refl, ap, Bool, true, false, not, Option, none, some, List, [], ◌∷◌, ◌++◌, ltb, ◌==◌,
  if◌then◌else◌, if_cases, arith,
}
use my.Base.Num.{Num}
use my.Base.Failure.{Result, ok, err}
use my.DiskWorker.{Reply, Candidate, Worker, Outcome, add_source, free_handle, candidate_handle}
use my.DiskWorker.Open.{
  read_only_checked, read_only_opened, open_read_only, remote_read_only_prefetched,
  remote_read_only_checked, remote_read_only_opened, remote_read_only, open_remote_read_only,
  make_identity, unlock, first_error, accept_build, build_from, begin_build, create_file,
  create_end, create_empty, open_opened, open_file, remote_prefetched, remote_opened, remote_found,
  open_remote, save_begun,
}

abbrev pub count : ℕ → List ℕ → ℕ
count h [] = 0
count h (k ∷ ks) = (if k == h then 1 else 0) + count h ks

pub count-++ : (h : ℕ) (xs ys : List ℕ) → count h (xs ++ ys) ≡ count h xs + count h ys
count-++ h [] ys = omega arith
count-++ h (x ∷ xs) ys = omega (arith, count-++ h xs ys)

-- Each vault that was made has been freed once, or is the disk's, or the candidate's.
pub record Held (vault : Option ℕ) (candidate : Option Candidate) (next : ℕ) (freed : List ℕ)
    : Type 0 where
  pub once :
      (h : ℕ)
      → count h freed
          + count h (free_handle vault)
          + count h (free_handle (candidate_handle candidate))
        ≡ (if ltb h next then 1 else 0)

abbrev pub IsOwned : Worker → Type 0
IsOwned w = Held w.vault w.candidate w.next_handle w.freed

-- The state after an operation.
abbrev pub Keeps : Outcome → Type 0
Keeps out = IsOwned out.0

module _ {v : Option ℕ} {c : Option Candidate} {n : ℕ} {fs : List ℕ} (e : v ≡ none)
    (h : Held v c n fs) where
  at_none : (i : ℕ) → count i (free_handle v) ≡ 0
  at_none i = ap (λ o. count i (free_handle o)) e

  -- A new vault is the disk's, or freed again.
  Held-new : Held (some n) c (n + 1) fs
  Held-new = record { once = λ i. ground (arith, h.once i, at_none i) }

  Held-lost : Held v c (n + 1) (fs ++ n ∷ [])
  Held-lost = record { once = λ i. ground (arith, h.once i, at_none i, count-++ i fs (n ∷ [])) }

  Held-none : Held none c n fs
  Held-none = record { once = λ i. omega (arith, h.once i, at_none i) }

Held-none_lost :
    {c : Option Candidate} {n : ℕ} {fs : List ℕ}
    → Held none c n fs
    → Held none c (n + 1) (fs ++ n ∷ [])
Held-none_lost h = Held-lost refl h

module _ (id : ℕ) (w : Worker) (e : w.vault ≡ none) (h : IsOwned w) where
  read_only_checked-Keeps : (r : Reply) → Keeps (read_only_checked r id w)
  unfolding read_only_checked
  read_only_checked-Keeps (ok t) = Held-new e h
  read_only_checked-Keeps (err c) = Held-lost e h

  read_only_opened-Keeps : (r s : Reply) → Keeps (read_only_opened r s id w)
  unfolding read_only_opened
  read_only_opened-Keeps (ok t) s = read_only_checked-Keeps s
  read_only_opened-Keeps (err c) s = h

  remote_read_only_prefetched-Keeps : (r : Reply) → Keeps (remote_read_only_prefetched r id w)
  unfolding remote_read_only_prefetched
  remote_read_only_prefetched-Keeps (ok t) = Held-new e h
  remote_read_only_prefetched-Keeps (err c) = Held-none_lost (Held-none e h)

  remote_read_only_checked-Keeps : (r s : Reply) → Keeps (remote_read_only_checked r s id w)
  unfolding remote_read_only_checked
  remote_read_only_checked-Keeps (ok t) s = remote_read_only_prefetched-Keeps s
  remote_read_only_checked-Keeps (err c) s = Held-none_lost (Held-none e h)

  remote_read_only_opened-Keeps : (r s t : Reply) → Keeps (remote_read_only_opened r s t id w)
  unfolding remote_read_only_opened
  remote_read_only_opened-Keeps (ok u) s t = remote_read_only_checked-Keeps s t
  remote_read_only_opened-Keeps (err c) s t = Held-none e h

pub open_read_only-Keeps :
    (k b : Bool) (r s : Reply) (o : Option ℕ) (w : Worker)
    → w.vault ≡ o
    → IsOwned w
    → Keeps (open_read_only k b r s o w)
unfolding open_read_only
open_read_only-Keeps k b r s (some v) w e h = h
open_read_only-Keeps k b r s none w e h =
    if_cases Keeps (not k) _ _ (λ _. h)
      (λ _.
        if_cases Keeps (not b) _ _ (λ _. h)
          (λ _. read_only_opened-Keeps (w.source_id + 1) (add_source false w) e h r s))

remote_read_only-Keeps :
    (m r s t : Reply) (w : Worker) → w.vault ≡ none → IsOwned w → Keeps (remote_read_only m r s t w)
unfolding remote_read_only
remote_read_only-Keeps (err c) r s t w e h = h
remote_read_only-Keeps (ok u) r s t w e h =
    remote_read_only_opened-Keeps (w.source_id + 1) (add_source true w) e h r s t

pub open_remote_read_only-Keeps :
    (k : Bool) (m r s t : Reply) (o : Option ℕ) (w : Worker)
    → w.vault ≡ o
    → IsOwned w
    → Keeps (open_remote_read_only k m r s t o w)
unfolding open_remote_read_only
open_remote_read_only-Keeps k m r s t (some v) w e h = h
open_remote_read_only-Keeps k m r s t none w e h =
    if_cases Keeps (not k) _ _ (λ _. h) (λ _. remote_read_only-Keeps m r s t w e h)

make_identity-Keeps :
    (r : Reply) (w : Worker) → w.vault ≡ none → IsOwned w → Keeps (make_identity r w)
unfolding make_identity
make_identity-Keeps (ok t) w e h = Held-new e h
make_identity-Keeps (err c) w e h = h

pub unlock-Keeps :
    (r : Reply) (o : Option ℕ) (w : Worker) → w.vault ≡ o → IsOwned w → Keeps (unlock r o w)
unfolding unlock
unlock-Keeps r (some v) w e h = h
unlock-Keeps r none w e h = make_identity-Keeps r w e h

-- Building, creating, opening and saving leave the handles alone.
accept_build-Keeps : (r : Reply) (w : Worker) → IsOwned w → Keeps (accept_build r w)
unfolding accept_build
accept_build-Keeps (ok t) w h = h
accept_build-Keeps (err c) w h = h

build_from-Keeps : (r s : Reply) (w : Worker) → IsOwned w → Keeps (build_from r s w)
unfolding build_from
build_from-Keeps (ok t) s w h = accept_build-Keeps s w h
build_from-Keeps (err c) s w h = h

begin_build-Keeps :
    (b : Reply) (rs : List Reply) (s : Reply) (w : Worker)
    → IsOwned w
    → Keeps (begin_build b rs s w)
unfolding begin_build
begin_build-Keeps (ok t) rs s w h = build_from-Keeps (first_error rs) s w h
begin_build-Keeps (err c) rs s w h = h

pub create_file-Keeps :
    (b : Reply) (rs : List Reply) (s : Reply) (w : Worker)
    → IsOwned w
    → Keeps (create_file b rs s w)
unfolding create_file create_end
create_file-Keeps b rs s w h = begin_build-Keeps b rs s (add_source false w) h

pub create_empty-Keeps :
    (n : Num) (b : Reply) (rs : List Reply) (s : Reply) (w : Worker)
    → IsOwned w
    → Keeps (create_empty n b rs s w)
unfolding create_empty
create_empty-Keeps n b rs s w h = if_cases Keeps _ _ _ (λ _. create_file-Keeps b rs s w h) (λ _. h)

open_opened-Keeps : (r : Reply) (id : ℕ) (w : Worker) → IsOwned w → Keeps (open_opened r id w)
unfolding open_opened
open_opened-Keeps (ok t) id w h = h
open_opened-Keeps (err c) id w h = h

pub open_file-Keeps : (r : Reply) (w : Worker) → IsOwned w → Keeps (open_file r w)
unfolding open_file
open_file-Keeps r w h = open_opened-Keeps r (w.source_id + 1) (add_source false w) h

remote_prefetched-Keeps :
    (r : Reply) (id : ℕ) (w : Worker) → IsOwned w → Keeps (remote_prefetched r id w)
unfolding remote_prefetched
remote_prefetched-Keeps (ok t) id w h = h
remote_prefetched-Keeps (err c) id w h = h

remote_opened-Keeps :
    (r s : Reply) (id : ℕ) (w : Worker) → IsOwned w → Keeps (remote_opened r s id w)
unfolding remote_opened
remote_opened-Keeps (ok t) s id w h = remote_prefetched-Keeps s id _ h
remote_opened-Keeps (err c) s id w h = h

remote_found-Keeps :
    (m : Reply) (rs : List Reply) (s : Reply) (w : Worker)
    → IsOwned w
    → Keeps (remote_found m rs s w)
unfolding remote_found
remote_found-Keeps (ok t) rs s w h =
    remote_opened-Keeps (first_error rs) s (w.source_id + 1) (add_source true w) h
remote_found-Keeps (err c) rs s w h = h

pub open_remote-Keeps :
    (k : Bool) (m : Reply) (rs : List Reply) (s : Reply) (w : Worker)
    → IsOwned w
    → Keeps (open_remote k m rs s w)
unfolding open_remote
open_remote-Keeps k m rs s w h = if_cases Keeps k _ _ (λ _. h) (λ _. remote_found-Keeps m rs s w h)

pub save_begun-Keeps :
    (b : Result Bool) (c : Reply) (rs : List Reply) (s : Reply) (w : Worker)
    → IsOwned w
    → Keeps (save_begun b c rs s w)
unfolding save_begun
save_begun-Keeps (ok true) c rs s w h = build_from-Keeps (first_error rs) s w h
save_begun-Keeps (ok false) c rs s w h = h
save_begun-Keeps (err e) c rs s w h = h
