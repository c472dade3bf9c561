-- ===== src/DiskWorker/Kept.antt =====
-- worker.js: the operations on a state candidate, and the vaults that they free.
use my.Base.{
  ℕ, ◌+◌, ◌≡◌, refl, ap, Bool, true, false, ◌&&◌, Option, none, some, List, [], ◌∷◌, ◌++◌, ◌==◌,
  if◌then◌else◌, if_cases, arith,
}
use my.Base.Failure.{Result, ok, err}
use my.DiskWorker.{
  Reply, Candidate, Facts, Worker, Outcome, free_handle, candidate_handle, has_remote,
}
use my.DiskWorker.State.{
  Decoded, make_candidate, decoded_state, state_input, published_state, prepare_dropped,
  candidate_read, discard_state, same_source, commit_checked, commit_state,
}
use my.DiskWorker.Handles.{count, count-++, Held, IsOwned, Keeps}

module _ {v : Option ℕ} {c : Option Candidate} {n : ℕ} {fs : List ℕ} (h : Held v c n fs) where
  pub Held-dropped : Held v none n (fs ++ free_handle (candidate_handle c))
  Held-dropped = record {
    once = λ i. omega (arith, h.once i, count-++ i fs (free_handle (candidate_handle c)));
  }

  Held-fork : c ≡ none → (k : Candidate) → k.vault ≡ n → Held v (some k) (n + 1) fs
  Held-fork e k f = record {
    once = λ i. ground (arith, h.once i, ap (λ o. count i (free_handle (candidate_handle o))) e);
  }

  -- The candidate's vault takes the place of the disk's.
  Held-swap :
      (k : Candidate) (old : ℕ)
      → c ≡ some k
      → v ≡ some old
      → Held (some k.vault) none n (fs ++ old ∷ [])
  Held-swap k old e f = record {
    once = λ i. omega (
      arith,
      h.once i,
      count-++ i fs (old ∷ []),
      ap (λ o. count i (free_handle (candidate_handle o))) e,
      ap (λ o. count i (free_handle o)) f,
    );
  }

  pub Held-closed :
      (old : ℕ)
      → v ≡ some old
      → Held none none n ((fs ++ free_handle (candidate_handle c)) ++ old ∷ [])
  Held-closed old f = record {
    once = λ i. omega (
      arith,
      h.once i,
      count-++ i (fs ++ free_handle (candidate_handle c)) (old ∷ []),
      count-++ i fs (free_handle (candidate_handle c)),
      ap (λ o. count i (free_handle o)) f,
    );
  }

make_candidate-Keeps :
    (r : Reply) (d : Decoded) (p : Option ℕ) (f : Facts) (w : Worker)
    → w.candidate ≡ none
    → IsOwned w
    → Keeps (make_candidate r d p f w)
unfolding make_candidate
make_candidate-Keeps (err e) d p f w c h = h
make_candidate-Keeps (ok t) d p f w c h = Held-fork h c _ refl

module _ (f : Facts) (w : Worker) (c : w.candidate ≡ none) (h : IsOwned w) where
  decoded_state-Keeps :
      (d : Result Decoded) (r : Reply) (p : Option ℕ) → Keeps (decoded_state d r p f w)
  unfolding decoded_state
  decoded_state-Keeps (err e) r p = h
  decoded_state-Keeps (ok d) r p =
      if_cases Keeps _ _ _ (λ _. h) (λ _. make_candidate-Keeps r d p f w c h)

  state_input-Keeps :
      (i : Reply) (d : Result Decoded) (r : Reply) (p : Option ℕ) → Keeps (state_input i d r p f w)
  unfolding state_input
  state_input-Keeps (err e) d r p = h
  state_input-Keeps (ok t) d r p = decoded_state-Keeps d r p

  published_state-Keeps :
      (s : Option (Result ℕ)) (i : Reply) (d : Result Decoded) (r : Reply)
      → Keeps (published_state s i d r f w)
  unfolding published_state
  published_state-Keeps none i d r = state_input-Keeps i d r none
  published_state-Keeps (some (err e)) i d r = h
  published_state-Keeps (some (ok id)) i d r = state_input-Keeps i d r (some id)

  pub prepare_dropped-Keeps :
      (b : Bool) (s : Option (Result ℕ)) (i : Reply) (d : Result Decoded) (r : Reply)
      → Keeps (prepare_dropped b s i d r f w)
  unfolding prepare_dropped
  prepare_dropped-Keeps true s i d r =
      if_cases Keeps (has_remote w) _ _ (λ _. published_state-Keeps s i d r) (λ _. h)
  prepare_dropped-Keeps false s i d r =
      if_cases Keeps _ _ _ (λ _. h) (λ _. decoded_state-Keeps d r none)

-- The same of a known outcome, so that a branch tells its two.
pub record Kept (out : Outcome) : Type 0 where
  pub kept : Keeps out

pub keep : {out : Outcome} → Keeps out → Kept out
keep h = record { kept = h }

pub branch : (b : Bool) {x y : Outcome} → Kept x → Kept y → Kept (if b then x else y)
branch b {x} {y} h k = if_cases Kept b x y (λ _. h) (λ _. k)

pub candidate_read-Kept :
    (c : Option Candidate) (t : ℕ) (r : Reply) (w : Worker)
    → IsOwned w
    → Kept (candidate_read c t r w)
unfolding candidate_read
candidate_read-Kept none t r w h = keep h
candidate_read-Kept (some c) t r w h = branch (t == c.token) (keep h) (keep h)

pub discard_state-Kept :
    (c : Option Candidate) (t : ℕ) (w : Worker) → IsOwned w → Kept (discard_state c t w)
unfolding discard_state
discard_state-Kept none t w h = keep h
discard_state-Kept (some c) t w h = branch (c.token == t) (keep (Held-dropped h)) (keep h)

commit_checked-Kept :
    (r p : Reply) (c : Candidate) (v : ℕ) (w : Worker)
    → w.candidate ≡ some c
    → w.vault ≡ some v
    → IsOwned w
    → Kept (commit_checked r p c v w)
unfolding commit_checked
commit_checked-Kept (err e) p c v w a b h = keep h
commit_checked-Kept (ok t) p c v w a b h = keep (Held-swap h c v a b)

pub commit_state-Kept :
    (c : Option Candidate) (t : ℕ) (f : Facts) (r p : Reply) (v : ℕ) (w : Worker)
    → w.candidate ≡ c
    → w.vault ≡ some v
    → IsOwned w
    → Kept (commit_state c t f r p v w)
unfolding commit_state
commit_state-Kept none t f r p v w a b h = keep h
commit_state-Kept (some c) t f r p v w a b h =
    branch (t == c.token && c.revision == f.revision && same_source c.source w.current)
      (commit_checked-Kept r p c v w a b h) (keep h)
