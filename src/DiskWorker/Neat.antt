-- ===== src/DiskWorker/Neat.antt =====
-- worker.js: the operations on a state candidate, and the sources that they close.
use my.Base.{ℕ, ◌≡◌, Bool, true, false, ◌&&◌, Option, none, some, ◌==◌}
use my.Base.Failure.{Result, ok, err}
use my.DiskWorker.{Reply, Candidate, Facts, Worker, is_given, has_remote}
use my.DiskWorker.State.{
  Decoded, make_candidate, decoded_state, state_input, published_state, prepare_dropped,
  candidate_read, discard_state, same_source, commit_checked, commit_state,
}
use my.DiskWorker.Sources.{IsTidy}
use my.DiskWorker.Opened.{Neat, keep, branch}

make_candidate-Neat :
    (r : Reply) (d : Decoded) (p : Option ℕ) (f : Facts) (w : Worker)
    → IsTidy w
    → Neat (make_candidate r d p f w)
unfolding make_candidate
make_candidate-Neat (err e) d p f w h = keep h
make_candidate-Neat (ok t) d p f w h = keep h

module _ (f : Facts) (w : Worker) (h : IsTidy w) where
  decoded_state-Neat :
      (d : Result Decoded) (r : Reply) (p : Option ℕ) → Neat (decoded_state d r p f w)
  unfolding decoded_state
  decoded_state-Neat (err e) r p = keep h
  decoded_state-Neat (ok d) r p =
      branch (d.names_other && has_remote w) (keep h) (make_candidate-Neat r d p f w h)

  state_input-Neat :
      (i : Reply) (d : Result Decoded) (r : Reply) (p : Option ℕ) → Neat (state_input i d r p f w)
  unfolding state_input
  state_input-Neat (err e) d r p = keep h
  state_input-Neat (ok t) d r p = decoded_state-Neat d r p

  published_state-Neat :
      (s : Option (Result ℕ)) (i : Reply) (d : Result Decoded) (r : Reply)
      → Neat (published_state s i d r f w)
  unfolding published_state
  published_state-Neat none i d r = state_input-Neat i d r none
  published_state-Neat (some (err e)) i d r = keep h
  published_state-Neat (some (ok id)) i d r = state_input-Neat i d r (some id)

  pub prepare_dropped-Neat :
      (b : Bool) (s : Option (Result ℕ)) (i : Reply) (d : Result Decoded) (r : Reply)
      → Neat (prepare_dropped b s i d r f w)
  unfolding prepare_dropped
  prepare_dropped-Neat true s i d r = branch (has_remote w) (published_state-Neat s i d r) (keep h)
  prepare_dropped-Neat false s i d r = branch (is_given s) (keep h) (decoded_state-Neat d r none)

pub candidate_read-Neat :
    (c : Option Candidate) (t : ℕ) (r : Reply) (w : Worker)
    → IsTidy w
    → Neat (candidate_read c t r w)
unfolding candidate_read
candidate_read-Neat none t r w h = keep h
candidate_read-Neat (some c) t r w h = branch (t == c.token) (keep h) (keep h)

pub discard_state-Neat :
    (c : Option Candidate) (t : ℕ) (w : Worker) → IsTidy w → Neat (discard_state c t w)
unfolding discard_state
discard_state-Neat none t w h = keep h
discard_state-Neat (some c) t w h = branch (c.token == t) (keep h) (keep h)

commit_checked-Neat :
    (r p : Reply) (c : Candidate) (v : ℕ) (w : Worker)
    → w.candidate ≡ some c
    → w.vault ≡ some v
    → IsTidy w
    → Neat (commit_checked r p c v w)
unfolding commit_checked
commit_checked-Neat (err e) p c v w a b h = keep h
commit_checked-Neat (ok t) p c v w a b h =
    keep (record { only = h.only; bound = h.bound; closed = λ f. cc })

pub commit_state-Neat :
    (c : Option Candidate) (t : ℕ) (f : Facts) (r p : Reply) (v : ℕ) (w : Worker)
    → w.candidate ≡ c
    → w.vault ≡ some v
    → IsTidy w
    → Neat (commit_state c t f r p v w)
unfolding commit_state
commit_state-Neat none t f r p v w a b h = keep h
commit_state-Neat (some c) t f r p v w a b h =
    branch (t == c.token && c.revision == f.revision && same_source c.source w.current)
      (commit_checked-Neat r p c v w a b h) (keep h)
