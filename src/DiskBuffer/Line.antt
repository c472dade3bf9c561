-- ===== src/DiskBuffer/Line.antt =====
-- client.js: the requests that have been called back and those that wait, which the steps of the
-- adapter keep in one line.
use my.Base.{ℕ, ◌≡◌, refl, sym, ap, ◌∙◌, ◌||◌, List, [], ◌∷◌, ◌++◌, if◌then◌else◌, if_cases, ltb}
use mathlib.Core.List.{append_assoc, append-nil}
use my.DiskBuffer.{
  Bytes, Operation, read, caching, write, Request, Pumping, idle, serving, reporting, Call, send,
  callback, on_error, Buffer, Event, enqueue, issue, pump_idle, forget_sector, deliver,
  cache_sector, serve, reject, report, start_retry, fail_now, step,
}

abbrev pub callbacks : List Call → List ℕ
callbacks [] = []
callbacks (callback id bytes ∷ cs) = id ∷ callbacks cs
callbacks (_ ∷ cs) = callbacks cs

abbrev pub ids : List Request → List ℕ
ids [] = []
ids ((id, op) ∷ rs) = id ∷ ids rs

-- Those that have been called back and those that wait.
abbrev pub line : Buffer → List ℕ
line b = callbacks b.calls ++ ids b.queue

abbrev pub added : Buffer → Event → List ℕ
added b (enqueue id op) = if b.disposed then [] else id ∷ []
added b _ = []

-- The requests that a run takes in, which are those made before `dispose`.
abbrev pub accepted : Buffer → List Event → List ℕ
accepted b [] = []
accepted b (e ∷ es) = added b e ++ accepted (step b e) es

callbacks-++ : (cs ds : List Call) → callbacks (cs ++ ds) ≡ callbacks cs ++ callbacks ds
callbacks-++ [] ds = refl
callbacks-++ (send op ∷ cs) ds = callbacks-++ cs ds
callbacks-++ (callback id bytes ∷ cs) ds = ap (λ l. id ∷ l) (callbacks-++ cs ds)
callbacks-++ (on_error ∷ cs) ds = callbacks-++ cs ds

pub ids-++ : (rs ss : List Request) → ids (rs ++ ss) ≡ ids rs ++ ids ss
ids-++ [] ss = refl
ids-++ (r ∷ rs) ss = ap (λ l. r.0 ∷ l) (ids-++ rs ss)

-- What the steps keep: the line, and whether the adapter is disposed.
pub record Same (b k : Buffer) : Type 0 where
  pub line : line k ≡ line b
  pub disposed : k.disposed ≡ b.disposed

Same-refl : (b : Buffer) → Same b b
Same-refl b = record { line = refl; disposed = refl }

silent :
    (b k : Buffer) (c : Call)
    → callbacks (c ∷ []) ≡ []
    → k.calls ≡ b.calls ++ c ∷ []
    → k.queue ≡ b.queue
    → k.disposed ≡ b.disposed
    → Same b k
silent b k c z e q d = record {
  line =
      rw e (
        rw q
          (rw (callbacks-++ b.calls (c ∷ [])) (rw z (rw (append-nil (callbacks b.calls)) refl))));
  disposed = d;
}

issue-Same : (q : List Request) (b : Buffer) → Same b (issue q b)
unfolding issue
issue-Same [] b = record { line = refl; disposed = refl }
issue-Same ((id, op) ∷ q) b =
    if_cases (Same b) (b.failed || b.disposed) _ _ (λ _. record { line = refl; disposed = refl })
      (λ _. silent b _ (send op) refl refl refl refl)

pub pump_idle-Same : (p : Pumping) (b : Buffer) → Same b (pump_idle p b)
unfolding pump_idle
pump_idle-Same idle b =
    if_cases (Same b) (b.failed || b.disposed) _ _ (λ _. Same-refl b) (λ _. issue-Same b.queue b)
pump_idle-Same serving b = Same-refl b
pump_idle-Same reporting b = Same-refl b

deliver-Same : (q : List Request) (r : Bytes) (b : Buffer) → b.queue ≡ q → Same b (deliver q r b)
unfolding deliver
deliver-Same [] r b e = record { line = refl; disposed = refl }
deliver-Same ((id, op) ∷ q) r b e =
    let k : Buffer = record b {
      queue = q;
      boot_sector = cache_sector op r b.boot_sector;
      calls = b.calls ++ callback id r ∷ [];
    } in
    let next = issue-Same q k in
    record {
      line =
          next.line
          ∙ rw (callbacks-++ b.calls (callback id r ∷ [])) (
              append_assoc (callbacks b.calls) (id ∷ []) (ids q)
              ∙ ap (λ s. callbacks b.calls ++ ids s) (sym e));
      disposed = next.disposed;
    }

pub serve-Same : (p : Pumping) (r : Bytes) (b : Buffer) → Same b (serve p r b)
unfolding serve
serve-Same idle r b = Same-refl b
serve-Same serving r b =
    if_cases (Same b) b.disposed _ _ (λ _. record { line = refl; disposed = refl })
      (λ _. deliver-Same b.queue r b refl)
serve-Same reporting r b = Same-refl b

pub reject-Same : (p : Pumping) (b : Buffer) → Same b (reject p b)
unfolding reject
reject-Same idle b = Same-refl b
reject-Same serving b = silent b _ on_error refl refl refl refl
reject-Same reporting b = Same-refl b

pub report-Same : (p : Pumping) (b : Buffer) → Same b (report p b)
unfolding report
report-Same idle b = Same-refl b
report-Same serving b = Same-refl b
report-Same reporting b = record { line = refl; disposed = refl }

pub retry-Same : (p : Pumping) (b : Buffer) → Same b (start_retry p b)
unfolding start_retry
retry-Same idle b =
    if_cases (Same b) b.disposed _ _ (λ _. Same-refl b)
      (λ _. record { line = refl; disposed = refl })
retry-Same serving b = Same-refl b
retry-Same reporting b = Same-refl b

pub forget-Same : (op : Operation) (b : Buffer) → Same b (forget_sector op b)
unfolding forget_sector
forget-Same (read o n) b = Same-refl b
forget-Same (caching o n) b = Same-refl b
forget-Same (write o bytes) b =
    if_cases (Same b) (ltb o 512) _ _ (λ _. record { line = refl; disposed = refl })
      (λ _. Same-refl b)

pub fail-Same : (b : Buffer) → Same b (fail_now b)
unfolding fail_now
fail-Same b =
    if_cases (Same b) b.failed _ _ (λ _. Same-refl b) (λ _. silent b _ on_error refl refl refl refl)
