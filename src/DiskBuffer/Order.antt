-- ===== src/DiskBuffer/Order.antt =====
-- client.js: the emulator's requests are served in order, none twice and none lost.
use my.Base.{
  ℕ, ◌≡◌, refl, sym, ap, ◌∙◌, true, false, not, ◌&&◌, none, some, List, [], ◌∷◌, ◌++◌, if_cases,
  Bool-cases, inl, inr, arith,
}
use mathlib.Core.List.{append_assoc, append-nil}
use my.DiskBuffer.{
  Operation, Request, Buffer, Event, enqueue, served, rejected, reported, retry, resumed, fail,
  dispose, pump_idle, pump, forget_sector, submit, step, run, create, get_state, is_idle, is_empty,
}
use my.DiskBuffer.Line.{
  line, callbacks, ids, added, accepted, ids-++, Same, pump_idle-Same, serve-Same, reject-Same,
  report-Same, retry-Same, forget-Same, fail-Same,
}

true_not_false : true ≡ false → ⊥
true_not_false e = cc

-- A step of a run in which the adapter is not disposed.
record Step (b : Buffer) (new : List ℕ) (k : Buffer) : Type 0 where
  line : line k ≡ line b ++ new
  disposed : k.disposed ≡ b.disposed

Step-Same : (b k : Buffer) → Same b k → Step b [] k
Step-Same b k s = record { line = s.line ∙ sym (append-nil (line b)); disposed = s.disposed }

submit-Step :
    (id : ℕ) (op : Operation) (b : Buffer) → b.disposed ≡ false → Step b (id ∷ []) (submit id op b)
unfolding submit pump
submit-Step id op b d =
    let f = forget-Same op b in
    let b' = forget_sector op b in
    let k : Buffer = record b' { queue = b'.queue ++ (id, op) ∷ [] } in
    let p = pump_idle-Same b'.pumping k in
    if_cases (Step b (id ∷ [])) b'.disposed b' (pump_idle b'.pumping k)
      (λ e. absurd (ground (arith, f.disposed)))
      (λ _. record {
        line =
            p.line
            ∙ ap (λ l. callbacks b'.calls ++ l) (ids-++ b'.queue ((id, op) ∷ []))
            ∙ sym (append_assoc (callbacks b'.calls) (ids b'.queue) (id ∷ []))
            ∙ ap (λ l. l ++ id ∷ []) f.line;
        disposed = p.disposed ∙ f.disposed;
      })

-- `dispose` is for good.
submit-disposed :
    (id : ℕ) (op : Operation) (b : Buffer) → b.disposed ≡ true → (submit id op b).disposed ≡ true
unfolding submit pump
submit-disposed id op b d =
    let f = forget-Same op b in
    let b' = forget_sector op b in
    if_cases (λ (k : Buffer). k.disposed ≡ true) b'.disposed b' _ (λ e. e)
      (λ e. absurd (ground (arith, f.disposed)))

step-Step : (b : Buffer) (e : Event) → (step b e).disposed ≡ false → Step b (added b e) (step b e)
unfolding step pump
step-Step b (enqueue id op) d =
    if_cases (λ l. Step b l (submit id op b)) b.disposed [] (id ∷ [])
      (λ t. absurd (true_not_false (sym (submit-disposed id op b t) ∙ d)))
      (λ f. submit-Step id op b f)
step-Step b (served r) d = Step-Same b _ (serve-Same b.pumping r b)
step-Step b rejected d = Step-Same b _ (reject-Same b.pumping b)
step-Step b reported d = Step-Same b _ (report-Same b.pumping b)
step-Step b retry d = Step-Same b _ (retry-Same b.pumping b)
step-Step b resumed d = Step-Same b _ (pump_idle-Same b.pumping b)
step-Step b fail d = Step-Same b _ (fail-Same b)
step-Step b dispose d = absurd (true_not_false d)

stays_disposed : (b : Buffer) (e : Event) → b.disposed ≡ true → (step b e).disposed ≡ true
unfolding step pump
stays_disposed b (enqueue id op) d = submit-disposed id op b d
stays_disposed b (served r) d = (serve-Same b.pumping r b).disposed ∙ d
stays_disposed b rejected d = (reject-Same b.pumping b).disposed ∙ d
stays_disposed b reported d = (report-Same b.pumping b).disposed ∙ d
stays_disposed b retry d = (retry-Same b.pumping b).disposed ∙ d
stays_disposed b resumed d = (pump_idle-Same b.pumping b).disposed ∙ d
stays_disposed b fail d = (fail-Same b).disposed ∙ d
stays_disposed b dispose d = refl

run-disposed : (b : Buffer) (es : List Event) → b.disposed ≡ true → (run b es).disposed ≡ true
unfolding run
run-disposed b [] d = d
run-disposed b (e ∷ es) d = run-disposed (step b e) es (stays_disposed b e d)

run-line :
    (b : Buffer) (es : List Event)
    → (run b es).disposed ≡ false
    → line (run b es) ≡ line b ++ accepted b es
unfolding run
run-line b [] d = sym (append-nil (line b))
run-line b (e ∷ es) d =
    let live : (step b e).disposed ≡ false = elim (Bool-cases (step b e).disposed) [
      | inl t ↦ absurd (true_not_false (sym (run-disposed (step b e) es t) ∙ d))
      | inr f ↦ f
    ] in
    run-line (step b e) es d
    ∙ ap (λ l. l ++ accepted (step b e) es) (step-Step b e live).line
    ∙ append_assoc (line b) (added b e) (accepted (step b e) es)

-- Until the adapter is disposed, and whatever fails and is retried in between: the requests that
-- have been called back, followed by those that wait, are the requests made, in their order.
pub run-order :
    (size : ℕ) (es : List Event)
    → (run (create size) es).disposed ≡ false
    → callbacks (run (create size) es).calls ++ ids (run (create size) es).queue
      ≡ accepted (create size) es
run-order size es d = run-line (create size) es d ∙ unfold create in refl

get_state-empty : (b : Buffer) (s : ℕ × ℕ) → get_state b ≡ some s → is_empty b.queue ≡ true
unfolding get_state
get_state-empty b s h =
    if_cases (λ m. m ≡ some s → is_empty b.queue ≡ true)
      (b.snapshot_ready && is_idle b.pumping && is_empty b.queue && not b.failed)
      (some (1, b.byte_length)) none (λ e _. ground arith) (λ _ k. absurd (no_state k)) h
  where
    no_state : none ≡ some s → ⊥
    no_state e = cc

empty_ids : (q : List Request) → is_empty q ≡ true → ids q ≡ []
empty_ids [] h = refl
empty_ids (r ∷ q) h = cc

-- The adapter with `snapshotReady` set.
abbrev pub ready : ℕ → Buffer
ready size = record (create size) { snapshot_ready = true }

-- Where `get_state` gives a state to capture, each request of the emulator has been called back,
-- once and in its order, unless the adapter was disposed.
pub get_state-drained :
    (size : ℕ) (es : List Event) (s : ℕ × ℕ)
    → (run (ready size) es).disposed ≡ false
    → get_state (run (ready size) es) ≡ some s
    → callbacks (run (ready size) es).calls ≡ accepted (ready size) es
get_state-drained size es s d h =
    let b = run (ready size) es in
    sym (append-nil (callbacks b.calls))
    ∙ ap (λ l. callbacks b.calls ++ l) (sym (empty_ids b.queue (get_state-empty b s h)))
    ∙ run-line (ready size) es d
    ∙ unfold create in refl
