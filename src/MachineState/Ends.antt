-- ===== src/MachineState/Ends.antt =====
-- machine-state.js: how the calls of a restoration settle what it made.
use my.Base.{
  ◌≤◌, ℕ, ◌+◌, ◌≡◌, ap, ◌∙◌, Bool, true, false, List, [], ◌∷◌, ◌++◌, if◌then◌else◌, arith,
}
use my.Base.Failure.{ok, err}
use my.MachineState.{
  Call, run_machine, unlisten, prepare_state, create_adapter, create_machine, commit_state,
  destroy_machine, dispose_adapter, discard_state, Progress, Outcome, if_done, restore_end,
}

-- The kinds of calls that are counted.
pub data Kind : Type 0 where
  makes_machine makes_adapter makes_state commits ends_machine ends_adapter ends_state runs : Kind

abbrev pub one : Kind → Call → ℕ
one makes_machine create_machine = 1
one makes_adapter create_adapter = 1
one makes_state prepare_state = 1
one commits commit_state = 1
one ends_machine destroy_machine = 1
one ends_adapter dispose_adapter = 1
one ends_state discard_state = 1
one runs run_machine = 1
one _ _ = 0

abbrev pub tally : Kind → List Call → ℕ
tally k [] = 0
tally k (c ∷ cs) = one k c + tally k cs

tally-snoc : (k : Kind) (cs : List Call) (c : Call) → tally k (cs ++ c ∷ []) ≡ tally k cs + one k c
tally-snoc k [] c = omega arith
tally-snoc k (d ∷ cs) c = omega (arith, tally-snoc k cs c)

abbrev pub flag : Bool → ℕ
flag b = if b then 1 else 0

-- What a restoration has done when it ends: it has committed and undone nothing, or it has ended each
-- thing that it made, and runs the machine again if `resumes`. A restoration that fails may have
-- replaced the disk only if `replaced`.
pub record Committed (cs : List Call) : Type 0 where
  pub commit : tally commits cs ≡ 1
  pub kept : tally ends_machine cs + tally ends_adapter cs + tally ends_state cs + tally runs cs ≡ 0

pub record Undone (resumes replaced : Bool) (cs : List Call) : Type 0 where
  pub commit : tally commits cs ≤ flag replaced
  pub machines : tally ends_machine cs ≡ tally makes_machine cs
  pub adapters : tally ends_adapter cs ≡ tally makes_adapter cs
  pub states : tally ends_state cs ≡ tally makes_state cs
  pub resumed : tally runs cs ≡ flag resumes

abbrev pub Settled : Bool → Bool → Outcome → Type 0
Settled resumes replaced (p, ok t) = Committed p.calls
Settled resumes replaced (p, err c) = Undone resumes replaced p.calls

-- Before the end: what there is has been made once, and nothing has been ended.
pub record Even (state adapter machine committed : Bool) (cs : List Call) : Type 0 where
  pub states : tally makes_state cs ≡ flag state
  pub adapters : tally makes_adapter cs ≡ flag adapter
  pub machines : tally makes_machine cs ≡ flag machine
  pub commit : tally commits cs ≡ flag committed
  pub ended :
      tally ends_machine cs + tally ends_adapter cs + tally ends_state cs + tally runs cs ≡ 0

module _ {s a m k : Bool} {cs : List Call} (h : Even s a m k cs) where
  -- One more call: it makes what was not there, or nothing that is counted.
  pub Even-snoc :
      (c : Call) (s' a' m' k' : Bool)
      → flag s + one makes_state c ≡ flag s'
      → flag a + one makes_adapter c ≡ flag a'
      → flag m + one makes_machine c ≡ flag m'
      → flag k + one commits c ≡ flag k'
      → one ends_machine c + one ends_adapter c + one ends_state c + one runs c ≡ 0
      → Even s' a' m' k' (cs ++ c ∷ [])
  Even-snoc c s' a' m' k' p q r t u = record {
    states = tally-snoc makes_state cs c ∙ ap (λ n. n + one makes_state c) h.states ∙ p;
    adapters = tally-snoc makes_adapter cs c ∙ ap (λ n. n + one makes_adapter c) h.adapters ∙ q;
    machines = tally-snoc makes_machine cs c ∙ ap (λ n. n + one makes_machine c) h.machines ∙ r;
    commit = tally-snoc commits cs c ∙ ap (λ n. n + one commits c) h.commit ∙ t;
    ended = omega (
      arith,
      h.ended,
      tally-snoc ends_machine cs c,
      tally-snoc ends_adapter cs c,
      tally-snoc ends_state cs c,
      tally-snoc runs cs c,
    );
  }

-- A call of `finally`, if it is made.
tally-done :
    (k : Kind) (b : Bool) (c : Call) (p : Progress)
    → tally k (if_done b c p).calls ≡ tally k p.calls + (if b then one k c else 0)
tally-done k true c p = tally-snoc k p.calls c
tally-done k false c p = omega arith

pub Undone-end :
    (resumes replaced s a m k snap : Bool) (cs : List Call)
    → flag k ≤ flag replaced
    → Even s a m k cs
    → Undone resumes replaced
        (restore_end resumes (record {
          prepared = s;
          has_adapter = a;
          has_candidate = m;
          committed = false;
          snapshot_ready = snap;
          calls = cs;
        })).calls
unfolding restore_end
Undone-end resumes replaced s a m k snap cs l h =
    let p : Progress = record {
      prepared = s;
      has_adapter = a;
      has_candidate = m;
      committed = false;
      snapshot_ready = snap;
      calls = cs ++ unlisten ∷ [];
    } in
    let p1 = if_done m destroy_machine p in
    let p2 = if_done a dispose_adapter p1 in
    let p3 = if_done s discard_state p2 in
    let count = λ (k : Kind).
      tally-done k resumes run_machine p3
      ∙ ap (λ n. n + (if resumes then one k run_machine else 0))
          (tally-done k s discard_state p2
            ∙ ap (λ n. n + (if s then one k discard_state else 0))
                (tally-done k a dispose_adapter p1
                  ∙ ap (λ n. n + (if a then one k dispose_adapter else 0))
                      (tally-done k m destroy_machine p
                        ∙ ap (λ n. n + (if m then one k destroy_machine else 0))
                            (tally-snoc k cs unlisten)))) in
    record {
      commit = ground (arith, count commits, h.commit, l);
      machines = ground (arith, count ends_machine, count makes_machine, h.machines, h.ended);
      adapters = ground (arith, count ends_adapter, count makes_adapter, h.adapters, h.ended);
      states = ground (arith, count ends_state, count makes_state, h.states, h.ended);
      resumed = ground (arith, count runs, h.ended);
    }

pub Committed-end :
    (resumes s a m : Bool) (cs : List Call)
    → Even s a m true cs
    → Committed
        (restore_end resumes (record {
          prepared = s;
          has_adapter = a;
          has_candidate = m;
          committed = true;
          snapshot_ready = false;
          calls = cs;
        })).calls
unfolding restore_end
Committed-end resumes s a m cs h = record {
  commit = tally-snoc commits cs unlisten ∙ ap (λ n. n + 0) h.commit;
  kept = omega (
    arith,
    h.ended,
    tally-snoc ends_machine cs unlisten,
    tally-snoc ends_adapter cs unlisten,
    tally-snoc ends_state cs unlisten,
    tally-snoc runs cs unlisten,
  );
}
