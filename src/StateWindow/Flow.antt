-- ===== src/StateWindow/Flow.antt =====
-- torrent-remote.js: each event keeps what a stream has given a beginning of the file.
use my.Base.{
  ℕ, ◌+◌, ◌-◌, ◌≡◌, refl, sym, ap, ◌∙◌, min, false, Option, none, some, List, [], ◌∷◌, ◌++◌, ◌||◌,
  length, take, drop, All, length-take, length-drop, ◌==◌, ==_iff, if_cases, arith,
}
use mathlib.Core.Path.{subst}
use my.StateWindow.{
  Read, Window, Event, pulled, resumed, aborted, cancelled_by_reader, answered, range_bytes, stop,
  find, remove, settle, release, on_answer, fail, on_pull, enqueue, hand_on, take_first, on_resume,
  step,
}
use my.StateWindow.Chain.{
  IsHonest, IsPart, IsAsked, Chain, IsFlowing, take_whole, take_add, fill_for-IsFlowing,
  stop-IsFlowing, find-Found, resolve-Chain, length-resolve,
}

settle-IsFlowing :
    (file : List ℕ) (r : Read) (o : Option (List ℕ)) (w : Window)
    → IsAsked file r
    → IsHonest file (answered r.start o)
    → IsFlowing file w
    → IsFlowing file (settle r o w)
unfolding settle
settle-IsFlowing file r none w q t h = stop-IsFlowing file w h
settle-IsFlowing file r (some b) w q t h =
    if_cases (IsFlowing file) (length b == r.count) _ _
      (λ e. record {
        whole = h.whole;
        output = h.output;
        within = h.within;
        ahead = h.ahead;
        asked = h.asked;
        tally = h.tally;
        few = h.few;
        kept = omega (arith, h.kept, length-resolve r.start b w.pending);
        chain = λ g.
            resolve-Chain file r.start w.offset b w.pending w.next
              (t ((==_iff (length b) r.count).0 e ∙ q)) (h.chain g);
        ended = h.ended;
      })
      (λ e. stop-IsFlowing file w h)

-- What is said of the count of the requests commutes with what a settled request changes.
settle-active :
    (r : Read) (o : Option (List ℕ)) (w : Window)
    → record (settle r o w) { active = (settle r o w).active - 1 }
      ≡ settle r o (record w { active = w.active - 1 })
unfolding settle stop
settle-active r none w = ground arith
settle-active r (some b) w = ground arith

on_answer-IsFlowing :
    (file : List ℕ) (start : ℕ) (found : Option Read) (o : Option (List ℕ)) (w : Window)
    → find start w.running ≡ found
    → IsHonest file (answered start o)
    → IsFlowing file w
    → IsFlowing file (on_answer found o w)
unfolding on_answer release
on_answer-IsFlowing file start none o w e t h = h
on_answer-IsFlowing file start (some r) o w e t h =
    let f = find-Found file start w.running r h.asked e in
    let v : Window = record w { running = remove r.start w.running; active = w.active - 1 } in
    fill_for-IsFlowing 4 file _ (
      subst (IsFlowing file)
        (sym (settle-active r o (record w { running = remove r.start w.running })))
        (settle-IsFlowing file r o v f.asked
          (subst (λ s. IsHonest file (answered s o)) (sym f.at) t)
          (record {
            whole = h.whole;
            output = h.output;
            within = h.within;
            ahead = h.ahead;
            asked = subst (λ s. All (IsAsked file) (remove s w.running)) (sym f.at) f.others;
            tally = omega (arith, h.tally, f.fewer, ap (λ s. length (remove s w.running)) f.at);
            few = omega (arith, h.few);
            kept = h.kept;
            chain = h.chain;
            ended = h.ended;
          })))

fail-IsFlowing : (file : List ℕ) (w : Window) → IsFlowing file w → IsFlowing file (fail w)
fail-IsFlowing file w h =
    let s = stop-IsFlowing file w h in
    record {
      whole = s.whole;
      output = s.output;
      within = s.within;
      ahead = s.ahead;
      asked = s.asked;
      tally = s.tally;
      few = s.few;
      kept = s.kept;
      chain = s.chain;
      ended = s.ended;
    }

on_pull-IsFlowing : (file : List ℕ) (w : Window) → IsFlowing file w → IsFlowing file (on_pull w)
unfolding on_pull
on_pull-IsFlowing file w h =
    if_cases (IsFlowing file) w.stopped _ _ (λ e. fail-IsFlowing file w h)
      (λ e.
        if_cases (IsFlowing file) (w.offset == w.size) _ _
          (λ d. record {
            whole = h.whole;
            output = h.output;
            within = h.within;
            ahead = h.ahead;
            asked = h.asked;
            tally = h.tally;
            few = h.few;
            kept = h.kept;
            chain = h.chain;
            ended = λ _. (==_iff w.offset w.size).0 d;
          })
          (λ d.
            let s = fill_for-IsFlowing 4 file w h in
            record {
              whole = s.whole;
              output = s.output;
              within = s.within;
              ahead = s.ahead;
              asked = s.asked;
              tally = s.tally;
              few = s.few;
              kept = s.kept;
              chain = s.chain;
              ended = s.ended;
            }))

hand_on-IsFlowing :
    (file : List ℕ) (r : Read) (b : Option (List ℕ)) (rest : List Read) (w : Window)
    → r.bytes ≡ b
    → w.pending ≡ r ∷ rest
    → w.stopped ≡ false
    → IsFlowing file w
    → IsFlowing file (hand_on b rest w)
unfolding hand_on enqueue
hand_on-IsFlowing file r none rest w e p g h = h
hand_on-IsFlowing file r (some b) rest w e p g h =
    let c = subst (λ t. Chain file w.offset t w.next) p (h.chain g) in
    let part : b ≡ take range_bytes (drop w.offset file) =
      subst (λ o. IsPart file r.start o) e c.2 ∙ ap (λ s. take range_bytes (drop s file)) c.0 in
    let size : length b ≡ min range_bytes (length file - w.offset) =
      ap length part
      ∙ length-take range_bytes (drop w.offset file)
      ∙ ap (min range_bytes) (length-drop w.offset file) in
    fill_for-IsFlowing 4 file _ (record {
      whole = h.whole;
      output =
          ap (λ t. t ++ b) h.output
          ∙ ap (λ t. take w.offset file ++ t)
              (part
                ∙ sym (take_whole range_bytes (drop w.offset file))
                ∙ ap (λ t. take (length t) (drop w.offset file)) (sym part))
          ∙ take_add w.offset (length b) file;
      within = omega (arith, size, h.whole, h.within);
      ahead = h.ahead;
      asked = h.asked;
      tally = h.tally;
      few = h.few;
      kept = omega (arith, h.kept, ap length p);
      chain = λ _.
          subst (λ n. Chain file (w.offset + n) rest w.next)
            (c.1 ∙ ap (λ s. min range_bytes (length file - s)) c.0 ∙ sym size) c.3;
      ended = λ d. omega (arith, size, h.ended d, h.whole);
    })

take_first-IsFlowing :
    (file : List ℕ) (rs : List Read) (w : Window)
    → w.pending ≡ rs
    → w.stopped ≡ false
    → IsFlowing file w
    → IsFlowing file (take_first rs w)
unfolding take_first
take_first-IsFlowing file [] w p g h = fail-IsFlowing file w h
take_first-IsFlowing file (r ∷ rest) w p g h = hand_on-IsFlowing file r r.bytes rest w refl p g h

on_resume-IsFlowing : (file : List ℕ) (w : Window) → IsFlowing file w → IsFlowing file (on_resume w)
unfolding on_resume
on_resume-IsFlowing file w h =
    if_cases (IsFlowing file) w.stopped _ _ (λ e. fail-IsFlowing file w h)
      (λ e. take_first-IsFlowing file w.pending w refl e h)

pub step-IsFlowing :
    (file : List ℕ) (e : Event) (w : Window)
    → IsHonest file e
    → IsFlowing file w
    → IsFlowing file (step e w)
unfolding step
step-IsFlowing file pulled w t h =
    if_cases (IsFlowing file) (w.waiting || w.closed || w.errored) _ _ (λ e. h)
      (λ e. on_pull-IsFlowing file w h)
step-IsFlowing file resumed w t h =
    if_cases (IsFlowing file) w.waiting _ _ (λ e. on_resume-IsFlowing file w h) (λ e. h)
step-IsFlowing file aborted w t h =
    if_cases (IsFlowing file) w.listening _ _ (λ e. stop-IsFlowing file w h) (λ e. h)
step-IsFlowing file cancelled_by_reader w t h = stop-IsFlowing file w h
step-IsFlowing file (answered start o) w t h =
    on_answer-IsFlowing file start (find start w.running) o w refl t h
