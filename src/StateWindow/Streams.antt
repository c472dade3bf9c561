-- ===== src/StateWindow/Streams.antt =====
-- torrent-remote.js: the stream of a published state gives the bytes of the file in their order.
use my.Base.{
  ℕ, zero, suc, ◌+◌, ◌≤◌, ◌<◌, ◌≡◌, refl, ap, ◌∙◌, true, false, none, some, List, [], ◌∷◌, ◌||◌,
  length, take, All, ◌==◌, if_cases, arith,
}
use my.StateWindow.{
  create, Read, Window, Event, pulled, resumed, aborted, cancelled_by_reader, answered, stop,
  has_room, request, fill_for, fill, find, release, on_answer, on_pull, enqueue, hand_on,
  take_first, on_resume, step, run,
}
use my.StateWindow.Chain.{IsHonest, IsFlowing}
use my.StateWindow.Flow.{step-IsFlowing}

-- Once the window has requested something, it requests all that its limits allow.
abbrev IsBusy : Window → Type 0
IsBusy w = 0 < w.next → has_room w ≡ false

fill_for-IsBusy : (n : ℕ) (w : Window) → 4 ≤ w.active + n → has_room (fill_for n w) ≡ false
unfolding fill_for
fill_for-IsBusy zero w h = unfold has_room in ground arith
fill_for-IsBusy (suc n) w h =
    if_cases (λ v. has_room v ≡ false) (has_room w) _ _
      (λ e. fill_for-IsBusy n (request w) (unfold request in omega arith)) (λ e. e)

fill-IsBusy : (w : Window) → has_room (fill w) ≡ false
fill-IsBusy w = fill_for-IsBusy 4 w (omega arith)

stop-room : (w : Window) → has_room (stop w) ≡ false
unfolding has_room stop
stop-room w = ground arith

take_first-IsBusy : (rs : List Read) (w : Window) → IsBusy w → IsBusy (take_first rs w)
unfolding take_first has_room stop
take_first-IsBusy [] w h = λ q. stop-room w
take_first-IsBusy (r ∷ rest) w h = elim r.bytes as (λ b. IsBusy (hand_on b rest w)) [
  | none ↦ unfold hand_on in h
  | some b ↦ λ q. unfold hand_on enqueue in fill-IsBusy _
]

on_pull-IsBusy : (w : Window) → IsBusy w → IsBusy (on_pull w)
unfolding on_pull has_room
on_pull-IsBusy w h =
    if_cases IsBusy w.stopped _ _ (λ e q. stop-room w)
      (λ e. if_cases IsBusy (w.offset == w.size) _ _ (λ d. h) (λ d q. fill-IsBusy w))

step-IsBusy : (e : Event) (w : Window) → IsBusy w → IsBusy (step e w)
unfolding step on_resume on_answer release has_room
step-IsBusy pulled w h =
    if_cases IsBusy (w.waiting || w.closed || w.errored) _ _ (λ e. h) (λ e. on_pull-IsBusy w h)
step-IsBusy resumed w h =
    if_cases IsBusy w.waiting _ _
      (λ e.
        if_cases IsBusy w.stopped _ _ (λ d q. stop-room w) (λ d. take_first-IsBusy w.pending w h))
      (λ e. h)
step-IsBusy aborted w h = if_cases IsBusy w.listening _ _ (λ e q. stop-room w) (λ e. h)
step-IsBusy cancelled_by_reader w h = λ q. stop-room w
step-IsBusy (answered start o) w h =
    elim (find start w.running) as (λ f. IsBusy (on_answer f o w)) [
      | none ↦ h
      | some r ↦ λ q. fill-IsBusy _
    ]

-- What a stream of `file` comes to.
pub record Streams (file : List ℕ) (w : Window) : Type 0 where
  pub output : w.output ≡ take w.offset file
  pub complete : w.closed ≡ true → w.output ≡ file
  pub asked : length w.running ≤ 4
  pub kept : length w.pending ≤ 16
  pub busy : 0 < w.next → has_room w ≡ false

take_all {ℓ} : {A : Type ℓ} (xs : List A) → take (length xs) xs ≡ xs
take_all [] = refl
take_all (x ∷ xs) = ap (λ t. x ∷ t) (take_all xs)

run-both :
    (file : List ℕ) (es : List Event) (w : Window)
    → All (IsHonest file) es
    → IsFlowing file w
    → IsBusy w
    → Streams file (run es w)
unfolding run
run-both file [] w t h b = record {
  output = h.output;
  complete = λ d. h.output ∙ ap (λ n. take n file) (h.ended d ∙ h.whole) ∙ take_all file;
  asked = omega (arith, h.tally, h.few);
  kept = h.kept;
  busy = b;
}
run-both file (e ∷ es) w t h b =
    run-both file es (step e w) t.1 (step-IsFlowing file e w t.0 h) (step-IsBusy e w b)

-- A state whose torrent has the bytes of `file`, and a transport whose answers, where they are of the
-- length that was asked for, are those of the file. After any pulls, answers, failures and aborts, in
-- any order: what the stream has given is the beginning of the file, and all of it once the stream has
-- closed; no more than four requests run; no more than 16 ranges are held; and once something has been
-- requested, the window requests all that these limits allow, until it is stopped.
pub run-Streams :
    (file : List ℕ) (es : List Event)
    → All (IsHonest file) es
    → Streams file (run es (create (length file)))
run-Streams file es t =
    run-both file es (create (length file)) t
      (record {
        whole = refl;
        output = refl;
        within = omega arith;
        ahead = omega arith;
        asked = tt;
        tally = refl;
        few = omega arith;
        kept = omega arith;
        chain = λ e. refl;
        ended = λ d. cc;
      })
      (λ q. absurd (omega arith))
