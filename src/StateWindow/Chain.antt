-- ===== src/StateWindow/Chain.antt =====
-- torrent-remote.js: the ranges that a stream has requested, one after the other.
use my.Base.{
  ℕ, zero, suc, ◌+◌, ◌-◌, ◌≤◌, ◌≡◌, inl, inr, refl, sym, ap, ◌∙◌, min, true, false, Option, none,
  some, List, [], ◌∷◌, ◌++◌, length, take, drop, All, length-append, Bool-cases, ◌==◌, ==_iff,
  if_cases, arith,
}
use mathlib.Core.Path.{subst}
use my.StateWindow.{
  Read, Window, Event, answered, range_bytes, stop, has_room, request, fill_for, find, remove,
  resolve,
}

-- What the transport answers for a range, if it is of the right length, is that part of the file.
abbrev pub IsHonest : List ℕ → Event → Type 0
IsHonest file (answered start (some b)) =
    length b ≡ min range_bytes (length file - start) → b ≡ take range_bytes (drop start file)
IsHonest file _ = Unit

abbrev pub IsPart : List ℕ → ℕ → Option (List ℕ) → Type 0
IsPart file start none = Unit
IsPart file start (some b) = b ≡ take range_bytes (drop start file)

abbrev pub IsAsked : List ℕ → Read → Type 0
IsAsked file r = r.count ≡ min range_bytes (length file - r.start)

-- The ranges of a list follow one another from `a` to `b`, and those that have come are right.
abbrev pub Chain : List ℕ → ℕ → List Read → ℕ → Type 0
Chain file a [] b = a ≡ b
Chain file a (r ∷ rs) b =
    (r.start ≡ a) × IsAsked file r × IsPart file r.start r.bytes × Chain file (a + r.count) rs b

pub record IsFlowing (file : List ℕ) (w : Window) : Type 0 where
  pub whole : w.size ≡ length file
  pub output : w.output ≡ take w.offset file
  pub within : w.offset ≤ w.size
  pub ahead : w.next ≤ w.size
  pub asked : All (IsAsked file) w.running
  pub tally : w.active ≡ length w.running
  pub few : w.active ≤ 4
  pub kept : length w.pending ≤ 16
  pub chain : w.stopped ≡ false → Chain file w.offset w.pending w.next
  pub ended : w.closed ≡ true → w.offset ≡ w.size

take_nil {ℓ} : {A : Type ℓ} (n : ℕ) → take {A = A} n [] ≡ []
take_nil zero = refl
take_nil (suc n) = refl

-- What was taken, taken again by its length.
pub take_whole {ℓ} : {A : Type ℓ} (n : ℕ) (xs : List A) → take (length (take n xs)) xs ≡ take n xs
take_whole zero xs = refl
take_whole (suc n) [] = refl
take_whole (suc n) (x ∷ xs) = ap (λ t. x ∷ t) (take_whole n xs)

pub take_add {ℓ} :
    {A : Type ℓ} (a c : ℕ) (xs : List A) → take a xs ++ take c (drop a xs) ≡ take (a + c) xs
take_add zero c xs = ap (λ n. take n xs) (omega arith)
take_add (suc a) c [] = take_nil c ∙ sym (take_nil (suc a + c))
take_add (suc a) c (x ∷ xs) =
    ap (λ t. x ∷ t) (take_add a c xs)
    ∙ ap (λ n. take n (x ∷ xs)) (let e : suc (a + c) ≡ suc a + c = omega arith in e)

Chain-snoc :
    (file : List ℕ) (a : ℕ) (rs : List Read) (r : Read)
    → Chain file a rs r.start
    → IsAsked file r
    → r.bytes ≡ none
    → Chain file a (rs ++ r ∷ []) (r.start + r.count)
Chain-snoc file a [] r c q e = (sym c, q, rw e tt, ap (λ t. t + r.count) c)
Chain-snoc file a (s ∷ rs) r c q e = (c.0, c.1, c.2, Chain-snoc file (a + s.count) rs r c.3 q e)

All-snoc :
    (file : List ℕ) (rs : List Read) (r : Read)
    → All (IsAsked file) rs
    → IsAsked file r
    → All (IsAsked file) (rs ++ r ∷ [])
All-snoc file [] r h q = (q, tt)
All-snoc file (s ∷ rs) r h q = (h.0, All-snoc file rs r h.1 q)

request-IsFlowing :
    (file : List ℕ) (w : Window) → has_room w ≡ true → IsFlowing file w → IsFlowing file (request w)
unfolding has_room request
request-IsFlowing file w g h = record {
  whole = h.whole;
  output = h.output;
  within = h.within;
  ahead = ground (arith, h.whole, h.ahead);
  asked = All-snoc file w.running _ h.asked (ap (λ t. min range_bytes (t - w.next)) h.whole);
  tally = omega (
    arith,
    h.tally,
    length-append w.running
        (record { start = w.next; count = min range_bytes (w.size - w.next); bytes = none } ∷ []),
  );
  few = ground arith;
  kept = ground (
    arith,
    length-append w.pending
        (record { start = w.next; count = min range_bytes (w.size - w.next); bytes = none } ∷ []),
  );
  chain = λ e.
      Chain-snoc file w.offset w.pending _ (h.chain e)
        (ap (λ t. min range_bytes (t - w.next)) h.whole) refl;
  ended = h.ended;
}

pub fill_for-IsFlowing :
    (n : ℕ) (file : List ℕ) (w : Window) → IsFlowing file w → IsFlowing file (fill_for n w)
unfolding fill_for
fill_for-IsFlowing zero file w h = h
fill_for-IsFlowing (suc n) file w h =
    if_cases (IsFlowing file) (has_room w) _ _
      (λ e. fill_for-IsFlowing n file (request w) (request-IsFlowing file w e h)) (λ e. h)

pub stop-IsFlowing : (file : List ℕ) (w : Window) → IsFlowing file w → IsFlowing file (stop w)
unfolding stop
stop-IsFlowing file w h =
    if_cases (IsFlowing file) w.stopped _ _ (λ e. h)
      (λ e. record {
        whole = h.whole;
        output = h.output;
        within = h.within;
        ahead = h.ahead;
        asked = h.asked;
        tally = h.tally;
        few = h.few;
        kept = omega arith;
        chain = λ e. cc;
        ended = h.ended;
      })

-- A request that is found in a list, and the list without it.
pub record Found (file : List ℕ) (start : ℕ) (rs : List Read) (r : Read) : Type 0 where
  pub at : r.start ≡ start
  pub asked : IsAsked file r
  pub others : All (IsAsked file) (remove start rs)
  pub fewer : suc (length (remove start rs)) ≡ length rs

pub find-Found :
    (file : List ℕ) (start : ℕ) (rs : List Read) (r : Read)
    → All (IsAsked file) rs
    → find start rs ≡ some r
    → Found file start rs r
unfolding find remove
find-Found file start [] r h e = cc
find-Found file start (s ∷ rs) r h e = elim (Bool-cases (s.start == start)) [
  | inl t ↦
      let q : s ≡ r = cc in
      record {
        at = ap (λ (x : Read). x.start) (sym q) ∙ (==_iff s.start start).0 t;
        asked = subst (IsAsked file) q h.0;
        others = rw t h.1;
        fewer = rw t;
      }
  | inr t ↦
      let ih = find-Found file start rs r h.1 (rw t at e) in
      record {
        at = ih.at;
        asked = ih.asked;
        others = rw t (h.0, ih.others);
        fewer = rw t (ap suc ih.fewer);
      }
]

pub resolve-Chain :
    (file : List ℕ) (start a : ℕ) (b : List ℕ) (rs : List Read) (c : ℕ)
    → b ≡ take range_bytes (drop start file)
    → Chain file a rs c
    → Chain file a (resolve start b rs) c
unfolding resolve
resolve-Chain file start a b [] c q h = h
resolve-Chain file start a b (r ∷ rs) c q h =
    if_cases (λ t. Chain file a t c) (r.start == start) _ _
      (λ e. (
        h.0,
        h.1,
        q ∙ ap (λ t. take range_bytes (drop t file)) (sym ((==_iff r.start start).0 e)),
        h.3,
      ))
      (λ e. (h.0, h.1, h.2, resolve-Chain file start (a + r.count) b rs c q h.3))

pub length-resolve :
    (start : ℕ) (b : List ℕ) (rs : List Read) → length (resolve start b rs) ≡ length rs
unfolding resolve
length-resolve start b [] = refl
length-resolve start b (r ∷ rs) = ground (arith, length-resolve start b rs)
