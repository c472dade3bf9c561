-- ===== src/Startup/Pieces.antt =====
-- startup-prefetch.js: the pieces that intervals cover, before and after they are merged.
use my.Base.{
  ℕ, zero, suc, ◌+◌, ◌-◌, ◌*◌, ◌≤◌, ◌<◌, ◌≡◌, refl, sym, ◌∙◌, min, max, Bool, true, false, ◌||◌,
  List, [], ◌∷◌, All, any, leb, if◌then◌else◌, arith, inl, inr, if_cases, leb→le, leb→lt,
  Bool-cases,
}
use my.Ranges.{Range, inside}
use my.Ranges.Profile.{sort, insert}
use my.Ranges.Accepted.{IsSorted}
use my.Startup.Target.{piece, merge_from, bytes}

-- The bytes of piece `p` of a disk.
abbrev pub piece_bytes : ℕ → ℕ → ℕ
piece_bytes disk p = min disk ((p + 1) * piece) - min disk (p * piece)

-- The bytes of the pieces below `n` that `test` picks, each piece once.
pub sum_pieces : ℕ → (ℕ → Bool) → ℕ → ℕ
sum_pieces disk test zero = 0
sum_pieces disk test (suc n) = sum_pieces disk test n + (if test n then piece_bytes disk n else 0)

abbrev pub covered : List Range → ℕ → Bool
covered rs p = any (inside p) rs

pub sum_pieces-eq :
    (disk : ℕ) (s t : ℕ → Bool) (n : ℕ)
    → ((p : ℕ) → p < n → s p ≡ t p)
    → sum_pieces disk s n ≡ sum_pieces disk t n
unfolding sum_pieces
sum_pieces-eq disk s t zero h = refl
sum_pieces-eq disk s t (suc n) h =
    rw (h n (omega arith), sum_pieces-eq disk s t n (λ p lt. h p (omega arith)))

sum_pieces-or :
    (disk : ℕ) (s t : ℕ → Bool) (n : ℕ)
    → ((p : ℕ) → s p ≡ true → t p ≡ false)
    → sum_pieces disk (λ p. s p || t p) n ≡ sum_pieces disk s n + sum_pieces disk t n
unfolding sum_pieces
sum_pieces-or disk s t zero h = omega arith
sum_pieces-or disk s t (suc n) h = ground (arith, h n, sum_pieces-or disk s t n h)

sum_pieces-none : (disk n : ℕ) → sum_pieces disk (λ p. false) n ≡ 0
unfolding sum_pieces
sum_pieces-none disk zero = refl
sum_pieces-none disk (suc n) = omega (arith, sum_pieces-none disk n)

sum_pieces-before :
    (disk first last n : ℕ) → n ≤ first → sum_pieces disk (λ p. inside p (first, last)) n ≡ 0
unfolding sum_pieces
sum_pieces-before disk first last zero le = refl
sum_pieces-before disk first last (suc n) le =
    let out : inside n (first, last) ≡ false = ground arith in
    rw out (omega (arith, sum_pieces-before disk first last n (omega arith)))

-- One interval, up to `n` pieces.
sum_pieces-inside :
    (disk first last n : ℕ)
    → first * piece ≤ disk
    → first ≤ n
    → sum_pieces disk (λ p. inside p (first, last)) n
      ≡ min disk (min n (last + 1) * piece) - first * piece
unfolding sum_pieces
sum_pieces-inside disk first last zero h le = omega arith
sum_pieces-inside disk first last (suc n) h le = elim (Bool-cases (leb first n)) [
  | inl later ↦
      let reached : first ≤ n = leb→le first n later in
      let ih = sum_pieces-inside disk first last n h reached in
      elim (Bool-cases (leb n last)) [
        | inl within ↦
            let le' = leb→le n last within in
            let hit : inside n (first, last) ≡ true = ground arith in
            let old : min n (last + 1) ≡ n = omega arith in
            let new : min (suc n) (last + 1) ≡ suc n = omega arith in
            rw (hit, ih, old, new) (omega arith)
        | inr past ↦
            let lt = leb→lt n last past in
            let miss : inside n (first, last) ≡ false = ground arith in
            let old : min n (last + 1) ≡ last + 1 = omega arith in
            let new : min (suc n) (last + 1) ≡ last + 1 = omega arith in
            rw (miss, ih, old, new) (omega arith)
      ]
  | inr new ↦
      let before = sum_pieces-before disk first last n (omega (arith, leb→lt first n new)) in
      let miss : inside n (first, last) ≡ false = ground arith in
      let at : first ≡ suc n = omega (arith, leb→lt first n new) in
      rw (miss, before, at) (omega arith)
]

-- Merged intervals: sorted, with a piece between two of them that neither has, each within the disk.
abbrev pub IsMerged : List Range → Type 0
IsMerged [] = Unit
IsMerged (r ∷ rs) = All (λ s. r.1 < s.0) rs × IsMerged rs

abbrev pub FitsIn : ℕ → Range → Type 0
FitsIn disk r = (r.0 ≤ r.1) × (r.0 * piece ≤ disk)

outside :
    (p : ℕ) (r : Range) (rs : List Range)
    → All (λ s. r.1 < s.0) rs
    → inside p r ≡ true
    → covered rs p ≡ false
outside p r [] h i = refl
outside p r (s ∷ rs) h i = let lt = h.0 in let rest = outside p r rs h.1 i in ground arith

pub bytes-merged :
    (disk n : ℕ) (rs : List Range)
    → IsMerged rs
    → All (λ r. FitsIn disk r × (r.1 < n)) rs
    → bytes disk rs ≡ sum_pieces disk (covered rs) n
unfolding bytes
bytes-merged disk n [] m f = sym (sum_pieces-none disk n)
bytes-merged disk n (r ∷ rs) m f =
    let one = sum_pieces-inside disk r.0 r.1 n f.0.0.1 (omega arith) in
    let end : min n (r.1 + 1) ≡ r.1 + 1 = omega arith in
    let rest = bytes-merged disk n rs m.1 f.1 in
    let split = sum_pieces-or disk (inside_of r) (covered rs) n (λ p i. outside p r rs m.0 i) in
    rw (split, ← rest, one, end)
  where
    inside_of : Range → ℕ → Bool
    inside_of r p = inside p r

covered-insert :
    (p : ℕ) (r : Range) (rs : List Range) → covered (insert r rs) p ≡ covered (r ∷ rs) p
unfolding insert
covered-insert p r [] = refl
covered-insert p r (x ∷ xs) = ground (arith, covered-insert p r xs)

pub covered-sort : (p : ℕ) (rs : List Range) → covered (sort rs) p ≡ covered rs p
unfolding sort
covered-sort p [] = refl
covered-sort p (r ∷ rs) = ground (arith, covered-insert p r (sort rs), covered-sort p rs)

-- Two intervals that meet are one.
inside-join :
    (p a b c d : ℕ)
    → a ≤ c
    → c ≤ d
    → a ≤ b
    → c ≤ b + 1
    → inside p (a, max b d) ≡ (inside p (a, b) || inside p (c, d))
inside-join p a b c d h k l m = ground arith

pub covered-merge_from :
    (p : ℕ) (r : Range) (rs : List Range)
    → IsSorted (r ∷ rs)
    → All (λ s. s.0 ≤ s.1) (r ∷ rs)
    → covered (merge_from r rs) p ≡ covered (r ∷ rs) p
unfolding merge_from
covered-merge_from p (a, b) [] s f = refl
covered-merge_from p (a, b) ((c, d) ∷ rs) s f =
    if_cases (λ l. covered l p ≡ covered ((a, b) ∷ (c, d) ∷ rs) p) (leb c (b + 1)) _ _
      (λ meet.
        let near : c ≤ b + 1 = leb→le c (b + 1) meet in
        let join = inside-join p a b c d s.0.0 f.1.0 f.0 near in
        let rest = covered-merge_from p (a, max b d) rs (s.0.1, s.1.1) (omega arith, f.1.1) in
        rest ∙ ground (arith, join))
      (λ far. let rest = covered-merge_from p (c, d) rs s.1 f.1 in ground arith)

pub sum_pieces-le :
    (disk : ℕ) (test : ℕ → Bool) (n : ℕ) → sum_pieces disk test n ≤ min disk (n * piece)
unfolding sum_pieces
sum_pieces-le disk test zero = omega arith
sum_pieces-le disk test (suc n) = elim (Bool-cases (test n)) [
  | inl e ↦ rw e (omega (arith, sum_pieces-le disk test n))
  | inr e ↦ rw e (omega (arith, sum_pieces-le disk test n))
]
