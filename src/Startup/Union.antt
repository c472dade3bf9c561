-- ===== src/Startup/Union.antt =====
-- startup-prefetch.js: the total of startupRanges is that of the pieces covered.
use mathlib.Core.Path.{subst}
use my.Base.{
  ℕ, suc, ◌+◌, ◌*◌, ◌≤◌, ◌<◌, ◌≡◌, sym, ap, ◌∙◌, max, Option, none, some, List, [], ◌∷◌, All, leb,
  arith, if_cases, leb→lt,
}
use my.Base.Failure.{ok, >>=-eq_ok, ok-injective}
use my.Ranges.{Range}
use my.Ranges.Profile.{sort}
use my.Ranges.Accepted.{IsSorted, All-sort, sort-IsSorted}
use my.Startup.Target.{
  piece, Extent, extent, extents, intervals, merge_from, merge, bytes, startup_ranges,
}
use my.Startup.Pieces.{
  sum_pieces-le, sum_pieces, covered, sum_pieces-eq, IsMerged, FitsIn, bytes-merged, covered-sort,
  covered-merge_from,
}

-- Each interval goes forwards, begins on the disk and ends below piece `n`.
abbrev IsWithin : ℕ → ℕ → Range → Type 0
IsWithin disk n r = FitsIn disk r × (r.1 < n)

merge_from-starts :
    (m : ℕ) (r : Range) (rs : List Range)
    → m ≤ r.0
    → IsSorted (r ∷ rs)
    → All (λ s. m ≤ s.0) (merge_from r rs)
unfolding merge_from
merge_from-starts m r [] h s = (h, tt)
merge_from-starts m (a, b) ((c, d) ∷ rs) h s =
    if_cases (All (λ s. m ≤ s.0)) (leb c (b + 1)) _ _
      (λ _. merge_from-starts m (a, max b d) rs h (s.0.1, s.1.1))
      (λ _. (h, merge_from-starts m (c, d) rs (omega arith) s.1))

merge_from-IsMerged : (r : Range) (rs : List Range) → IsSorted (r ∷ rs) → IsMerged (merge_from r rs)
unfolding merge_from
merge_from-IsMerged r [] s = (tt, tt)
merge_from-IsMerged (a, b) ((c, d) ∷ rs) s =
    if_cases IsMerged (leb c (b + 1)) _ _ (λ _. merge_from-IsMerged (a, max b d) rs (s.0.1, s.1.1))
      (λ far. (
        merge_from-starts (suc b) (c, d) rs (omega (arith, leb→lt c (b + 1) far)) s.1,
        merge_from-IsMerged (c, d) rs s.1,
      ))

merge_from-IsWithin :
    (disk n : ℕ) (r : Range) (rs : List Range)
    → All (IsWithin disk n) (r ∷ rs)
    → All (IsWithin disk n) (merge_from r rs)
unfolding merge_from
merge_from-IsWithin disk n r [] h = h
merge_from-IsWithin disk n (a, b) ((c, d) ∷ rs) h =
    if_cases (All (IsWithin disk n)) (leb c (b + 1)) _ _
      (λ _.
        merge_from-IsWithin disk n (a, max b d) rs (((omega arith, h.0.0.1), omega arith), h.1.1))
      (λ _. (h.0, merge_from-IsWithin disk n (c, d) rs h.1))

-- What the merge counts: the pieces of all the intervals, each of them once.
bytes-merge :
    (disk n : ℕ) (rs : List Range)
    → IsSorted rs
    → All (IsWithin disk n) rs
    → bytes disk (merge rs) ≡ sum_pieces disk (covered rs) n
unfolding merge
bytes-merge disk n [] s h = bytes-merged disk n [] tt tt
bytes-merge disk n (r ∷ rs) s h =
    bytes-merged disk n (merge_from r rs) (merge_from-IsMerged r rs s)
      (merge_from-IsWithin disk n r rs h)
    ∙ sum_pieces-eq disk (covered (merge_from r rs)) (covered (r ∷ rs)) n
        (λ p lt. covered-merge_from p r rs s (forwards rs (r) h))
  where
    forwards :
        (rs : List Range) (r : Range)
        → All (IsWithin disk n) (r ∷ rs)
        → All (λ s. s.0 ≤ s.1) (r ∷ rs)
    forwards [] r h = (h.0.0.0, tt)
    forwards (x ∷ xs) r h = (h.0.0.0, forwards xs x h.1)

-- An extent that startupRanges makes: not empty, and on the disk.
abbrev pub OnDisk : ℕ → Extent → Type 0
OnDisk disk e = (0 < e.1) × (e.0 + e.1 ≤ disk)

extent-OnDisk : (disk : ℕ) (r : Range) (e : Extent) → extent disk r ≡ ok e → OnDisk disk e
unfolding extent
extent-OnDisk disk r e h = ground arith

extents-OnDisk :
    (disk : ℕ) (rs : List (Option Range)) (es : List Extent)
    → extents disk rs ≡ ok es
    → All (OnDisk disk) es
unfolding extents
extents-OnDisk disk [] es h = subst (All (OnDisk disk)) (ok-injective [] es h) tt
extents-OnDisk disk (none ∷ rs) es h = extents-OnDisk disk rs es h
extents-OnDisk disk (some r ∷ rs) es h =
    let first = >>=-eq_ok (extent disk r) _ h in
    let rest = >>=-eq_ok (extents disk rs) _ first.2 in
    subst (All (OnDisk disk)) (ok-injective (first.0 ∷ rest.0) es rest.2)
      (extent-OnDisk disk r first.0 first.1, extents-OnDisk disk rs rest.0 rest.1)

intervals-IsWithin :
    (disk n : ℕ) (es : List Extent)
    → disk ≤ n * piece
    → All (OnDisk disk) es
    → All (IsWithin disk n) (intervals es)
unfolding intervals
intervals-IsWithin disk n [] h o = tt
intervals-IsWithin disk n ((start, len) ∷ es) h o =
    (((omega arith, omega arith), omega arith), intervals-IsWithin disk n es h o.1)

-- Where startupRanges does not throw: each extent is on the disk and not empty; and the total is the
-- sum of the sizes of the pieces that the extents lie in, each piece counted once whatever the
-- overlap and the order of the ranges, so that it is at most the size of the disk.
pub startup_ranges-total :
    (disk : ℕ) (rs : List (Option Range)) (es : List Extent) (total n : ℕ)
    → startup_ranges disk rs ≡ ok (es, total)
    → disk ≤ n * piece
    → All (OnDisk disk) es × (total ≡ sum_pieces disk (covered (intervals es)) n) × (total ≤ disk)
unfolding startup_ranges
startup_ranges-total disk rs es total n h large =
    let made = >>=-eq_ok (extents disk rs) _ h in
    let same = ok-injective _ (es, total) made.2 in
    let same_es : made.0 ≡ es = ap (λ p. p.0) same in
    let on_disk = subst (All (OnDisk disk)) same_es (extents-OnDisk disk rs made.0 made.1) in
    let within = intervals-IsWithin disk n es large on_disk in
    let sorted = sort-IsSorted (intervals es) in
    let counted : bytes disk (merge (sort (intervals es)))
        ≡ sum_pieces disk (covered (intervals es)) n =
      bytes-merge disk n (sort (intervals es)) sorted
        ((All-sort (IsWithin disk n) (intervals es)).1 within)
      ∙ sum_pieces-eq disk (covered (sort (intervals es))) (covered (intervals es)) n
          (λ p lt. covered-sort p (intervals es)) in
    let is_total : total ≡ bytes disk (merge (sort (intervals es))) =
      sym (ap (λ p. p.1) same) ∙ ap (λ l. bytes disk (merge (sort (intervals l)))) same_es in
    let eq = is_total ∙ counted in
    (on_disk, eq, omega (arith, sum_pieces-le disk (covered (intervals es)) n))
