-- ===== src/DiskWorker/Observed.antt =====
-- boot-analysis.js: an analysis that has not overflowed has the units that were read.
use my.Base.{
  ℕ, zero, suc, ◌+◌, ◌-◌, ◌*◌, ◌/◌, ◌≡◌, ◌≤◌, refl, sym, ap, ◌∙◌, Bool, true, false, not, ◌&&◌,
  ◌||◌, Option, none, some, List, [], ◌∷◌, ◌++◌, length, length-append, any, ltb, leb, ◌==◌,
  if_cases, Bool-cases, inl, inr, arith,
}
use mathlib.Core.Path.{subst}
use my.Base.Num.{Num, safe_nat}
use my.Base.Failure.{ok}
use my.DiskWorker.Analysis.{
  max_analysis_units, unit_bytes, Analysis, contains, observe_units, observe_range, observe, finish,
  create, run,
}

-- A read that lies in the disk has a byte in unit `u`.
abbrev pub touches_range : ℕ → ℕ → Option ℕ → Option ℕ → Bool
touches_range size u none length = false
touches_range size u (some offset) none = false
touches_range size u (some offset) (some length) =
    leb (offset + length) size
    && ltb 0 length
    && ltb offset ((u + 1) * unit_bytes)
    && ltb (u * unit_bytes) (offset + length)

abbrev pub touches : ℕ → ℕ → Num × Num → Bool
touches size u (offset, length) = touches_range size u (safe_nat offset) (safe_nat length)

contains-snoc : (u v : ℕ) (vs : List ℕ) → contains u (vs ++ v ∷ []) ≡ contains u vs || v == u
unfolding contains
contains-snoc u v [] = ground arith
contains-snoc u v (w ∷ vs) = ground (arith, contains-snoc u v vs)

-- What a part of an analysis has done: unless it has overflowed, the units `new` have been added.
record Adds (new : ℕ → Bool) (a k : Analysis) : Type 0 where
  units_eq : (u : ℕ) → k.overflow ≡ false → contains u k.units ≡ contains u a.units || new u
  bound : length k.units ≤ max_analysis_units
  recording_eq : k.recording ≡ not k.overflow
  size_eq : k.size ≡ a.size
  over : a.overflow ≡ true → k.overflow ≡ true

abbrev Sound : Analysis → Type 0
Sound a = (length a.units ≤ max_analysis_units) × (a.recording ≡ not a.overflow)

contains_at : (u v : ℕ) (xs : List ℕ) → u ≡ v → contains v xs ≡ true → contains u xs ≡ true
contains_at u v xs e h = rw e h

-- One more unit, which was known, or has been added.
grow_known :
    (unit n u : ℕ) (xs : List ℕ) (b : Bool)
    → contains unit xs ≡ true
    → b ≡ contains u xs || (leb (unit + 1) u && ltb u (unit + 1 + n))
    → b ≡ contains u xs || (leb unit u && ltb u (unit + suc n))
grow_known unit n u xs b e h = ground (arith, contains_at u unit xs)

grow :
    (unit n u : ℕ) (xs : List ℕ) (b : Bool)
    → b ≡ contains u (xs ++ unit ∷ []) || (leb (unit + 1) u && ltb u (unit + 1 + n))
    → b ≡ contains u xs || (leb unit u && ltb u (unit + suc n))
grow unit n u xs b h = ground (arith, contains-snoc u unit xs)

never : {P : Type 0} → true ≡ false → P
never e = cc

still :
    (a k : Analysis)
    → (a.overflow ≡ true → k.overflow ≡ true)
    → k.overflow ≡ false
    → a.overflow ≡ false
still a k m e = elim (Bool-cases a.overflow) [ inl t ↦ never (sym (m t) ∙ e) | inr f ↦ f ]

observe_units-Adds :
    (n unit : ℕ) (a : Analysis)
    → Sound a
    → Adds (λ u. leb unit u && ltb u (unit + n)) a (observe_units n unit a).0
unfolding observe_units
observe_units-Adds zero unit a s = record {
  units_eq = λ u e. ground arith;
  bound = s.0;
  recording_eq = s.1;
  size_eq = refl;
  over = λ e. e;
}
observe_units-Adds (suc n) unit a s =
    if_cases (λ (r : Analysis × Bool). Adds (λ u. leb unit u && ltb u (unit + suc n)) a r.0)
      (contains unit a.units) _ _
      (λ e.
        let h = observe_units-Adds n (unit + 1) a s in
        record {
          units_eq = λ u o. grow_known unit n u a.units _ e (h.units_eq u o);
          bound = h.bound;
          recording_eq = h.recording_eq;
          size_eq = h.size_eq;
          over = h.over;
        })
      (λ e.
        if_cases (λ (r : Analysis × Bool). Adds (λ u. leb unit u && ltb u (unit + suc n)) a r.0)
          (length a.units == max_analysis_units) _ _
          (λ _. record {
            units_eq = λ u o. never o;
            bound = s.0;
            recording_eq = refl;
            size_eq = refl;
            over = λ e. refl;
          })
          (λ f.
            let h =
              observe_units-Adds n (unit + 1) (record a { units = a.units ++ unit ∷ [] })
                (ground (arith, length-append a.units (unit ∷ [])), s.1) in
            record {
              units_eq = λ u o. grow unit n u a.units _ (h.units_eq u o);
              bound = h.bound;
              recording_eq = h.recording_eq;
              size_eq = h.size_eq;
              over = h.over;
            }))

Adds_refl :
    (new : ℕ → Bool) (a : Analysis)
    → Sound a
    → ((u : ℕ) → a.overflow ≡ false → new u ≡ false)
    → Adds new a a
Adds_refl new a s n = record {
  units_eq = λ u o. ground (arith, n u o);
  bound = s.0;
  recording_eq = s.1;
  size_eq = refl;
  over = λ e. e;
}

-- The units that a read touches are those from its first to its last.
units_of :
    (size offset length u : ℕ)
    → (length == 0 || ltb size (offset + length)) ≡ false
    → (leb (offset / unit_bytes) u
        && ltb u
            (offset / unit_bytes + ((offset + length - 1) / unit_bytes + 1 - offset / unit_bytes)))
      ≡ touches_range size u (some offset) (some length)
units_of size offset length u h = ground arith

observe_range-Adds :
    (o l : Option ℕ) (a : Analysis)
    → Sound a
    → Adds (λ u. touches_range a.size u o l) a (observe_range o l a).0
unfolding observe_range
observe_range-Adds none l a s = Adds_refl _ a s (λ u e. refl)
observe_range-Adds (some o) none a s = Adds_refl _ a s (λ u e. refl)
observe_range-Adds (some o) (some l) a s =
    if_cases (λ (r : Analysis × Bool). Adds (λ u. touches_range a.size u (some o) (some l)) a r.0)
      (not a.recording || l == 0 || ltb a.size (o + l)) _ _
      (λ e. Adds_refl _ a s (λ u f. ground (arith, s.1)))
      (λ e.
        let h =
          observe_units-Adds ((o + l - 1) / unit_bytes + 1 - o / unit_bytes) (o / unit_bytes) a s in
        record {
          units_eq = λ u f.
              h.units_eq u f
              ∙ ap (λ b. contains u a.units || b) (units_of a.size o l u (ground arith));
          bound = h.bound;
          recording_eq = h.recording_eq;
          size_eq = h.size_eq;
          over = h.over;
        })

run-Adds :
    (rs : List (Num × Num)) (a : Analysis)
    → Sound a
    → Adds (λ u. any (touches a.size u) rs) a (run a rs)
unfolding run
run-Adds [] a s = Adds_refl _ a s (λ u e. refl)
run-Adds ((o, l) ∷ rs) a s =
    let h = observe_range-Adds (safe_nat o) (safe_nat l) a s in
    let k = run-Adds rs (observe o l a).0 (h.bound, h.recording_eq) in
    record {
      units_eq = λ u e.
          joined _ _ _ _ (any (touches a.size u) rs)
            (subst
              (λ n.
                contains u (run (observe o l a).0 rs).units
                ≡ contains u (observe o l a).0.units || any (touches n u) rs)
              h.size_eq (k.units_eq u e))
            (h.units_eq u (still (observe o l a).0 (run (observe o l a).0 rs) k.over e));
      bound = k.bound;
      recording_eq = k.recording_eq;
      size_eq = k.size_eq ∙ h.size_eq;
      over = λ e. k.over (h.over e);
    }
  where
    joined : (x y z t r : Bool) → x ≡ y || r → y ≡ z || t → x ≡ z || (t || r)
    joined x y z t r e f = ground arith

-- After any reads of a disk, an analysis that finishes with its units has those that some read
-- touched and no others, a read counting when it lies within the disk and is not empty; and at most
-- 200,000 of them.
pub finish-units :
    (size : ℕ) (reads : List (Num × Num)) (units : List ℕ)
    → (finish (run (create size) reads)).1 ≡ ok units
    → ((u : ℕ) → contains u units ≡ any (touches size u) reads)
      × (length units ≤ max_analysis_units)
unfolding finish create
finish-units size reads units e =
    let h : Adds (λ u. any (touches size u) reads) (create size) (run (create size) reads) =
      run-Adds reads (create size) (unfold create in (omega arith, refl)) in
    let o : (run (create size) reads).overflow ≡ false = ground arith in
    let s : (run (create size) reads).units ≡ units = ground arith in
    subst
      (λ us.
        ((u : ℕ) → contains u us ≡ any (touches size u) reads) × (length us ≤ max_analysis_units))
      s (λ u. h.units_eq u o ∙ (unfold create contains in refl), h.bound)
