-- ===== src/LoadProfiles/Accepted.antt =====
-- What `validateLoadProfiles` of load-profiles.js lets through.
use my.Base.{
  ℕ, ◌≤◌, ◌≡◌, refl, sym, ap, ◌∙◌, ◌⊎◌, inl, inr, Bool, true, false, ◌&&◌, Option, none, some, List,
  [], ◌∷◌, length, arith, Option-cases,
}
use my.Base.Text.{Text, text_eq_iff, is_hex}
use my.Ranges.{Range}
use my.Ranges.Profile.{matching_ranges}
use my.Ranges.Slots.{Accepts, matching_ranges_iff}
use my.LoadProfiles.{
  Kind, boot, state, Origin, LoadProfile, as_profile, profile_ok, profiles_ok, validate, has_kind,
  is_known, is_some, sha256_ok, fields_ok, hashes_ok, numbers_ok,
}

-- An accepted profile: it is of this disk, its origin is a boot or a state with its hash, and its
-- ranges are acceptable ranges of the disk.
pub record IsGood (info_hash : Text) (units : ℕ) (p : LoadProfile) (origin : Origin) : Type 0 where
  pub disk : p.info_hash ≡ info_hash
  pub hex : is_hex 40 info_hash ≡ true
  pub has_origin : p.origin ≡ some origin
  pub known :
      ((origin.kind ≡ boot) × (origin.sha256 ≡ none))
      ⊎ ((s : Text) × (origin.kind ≡ state) × (origin.sha256 ≡ some s) × (is_hex 64 s ≡ true))
  pub ranges : List Range
  pub accepts : Accepts (as_profile p) info_hash units ranges

is_some-eq_true {ℓ} : {A : Type ℓ} (o : Option A) → is_some o ≡ true → (a : A) × (o ≡ some a)
is_some-eq_true none h = cc
is_some-eq_true (some a) h = (a, refl)

known_origin :
    (o : Origin)
    → is_known o.kind ≡ true
    → sha256_ok o.kind o.sha256 ≡ true
    → ((o.kind ≡ boot) × (o.sha256 ≡ none))
      ⊎ ((s : Text) × (o.kind ≡ state) × (o.sha256 ≡ some s) × (is_hex 64 s ≡ true))
known_origin o k h = ground arith

fields_ok-parts :
    (info_hash : Text) (kinds : List Kind) (p : LoadProfile) (o : Origin)
    → fields_ok info_hash kinds p o ≡ true
    → (p.info_hash ≡ info_hash) × (is_known o.kind ≡ true) × (has_kind o.kind kinds ≡ false)
unfolding fields_ok
fields_ok-parts info_hash kinds p o h =
    ((text_eq_iff p.info_hash info_hash).0 (ground arith), ground arith, ground arith)

hashes_ok-parts :
    (p : LoadProfile) (o : Origin)
    → hashes_ok p o ≡ true
    → (is_hex 40 p.info_hash ≡ true) × (sha256_ok o.kind o.sha256 ≡ true)
unfolding hashes_ok
hashes_ok-parts p o h = (ground arith, ground arith)

-- The parts of a test that passes.
and_true : (a b : Bool) → (a && b) ≡ true → (a ≡ true) × (b ≡ true)
and_true a b h = ground arith

profile_ok-IsGood :
    (info_hash : Text) (units : ℕ) (kinds : List Kind) (p : LoadProfile) (o : Origin)
    → p.origin ≡ some o
    → profile_ok info_hash units kinds p o ≡ true
    → IsGood info_hash units p o × (has_kind o.kind kinds ≡ false)
unfolding profile_ok
profile_ok-IsGood info_hash units kinds p o e h =
    let h3 = (and_true _ (numbers_ok units p) h).0 in
    let h2 = and_true (fields_ok info_hash kinds p o && hashes_ok p o) _ h3 in
    let h1 = and_true (fields_ok info_hash kinds p o) (hashes_ok p o) h2.0 in
    let f = fields_ok-parts info_hash kinds p o h1.0 in
    let x = hashes_ok-parts p o h1.1 in
    let found = is_some-eq_true (matching_ranges (some (as_profile p)) info_hash units) h2.1 in
    (
      record {
        disk = f.0;
        hex = ap (is_hex 40) (sym f.0) ∙ x.0;
        has_origin = e;
        known = known_origin o f.1 x.1;
        ranges = found.0;
        accepts = (matching_ranges_iff (as_profile p) info_hash units found.0).0 found.1;
      },
      f.2,
    )

-- Each profile of the list is accepted, and its kind is none of `kinds` and of those before it.
abbrev pub AllGood : Text → ℕ → List Kind → List (Option LoadProfile) → Type 0
AllGood info_hash units kinds [] = Unit
AllGood info_hash units kinds (none ∷ ps) = ⊥
AllGood info_hash units kinds (some p ∷ ps) =
    (o : Origin) × IsGood info_hash units p o
    × (has_kind o.kind kinds ≡ false)
    × AllGood info_hash units (o.kind ∷ kinds) ps

profiles_ok-AllGood :
    (info_hash : Text) (units : ℕ) (kinds : List Kind) (ps : List (Option LoadProfile))
    → profiles_ok info_hash units kinds ps ≡ true
    → AllGood info_hash units kinds ps
unfolding profiles_ok
profiles_ok-AllGood info_hash units kinds [] h = tt
profiles_ok-AllGood info_hash units kinds (none ∷ ps) h = cc
profiles_ok-AllGood info_hash units kinds (some p ∷ ps) h = elim (Option-cases p.origin) [
  | inl n ↦ absurd (ground arith)
  | inr o ↦
      let here : profile_ok info_hash units kinds p o.0 ≡ true = ground arith in
      let rest : profiles_ok info_hash units (o.0.kind ∷ kinds) ps ≡ true = ground arith in
      let g = profile_ok-IsGood info_hash units kinds p o.0 o.1 here in
      (o.0, g.0, g.1, profiles_ok-AllGood info_hash units (o.0.kind ∷ kinds) ps rest)
]

-- A value that is returned is an array of at most two profiles, each of them accepted for this disk,
-- with no kind of origin twice: so one for a boot and one for a state.
pub validate-AllGood :
    (value : Option (List (Option LoadProfile))) (info_hash : Text) (units : ℕ)
    → validate value info_hash units ≡ true
    → (ps : List (Option LoadProfile)) × (value ≡ some ps)
      × (length ps ≤ 2)
      × AllGood info_hash units [] ps
unfolding validate
validate-AllGood none info_hash units h = cc
validate-AllGood (some ps) info_hash units h =
    (ps, refl, ground arith, profiles_ok-AllGood info_hash units [] ps (ground arith))
