-- ===== src/Publication/Loop.antt =====
-- torrent-records.js: what the loop of `resolveRecord` over the answers chooses.
use my.Base.{
  ℕ, ◌≤◌, ◌≡◌, ◌⊎◌, refl, sym, ap, ◌∙◌, inl, inr, false, Option, none, some, List, [], ◌∷◌, ◌==◌,
  ltb, if_cases, Bool-cases, All, arith,
}
use mathlib.Core.Path.{subst}
use my.Base.Failure.{Code, publication_conflict, ok, err, ok-injective}
use my.Base.JsMap
use my.Base.JsMap.{JsMap}
use my.Base.Text.{Text, text_eq_iff}
use my.Publication.{Record}
use my.Publication.Resolve.{
  Answer, identity, clashes, newer, choose_best, seen_first, fulfilled, AllAgree,
}

pub some_injective : {x y : Record} → some x ≡ some y → x ≡ y
some_injective e = cc

pub no_value : {A : Type 0} (e : Code) (a : A) → err e ≡ ok a → ⊥
no_value e a h = cc

choose_step :
    (c : Record) (rs : List Answer) (seen : JsMap Text) (best o : Option Record)
    → choose_best (ok (some c) ∷ rs) seen best ≡ ok o
    → (clashes (JsMap.get c.sequence seen) (identity c) ≡ false)
      × (choose_best rs (JsMap.set c.sequence (identity c) seen) (some (newer best c)) ≡ ok o)
unfolding choose_best
choose_step c rs seen best o h =
    elim (Bool-cases (clashes (JsMap.get c.sequence seen) (identity c))) [
      | inl e ↦ absurd (no_value publication_conflict o (rw e at h))
      | inr e ↦ (e, rw e at h)
    ]

agrees_seen :
    (m : Option Text) (c : Record) (t : Text)
    → clashes m (identity c) ≡ false
    → m ≡ some t
    → identity c ≡ t
agrees_seen none c t h e = cc
agrees_seen (some u) c t h e =
    let same : u ≡ identity c = (text_eq_iff u (identity c)).0 (ground arith) in
    let is_t : u ≡ t = ground arith in sym same ∙ is_t

-- A sequence that has been seen keeps its infohash.
chosen_one :
    (rs : List Answer) (seen : JsMap Text) (best o : Option Record) (k : ℕ) (t : Text)
    → JsMap.get k seen ≡ some t
    → choose_best rs seen best ≡ ok o
    → All (λ s. k ≡ s.sequence → identity s ≡ t) (fulfilled rs)
unfolding choose_best
chosen_one [] seen best o k t g h = tt
chosen_one (err c ∷ rs) seen best o k t g h = chosen_one rs seen best o k t g h
chosen_one (ok none ∷ rs) seen best o k t g h = chosen_one rs seen best o k t g h
chosen_one (ok (some c) ∷ rs) seen best o k t g h =
    let s = choose_step c rs seen best o h in
    let head : k ≡ c.sequence → identity c ≡ t = λ e.
      agrees_seen (JsMap.get c.sequence seen) c t s.0
        (subst (λ n. JsMap.get n seen ≡ some t) e g) in
    let kept : JsMap.get k (JsMap.set c.sequence (identity c) seen) ≡ some t =
      JsMap.get-set c.sequence k (identity c) seen
      ∙ if_cases (λ m. m ≡ some t) (c.sequence == k) (some (identity c)) (JsMap.get k seen)
          (λ e. ap some (head (ground arith))) (λ _. g) in
    (
      head,
      chosen_one rs (JsMap.set c.sequence (identity c) seen) (some (newer best c)) o k t kept s.1,
    )

get-set_same : (k : ℕ) (t : Text) (seen : JsMap Text) → JsMap.get k (JsMap.set k t seen) ≡ some t
get-set_same k t seen = ground (arith, JsMap.get-set k k t seen)

choose_best-AllAgree :
    (rs : List Answer) (seen : JsMap Text) (best o : Option Record)
    → choose_best rs seen best ≡ ok o
    → AllAgree (fulfilled rs)
unfolding choose_best
choose_best-AllAgree [] seen best o h = tt
choose_best-AllAgree (err c ∷ rs) seen best o h = choose_best-AllAgree rs seen best o h
choose_best-AllAgree (ok none ∷ rs) seen best o h = choose_best-AllAgree rs seen best o h
choose_best-AllAgree (ok (some c) ∷ rs) seen best o h =
    let s = choose_step c rs seen best o h in
    let next = JsMap.set c.sequence (identity c) seen in
    (
      chosen_one rs next (some (newer best c)) o c.sequence (identity c)
          (get-set_same c.sequence (identity c) seen) s.1,
      choose_best-AllAgree rs next (some (newer best c)) o s.1,
    )

-- `b` is one of `rs`.
abbrev pub IsOneOf : Record → List Record → Type 0
IsOneOf b [] = ⊥
IsOneOf b (r ∷ rs) = (b ≡ r) ⊎ IsOneOf b rs

-- What is chosen from there on is `b` or an answer, and at least as new as each.
record IsBest (b : Record) (rs : List Record) (o : Option Record) : Type 0 where
  best : Record
  chosen : o ≡ some best
  one : IsOneOf best (b ∷ rs)
  highest : All (λ r. r.sequence ≤ best.sequence) (b ∷ rs)

newer_cases :
    (b c : Record)
    → ((newer (some b) c ≡ b) × (c.sequence ≤ b.sequence))
      ⊎ ((newer (some b) c ≡ c) × (b.sequence ≤ c.sequence))
newer_cases b c = elim (Bool-cases (ltb b.sequence c.sequence)) [
  | inl e ↦ inr (rw e refl, ground arith)
  | inr e ↦ inl (rw e refl, ground arith)
]

choose_best-IsBest :
    (rs : List Answer) (seen : JsMap Text) (b : Record) (o : Option Record)
    → choose_best rs seen (some b) ≡ ok o
    → IsBest b (fulfilled rs) o
unfolding choose_best
choose_best-IsBest [] seen b o h = record {
  best = b;
  chosen = sym (ok-injective (some b) o h);
  one = inl refl;
  highest = (omega arith, tt);
}
choose_best-IsBest (err c ∷ rs) seen b o h = choose_best-IsBest rs seen b o h
choose_best-IsBest (ok none ∷ rs) seen b o h = choose_best-IsBest rs seen b o h
choose_best-IsBest (ok (some c) ∷ rs) seen b o h =
    let s = choose_step c rs seen (some b) o h in
    let rest : IsBest (newer (some b) c) (fulfilled rs) o =
      choose_best-IsBest rs (JsMap.set c.sequence (identity c) seen) (newer (some b) c) o s.1 in
    elim (newer_cases b c) [
      | inl (e, l) ↦
          let r : IsBest b (fulfilled rs) o = subst (λ x. IsBest x (fulfilled rs) o) e rest in
          record {
            best = r.best;
            chosen = r.chosen;
            one = elim r.one [ inl p ↦ inl p | inr p ↦ inr (inr p) ];
            highest = (r.highest.0, (omega (arith, l, r.highest.0), r.highest.1));
          }
      | inr (e, l) ↦
          let r : IsBest c (fulfilled rs) o = subst (λ x. IsBest x (fulfilled rs) o) e rest in
          record {
            best = r.best;
            chosen = r.chosen;
            one = inr r.one;
            highest = (omega (arith, l, r.highest.0), (r.highest.0, r.highest.1));
          }
    ]

-- The cached record and those of the answers.
abbrev pub candidates : Option Record → List Answer → List Record
candidates none rs = fulfilled rs
candidates (some b) rs = b ∷ fulfilled rs

pub seen_first-AllAgree :
    (rs : List Answer) (best o : Option Record)
    → choose_best rs (seen_first best) best ≡ ok o
    → AllAgree (candidates best rs)
unfolding JsMap.get
seen_first-AllAgree rs none o h = choose_best-AllAgree rs [] none o h
seen_first-AllAgree rs (some b) o h = (
  chosen_one rs (seen_first (some b)) (some b) o b.sequence (identity b) (ground arith) h,
  choose_best-AllAgree rs (seen_first (some b)) (some b) o h,
)

-- The best of no record and some answers.
abbrev IsTop : List Record → Option Record → Type 0
IsTop rs o = (b : Record) → o ≡ some b → IsOneOf b rs × All (λ r. r.sequence ≤ b.sequence) rs

IsTop-IsBest :
    (b : Record) (rs : List Record) (o : Option Record) → IsBest b rs o → IsTop (b ∷ rs) o
IsTop-IsBest b rs o h a e =
    let same : h.best ≡ a = some_injective (sym h.chosen ∙ e) in
    (
      subst (λ x. IsOneOf x (b ∷ rs)) same h.one,
      subst (λ (x : Record). All (λ r. r.sequence ≤ x.sequence) (b ∷ rs)) same h.highest,
    )

pub no_best : (b : Record) → none ≡ some b → ⊥
no_best b e = cc

IsTop-first :
    (rs : List Answer) (seen : JsMap Text) (o : Option Record)
    → choose_best rs seen none ≡ ok o
    → IsTop (fulfilled rs) o
unfolding choose_best
IsTop-first [] seen o h = λ b e. absurd (no_best b (ok-injective none o h ∙ e))
IsTop-first (err c ∷ rs) seen o h = IsTop-first rs seen o h
IsTop-first (ok none ∷ rs) seen o h = IsTop-first rs seen o h
IsTop-first (ok (some c) ∷ rs) seen o h = IsTop-IsBest c (fulfilled rs) o (
    choose_best-IsBest rs (JsMap.set c.sequence (identity c) seen) c o
      (choose_step c rs seen none o h).1)

pub choose_best-IsTop :
    (rs : List Answer) (best o : Option Record)
    → choose_best rs (seen_first best) best ≡ ok o
    → IsTop (candidates best rs) o
choose_best-IsTop rs none o h = IsTop-first rs [] o h
choose_best-IsTop rs (some b) o h =
    IsTop-IsBest b (fulfilled rs) o (choose_best-IsBest rs (seen_first (some b)) b o h)
