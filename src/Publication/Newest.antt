-- ===== src/Publication/Newest.antt =====
-- torrent-records.js: what `resolveRecord` returns.
use my.Base.{
  ℕ, ◌≤◌, ◌≡◌, refl, sym, ◌∙◌, inl, inr, Bool, Option, none, some, List, [], ◌∷◌, if_cases, All,
}
use mathlib.Core.Path.{subst}
use my.Base.Failure.{
  publication_unavailable, Result, ok, err, >>=-eq_ok, storage_full, storage_error, Result-cases,
  Yields-ok, ok-injective,
}
use my.Base.Text.{Text}
use my.Publication.{Fields, Record, unhex, verify_record}
use my.Publication.Observe.{
  End, complete, quota, unknown, failed, end_observe, observe_verified, compare_row, observe_record,
  cached_record, row_record, verify_record-fields,
}
use my.Publication.Resolve.{
  Answer, choose_best, seen_first, any_fulfilled, finish_resolve, resolve_cached, resolve_record,
  fulfilled, AllAgree,
}
use my.Publication.Loop.{
  some_injective, no_value, IsOneOf, candidates, seen_first-AllAgree, no_best, choose_best-IsTop,
}

module _ (sig : List ℕ → List ℕ → List ℕ → Bool) (key : Text) where
  abbrev pub IsVerified : Record → Type 0
  IsVerified r = verify_record sig key r.fields ≡ ok r

  row-IsVerified :
      (row : Option Fields) (b : Record) → row_record sig key row ≡ ok (some b) → IsVerified b
  unfolding row_record
  row-IsVerified none b h = absurd (no_best b (ok-injective none (some b) h))
  row-IsVerified (some f) b h = elim (Result-cases (verify_record sig key f)) [
    | inl (c, e) ↦ absurd (no_value c (some b) (rw e at h))
    | inr (r, e) ↦
        let same : r ≡ b = some_injective (ok-injective (some r) (some b) (rw e at h)) in
        let fields : r.fields ≡ f =
          Yields-ok (λ (x : Record). x.fields ≡ f) _ r e (verify_record-fields sig key f) in
        subst IsVerified same (subst (λ g. verify_record sig key g ≡ ok r) (sym fields) e)
  ]

  cached-IsVerified :
      (row : Option Fields) (b : Record) → cached_record sig key row ≡ ok (some b) → IsVerified b
  unfolding cached_record
  cached-IsVerified row b h = elim (Result-cases (unhex key 32)) [
    | inl (c, e) ↦ absurd (no_value c (some b) (rw e at h))
    | inr (k, e) ↦ row-IsVerified row b (rw e at h)
  ]

  end_observe-reply :
      (end : End) (row : Option Fields) (b r : Record) (c : Result Bool)
      → (end_observe end row b c).1 ≡ ok r
      → r ≡ b
  unfolding end_observe
  end_observe-reply end row b r (err e) h = absurd (no_value e r h)
  end_observe-reply complete row b r (ok n) h = sym (ok-injective b r h)
  end_observe-reply quota row b r (ok n) h = absurd (no_value storage_full r h)
  end_observe-reply unknown row b r (ok n) h = absurd (no_value storage_error r h)
  end_observe-reply (failed e) row b r (ok n) h = absurd (no_value e r h)

  finish_resolve-some :
      (rs : List Answer) (end : End) (row : Option Fields) (b r : Record)
      → IsVerified b
      → finish_resolve sig key rs end row (ok (some b)) ≡ ok (some r)
      → r ≡ b
  unfolding finish_resolve observe_record observe_verified
  finish_resolve-some rs end row b r v h =
      let made =
        >>=-eq_ok (observe_verified sig key end row (verify_record sig key b.fields)).1 _ h in
      let reply : (observe_verified sig key end row (ok b)).1 ≡ ok made.0 =
        subst (λ m. (observe_verified sig key end row m).1 ≡ ok made.0) v made.1 in
      sym (some_injective (ok-injective (some made.0) (some r) made.2))
      ∙ end_observe-reply end row b made.0 (compare_row sig key row b) reply

  All-IsOneOf :
      (P : Record → Type 0) (b : Record) (rs : List Record) → All P rs → IsOneOf b rs → P b
  All-IsOneOf P b [] h o = absurd o
  All-IsOneOf P b (r ∷ rs) h (inl e) = subst P (sym e) h.0
  All-IsOneOf P b (r ∷ rs) h (inr o) = All-IsOneOf P b rs h.1 o

  candidates-IsVerified :
      (before : Option Fields) (best : Option Record) (rs : List Answer)
      → cached_record sig key before ≡ ok best
      → All IsVerified (fulfilled rs)
      → All IsVerified (candidates best rs)
  candidates-IsVerified before none rs c h = h
  candidates-IsVerified before (some b) rs c h = (cached-IsVerified before b c, h)

  finish_resolve-newest :
      (rs : List Answer) (end : End) (row : Option Fields) (best : Option Record)
      (o : Result (Option Record)) (r : Record)
      → All IsVerified (candidates best rs)
      → choose_best rs (seen_first best) best ≡ o
      → finish_resolve sig key rs end row o ≡ ok (some r)
      → IsOneOf r (candidates best rs)
        × All (λ c. c.sequence ≤ r.sequence) (candidates best rs)
        × AllAgree (candidates best rs)
  unfolding finish_resolve
  finish_resolve-newest rs end row best (err c) r v e h = absurd (no_value c (some r) h)
  finish_resolve-newest rs end row best (ok none) r v e h = absurd (
      if_cases (λ m. m ≡ ok (some r) → ⊥) (any_fulfilled rs) (ok none) (err publication_unavailable)
        (λ _ k. no_best r (ok-injective none (some r) k))
        (λ _ k. no_value publication_unavailable (some r) k) h)
  finish_resolve-newest rs end row best (ok (some b)) r v e h =
      let top = choose_best-IsTop rs best (some b) e b refl in
      let is_b =
        finish_resolve-some rs end row b r (All-IsOneOf IsVerified b (candidates best rs) v top.0)
          h in
      (
        subst (λ x. IsOneOf x (candidates best rs)) (sym is_b) top.0,
        subst (λ (x : Record). All (λ c. c.sequence ≤ x.sequence) (candidates best rs)) (sym is_b)
            top.1,
        seen_first-AllAgree rs best (some b) e,
      )

  -- Where `resolveRecord` returns a record, it is the cached one or that of an answer; none of them
  -- has a higher sequence; and no two of them have one sequence and different infohashes. The
  -- records of the answers are those that verification accepted.
  pub resolve_record-newest :
      (rs : List Answer) (end : End) (before row : Option Fields) (r : Record)
      → All IsVerified (fulfilled rs)
      → resolve_record sig key rs end before row ≡ ok (some r)
      → (best : Option Record) × (cached_record sig key before ≡ ok best)
        × IsOneOf r (candidates best rs)
        × All (λ c. c.sequence ≤ r.sequence) (candidates best rs)
        × AllAgree (candidates best rs)
  unfolding resolve_record resolve_cached
  resolve_record-newest rs end before row r v h =
      elim (Result-cases (cached_record sig key before)) [
        | inl (c, e) ↦ absurd (no_value c (some r) (rw e at h))
        | inr (best, e) ↦
            let newest =
              finish_resolve-newest rs end row best (choose_best rs (seen_first best) best) r
                (candidates-IsVerified before best rs e v) refl (rw e at h) in
            (best, e, newest.0, newest.1, newest.2)
      ]
