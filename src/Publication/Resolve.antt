-- ===== src/Publication/Resolve.antt =====
-- torrent-records.js: the end of `resolveRecord`, called without `onRecord`, from the answers of the
-- sources to the record that it observes.
use my.Base.{
  ℕ, ◌≡◌, Bool, true, false, not, Option, none, some, List, [], ◌∷◌, if◌then◌else◌, ltb, All,
}
use my.Base.Failure.{publication_conflict, publication_unavailable, Result, ok, err, ◌>>=◌}
use my.Base.JsMap
use my.Base.JsMap.{JsMap}
use my.Base.Text.{Text, text_eq}
use my.Publication.{Fields, Record}
use my.Publication.Observe.{End, observe_record, cached_record}

-- What became of the request to a source: a record that `parseRecord` accepted, a 404, or a
-- rejection.
abbrev pub Answer : Type 0
Answer = Result (Option Record)

abbrev pub identity : Record → Text
identity r = r.fields.info_hash

abbrev pub clashes : Option Text → Text → Bool
clashes none t = false
clashes (some s) t = not (text_eq s t)

-- `if(!best || candidate.sequence>best.sequence)best=candidate;`
abbrev pub newer : Option Record → Record → Record
newer none c = c
newer (some b) c = if ltb b.sequence c.sequence then c else b

-- The loop over `responses`, with `seen` and `best`.
unfoldable pub choose_best : List Answer → JsMap Text → Option Record → Result (Option Record)
choose_best [] seen best = ok best
choose_best (err c ∷ rs) seen best = choose_best rs seen best
choose_best (ok none ∷ rs) seen best = choose_best rs seen best
choose_best (ok (some c) ∷ rs) seen best =
    let rest = choose_best rs (JsMap.set c.sequence (identity c) seen) (some (newer best c)) in
    if clashes (JsMap.get c.sequence seen) (identity c) then err publication_conflict else rest

abbrev pub seen_first : Option Record → JsMap Text
seen_first none = []
seen_first (some b) = (b.sequence, identity b) ∷ []

-- Some source answered, if only with a 404.
abbrev pub any_fulfilled : List Answer → Bool
any_fulfilled [] = false
any_fulfilled (err c ∷ rs) = any_fulfilled rs
any_fulfilled (ok a ∷ rs) = true

module _ (sig : List ℕ → List ℕ → List ℕ → Bool) (key : Text) where
  -- The end of resolveRecord, whose last call is `observeRecord(best,...)`.
  unfoldable pub finish_resolve :
      List Answer → End → Option Fields → Result (Option Record) → Result (Option Record)
  finish_resolve rs end row (err c) = err c
  finish_resolve rs end row (ok (some b)) =
      (observe_record sig key b.fields end row).1 >>= λ r. ok (some r)
  finish_resolve rs end row (ok none) =
      if any_fulfilled rs then ok none else err publication_unavailable

  unfoldable pub resolve_cached :
      List Answer → End → Option Fields → Result (Option Record) → Result (Option Record)
  resolve_cached rs end row (err c) = err c
  resolve_cached rs end row (ok best) =
      finish_resolve rs end row (choose_best rs (seen_first best) best)

  -- `before` is the row that `cachedRecord` read, and `row` what the transaction finds.
  unfoldable pub resolve_record :
      List Answer → End → Option Fields → Option Fields → Result (Option Record)
  resolve_record rs end before row = resolve_cached rs end row (cached_record sig key before)

-- The records among the answers.
abbrev pub fulfilled : List Answer → List Record
fulfilled [] = []
fulfilled (err c ∷ rs) = fulfilled rs
fulfilled (ok none ∷ rs) = fulfilled rs
fulfilled (ok (some r) ∷ rs) = r ∷ fulfilled rs

-- Two records of one sequence name one infohash.
abbrev pub Agrees : Record → Record → Type 0
Agrees r s = r.sequence ≡ s.sequence → identity s ≡ identity r

abbrev pub AllAgree : List Record → Type 0
AllAgree [] = Unit
AllAgree (r ∷ rs) = All (Agrees r) rs × AllAgree rs
