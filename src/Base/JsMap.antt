-- ===== src/Base/JsMap.antt =====
-- JavaScript's `Map`: its entries in the order of insertion. `set` on a key that is there keeps the
-- entry's place, and a deleted key that is set again goes to the end.
use Prim.Native.Nat.{ℕ}
use mathlib.Core.Path.{◌≡◌, refl}
use mathlib.Core.Option.{Option, none, some}
use mathlib.Core.List.{List, [], ◌∷◌, ◌++◌}
use native.Mathlib.Omega.{arith}
use my.Base.Tests.{◌==◌, if◌then◌else◌}

abbrev pub JsMap {ℓ} : Type ℓ → Type ℓ
JsMap V = List (ℕ × V)

module _ {ℓ} {V : Type ℓ} where
  unfoldable pub get : ℕ → JsMap V → Option V
  get k [] = none
  get k ((j, v) ∷ m) = if j == k then some v else get k m

  unfoldable pub set : ℕ → V → JsMap V → JsMap V
  set k v [] = (k, v) ∷ []
  set k v ((j, w) ∷ m) = if j == k then (k, v) ∷ m else (j, w) ∷ set k v m

  unfoldable pub delete : ℕ → JsMap V → JsMap V
  delete k [] = []
  delete k ((j, v) ∷ m) = let rest = delete k m in if j == k then rest else (j, v) ∷ rest

  pub get-set :
      (k j : ℕ) (v : V) (m : JsMap V) → get j (set k v m) ≡ (if k == j then some v else get j m)
  unfolding get set
  get-set k j v [] = refl
  get-set k j v ((i, w) ∷ m) = ground (arith, get-set k j v m)

  pub get-delete : (k j : ℕ) (m : JsMap V) → get j (delete k m) ≡ (if k == j then none else get j m)
  unfolding get delete
  get-delete k j [] = ground arith
  get-delete k j ((i, w) ∷ m) = ground (arith, get-delete k j m)

  -- A key that is not there is set at the end.
  pub set-absent : (k : ℕ) (v : V) (m : JsMap V) → get k m ≡ none → set k v m ≡ m ++ (k, v) ∷ []
  unfolding get set
  set-absent k v [] h = refl
  set-absent k v ((j, w) ∷ m) h = ground (arith, set-absent k v m)

  -- No key occurs twice, as in every `Map`.
  abbrev pub IsUnique : JsMap V → Type ℓ
  IsUnique [] = Unit
  IsUnique ((k, v) ∷ m) = (get k m ≡ none) × IsUnique m

module _ {ℓ} {V : Type ℓ} where
  pub set-IsUnique : (k : ℕ) (v : V) (m : JsMap V) → IsUnique m → IsUnique (set k v m)
  unfolding get set
  set-IsUnique k v [] u = (refl, tt)
  set-IsUnique k v ((j, w) ∷ m) u = ground (arith, get-set k j v m, set-IsUnique k v m)

  pub delete-IsUnique : (k : ℕ) (m : JsMap V) → IsUnique m → IsUnique (delete k m)
  unfolding get delete
  delete-IsUnique k [] u = u
  delete-IsUnique k ((j, w) ∷ m) u = ground (arith, get-delete k j m, delete-IsUnique k m)

  pub delete-absent : (k : ℕ) (m : JsMap V) → get k m ≡ none → delete k m ≡ m
  unfolding get delete
  delete-absent k [] h = refl
  delete-absent k ((j, w) ∷ m) h = ground (arith, delete-absent k m)

  pub get-append_last :
      (k : ℕ) (v : V) (m : JsMap V) → get k m ≡ none → get k (m ++ (k, v) ∷ []) ≡ some v
  unfolding get
  get-append_last k v [] h = ground arith
  get-append_last k v ((j, w) ∷ m) h = ground (arith, get-append_last k v m)
