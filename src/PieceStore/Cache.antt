-- ===== src/PieceStore/Cache.antt =====
-- The RAM cache of torrent-store.js: what `remember` keeps, evicts and counts.
use my.Base.{
  ℕ, ◌+◌, ◌-◌, ◌≤◌, ◌≡◌, refl, false, none, some, [], ◌∷◌, ◌++◌, ◌⊎◌, ◌≢◌, inl, inr, length, arith,
  ltb, length-append, Bool-cases, Option-cases, ap, if◌then◌else◌,
}
use my.Base.JsMap
use my.Base.JsMap.{JsMap, IsUnique}
use my.PieceStore.{Bytes, Store, evict, remember, touch}

-- The bytes that the entries of a cache hold together.
unfoldable pub total : JsMap Bytes → ℕ
total [] = 0
total ((k, v) ∷ m) = length v + total m

total-set_absent :
    (k : ℕ) (v : Bytes) (m : JsMap Bytes)
    → JsMap.get k m ≡ none
    → total (JsMap.set k v m) ≡ total m + length v
unfolding total JsMap.get JsMap.set
total-set_absent k v [] h = omega arith
total-set_absent k v ((j, w) ∷ m) h = ground (arith, total-set_absent k v m)

total-delete :
    (k : ℕ) (v : Bytes) (m : JsMap Bytes)
    → IsUnique m
    → JsMap.get k m ≡ some v
    → total (JsMap.delete k m) + length v ≡ total m
unfolding total JsMap.get JsMap.delete
total-delete k v [] u h = cc
total-delete k v ((j, w) ∷ m) u h = ground (arith, total-delete k v m, JsMap.delete-absent k m)

-- With an exact count the loop ends by its test, and its count stays exact.
pub evict-total :
    (budget : ℕ) (m : JsMap Bytes)
    → ((evict budget m (total m)).1 ≡ total (evict budget m (total m)).0)
      × ((evict budget m (total m)).1 ≤ budget)
unfolding evict total
evict-total budget [] = (refl, omega arith)
evict-total budget ((k, v) ∷ m) =
    let e : length v + total m - length v ≡ total m = omega arith in
    rw e (ground (arith, evict-total budget m))

evict-IsUnique : (b : ℕ) (m : JsMap Bytes) (n : ℕ) → IsUnique m → IsUnique (evict b m n).0
unfolding evict
evict-IsUnique b [] n u = tt
evict-IsUnique b ((k, v) ∷ m) n u = ground (arith, evict-IsUnique b m (n - length v))

get-evict :
    (b : ℕ) (m : JsMap Bytes) (n j : ℕ) (e : Bytes)
    → IsUnique m
    → JsMap.get j (evict b m n).0 ≡ some e
    → JsMap.get j m ≡ some e
unfolding evict JsMap.get
get-evict b [] n j e u h = h
get-evict b ((k, v) ∷ m) n j e u h = ground (arith, get-evict b m (n - length v) j e)

abbrev without : ℕ → Store → JsMap Bytes
without i s = JsMap.delete i s.cache

-- The cache with the piece at its end, before the eviction.
abbrev with_piece : ℕ → Bytes → Store → JsMap Bytes
with_piece i d s = JsMap.set i d (without i s)

get-without : (i : ℕ) (s : Store) → JsMap.get i (without i s) ≡ none
get-without i s = ground (arith, JsMap.get-delete i i s.cache)

total-without : (i : ℕ) (s : Store) → IsUnique s.cache → total (without i s) ≤ total s.cache
total-without i s u = elim (Option-cases (JsMap.get i s.cache)) [
  | inl e ↦ omega (arith, ap total (JsMap.delete-absent i s.cache e))
  | inr p ↦ omega (arith, total-delete i p.0 s.cache u p.1)
]

-- `remember`, on a store whose count is exact, with the two cases of the previous entry in one.
remember-eq :
    (i : ℕ) (d : Bytes) (s : Store)
    → IsUnique s.cache
    → s.memory_bytes ≡ total s.cache
    → remember i d s ≡ (
        if ltb s.budget (length d)
        then record s { cache = without i s; memory_bytes = total (without i s) }
        else record s {
          cache = (evict s.budget (with_piece i d s) (total (with_piece i d s))).0;
          memory_bytes = (evict s.budget (with_piece i d s) (total (with_piece i d s))).1;
        })
unfolding remember
remember-eq i d s u m =
    let t : total (with_piece i d s) ≡ total (without i s) + length d =
      total-set_absent i d (without i s) (get-without i s) in
    elim (Option-cases (JsMap.get i s.cache)) [
      | inl e ↦ rw (t, e, JsMap.delete-absent i s.cache e, m)
      | inr p ↦
          let n : s.memory_bytes - length p.0 ≡ total (without i s) =
            omega (arith, total-delete i p.0 s.cache u p.1) in
          rw (t, p.1, n)
    ]

with_piece-IsUnique :
    (i : ℕ) (d : Bytes) (s : Store) → IsUnique s.cache → IsUnique (with_piece i d s)
with_piece-IsUnique i d s u =
    JsMap.set-IsUnique i d (without i s) (JsMap.delete-IsUnique i s.cache u)

get-with_piece :
    (i j : ℕ) (d e : Bytes) (s : Store)
    → JsMap.get j (with_piece i d s) ≡ some e
    → ((i ≡ j) × (d ≡ e)) ⊎ ((i ≢ j) × (JsMap.get j s.cache ≡ some e))
get-with_piece i j d e s h =
    ground (arith, JsMap.get-set i j d (without i s), JsMap.get-delete i j s.cache)

-- An entry of the cache after `remember` is the piece remembered, or was there before.
pub get-remember :
    (i j : ℕ) (d e : Bytes) (s : Store)
    → IsUnique s.cache
    → s.memory_bytes ≡ total s.cache
    → JsMap.get j (remember i d s).cache ≡ some e
    → ((i ≡ j) × (d ≡ e)) ⊎ ((i ≢ j) × (JsMap.get j s.cache ≡ some e))
get-remember i j d e s u m h = elim (Bool-cases (ltb s.budget (length d))) [
  | inl big ↦
      let g : JsMap.get j (without i s) ≡ some e = rw (remember-eq i d s u m, big) at h in
      ground (arith, JsMap.get-delete i j s.cache)
  | inr fits ↦
      let g : JsMap.get j (evict s.budget (with_piece i d s) (total (with_piece i d s))).0
          ≡ some e =
        rw (remember-eq i d s u m, fits) at h in
      get-with_piece i j d e s
        (get-evict s.budget (with_piece i d s) _ j e (with_piece-IsUnique i d s u) g)
]

pub remember-IsUnique :
    (i : ℕ) (d : Bytes) (s : Store)
    → IsUnique s.cache
    → s.memory_bytes ≡ total s.cache
    → IsUnique (remember i d s).cache
remember-IsUnique i d s u m =
    rw (remember-eq i d s u m) (elim (Bool-cases (ltb s.budget (length d))) [
      | inl big ↦ rw big (JsMap.delete-IsUnique i s.cache u)
      | inr fits ↦
          rw fits (evict-IsUnique s.budget (with_piece i d s) _ (with_piece-IsUnique i d s u))
    ])

pub memory-remember :
    (i : ℕ) (d : Bytes) (s : Store)
    → IsUnique s.cache
    → s.memory_bytes ≡ total s.cache
    → s.memory_bytes ≤ s.budget
    → ((remember i d s).memory_bytes ≡ total (remember i d s).cache)
      × ((remember i d s).memory_bytes ≤ s.budget)
memory-remember i d s u m b =
    rw (remember-eq i d s u m) (elim (Bool-cases (ltb s.budget (length d))) [
      | inl big ↦ rw big (refl, omega (arith, total-without i s u))
      | inr fits ↦ rw fits (evict-total s.budget (with_piece i d s))
    ])

-- What stays is a run at the end, the longest that the budget allows.
evict-suffix : (b : ℕ) (m : JsMap Bytes) → (p : JsMap Bytes) × (p ++ (evict b m (total m)).0 ≡ m)
unfolding evict total
evict-suffix b [] = ([], refl)
evict-suffix b ((k, v) ∷ m) =
    let e : length v + total m - length v ≡ total m = omega arith in
    rw e (elim (Bool-cases (ltb b (length v + total m))) [
      | inl more ↦
          rw more ((k, v) ∷ (evict-suffix b m).0, ap (λ l. (k, v) ∷ l) (evict-suffix b m).1)
      | inr done ↦ rw done ([], refl)
    ])

evict-longest :
    (b : ℕ) (p q : JsMap Bytes)
    → total q ≤ b
    → length q ≤ length (evict b (p ++ q) (total (p ++ q))).0
unfolding evict total
evict-longest b [] [] h = omega arith
evict-longest b [] ((k, v) ∷ q) h = ground arith
evict-longest b ((k, v) ∷ p) q h =
    let e : length v + total (p ++ q) - length v ≡ total (p ++ q) = omega arith in
    rw e (ground (arith, evict-longest b p q, length-append p q))

get-evict_last :
    (b i : ℕ) (d : Bytes) (m : JsMap Bytes)
    → JsMap.get i m ≡ none
    → length d ≤ b
    → JsMap.get i (evict b (m ++ (i, d) ∷ []) (total (m ++ (i, d) ∷ []))).0 ≡ some d
unfolding evict total JsMap.get
get-evict_last b i d [] n h = ground arith
get-evict_last b i d ((k, v) ∷ m) n h =
    let l : JsMap Bytes = m ++ (i, d) ∷ [] in
    let e : length v + total l - length v ≡ total l = omega arith in
    rw e (elim (Bool-cases (ltb b (length v + total l))) [
      | inl more ↦ rw more (get-evict_last b i d m (ground arith) h)
      | inr done ↦ rw done (JsMap.get-append_last i d ((k, v) ∷ m) n)
    ])

-- Remembering a piece that fits in the budget: it is in the cache afterwards; the cache is what
-- stays of the old entries in their order, with the piece as the newest, when the oldest are dropped;
-- and no more are dropped than the budget asks for.
pub remember-lru :
    (i : ℕ) (d : Bytes) (s : Store)
    → IsUnique s.cache
    → s.memory_bytes ≡ total s.cache
    → length d ≤ s.budget
    → (JsMap.get i (remember i d s).cache ≡ some d)
      × ((dropped : JsMap Bytes) × (dropped ++ (remember i d s).cache
            ≡ JsMap.delete i s.cache ++ (i, d) ∷ []))
      × ((p q : JsMap Bytes)
          → p ++ q ≡ JsMap.delete i s.cache ++ (i, d) ∷ []
          → total q ≤ s.budget
          → length q ≤ length (remember i d s).cache)
remember-lru i d s u m h =
    let small : ltb s.budget (length d) ≡ false = ground arith in
    let at_end : with_piece i d s ≡ JsMap.delete i s.cache ++ (i, d) ∷ [] =
      JsMap.set-absent i d (without i s) (get-without i s) in
    rw (remember-eq i d s u m, small, at_end)
      (
        get-evict_last s.budget i d (without i s) (get-without i s) h,
        evict-suffix s.budget (without i s ++ (i, d) ∷ []),
        λ p q e. rw (← e) (evict-longest s.budget p q),
      )

-- A hit moves its entry and keeps what the cache holds.
pub touch-total :
    (i : ℕ) (d : Bytes) (s : Store)
    → IsUnique s.cache
    → JsMap.get i s.cache ≡ some d
    → IsUnique (touch i d s).cache
      × (total (touch i d s).cache ≡ total s.cache)
      × ((j : ℕ) → JsMap.get j (touch i d s).cache ≡ JsMap.get j s.cache)
unfolding touch
touch-total i d s u h = (
  with_piece-IsUnique i d s u,
  omega (arith, total-set_absent i d (without i s) (get-without i s), total-delete i d s.cache u h),
  λ j. ground (arith, JsMap.get-set i j d (without i s), JsMap.get-delete i j s.cache),
)
