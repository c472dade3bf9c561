-- ===== src/PieceStore/Sound.antt =====
-- The invariant of torrent-store.js, and that its steps on the cache and the rows keep it.
use my.Base.{
  ℕ, ◌+◌, ◌≤◌, ◌<◌, ◌≡◌, refl, sym, ap, ◌∙◌, inl, inr, true, false, Option, none, some, [], length,
  arith, if◌then◌else◌, ◌==◌, Bool-cases,
}
use mathlib.Core.Path.{subst, subst₂}
use my.Base.Failure.{Result}
use my.Base.JsMap
use my.Base.JsMap.{JsMap, IsUnique}
use my.PieceStore.{Bytes, Store, Row, Rows, piece_length, size_at, remember, touch, row_data}
use my.PieceStore.Cache.{total, get-remember, remember-IsUnique, memory-remember, touch-total}
use my.PieceStore.World.{Task, queued, writing, reading, Reply, World, reply, wait}

-- The piece in the database, if its row fits a torrent of `total` bytes.
abbrev pub durable : ℕ → Rows → ℕ → Option Bytes
durable total rows i = row_data total (size_at total i) (JsMap.get i rows)

-- The count of the RAM cache is exact and within the budget, and each piece in RAM is the piece in
-- the database.
pub record IsSound (s : Store) (rows : Rows) : Type 0 where
  pub unique : IsUnique s.cache
  pub exact : s.memory_bytes ≡ total s.cache
  pub bounded : s.memory_bytes ≤ s.budget
  pub coherent :
      (i : ℕ) (e : Bytes) → JsMap.get i s.cache ≡ some e → durable s.length rows i ≡ some e

-- A call in progress has had its range checked.
abbrev pub IsChecked : Store → Task → Type 0
IsChecked s (queued r) = Unit
IsChecked s (writing i d) = (i < s.count) × (length d ≡ size_at s.length i)
IsChecked s (reading i n from len) = (i < s.count) × (n ≡ size_at s.length i) × (from + len ≤ n)

pub record IsValid (w : World) : Type 0 where
  pub sound : IsSound w.store w.rows
  pub tasks : (id : ℕ) (t : Task) → JsMap.get id w.pending ≡ some t → IsChecked w.store t
  pub quiet : w.ended ≡ true → (w.store.closed ≡ true) × (w.store.cache ≡ []) × (w.pending ≡ [])

-- `remember` and `touch` change the cache alone.
pub record SameShape (s t : Store) : Type 0 where
  pub length : t.length ≡ s.length
  pub count : t.count ≡ s.count
  pub budget : t.budget ≡ s.budget
  pub closed : t.closed ≡ s.closed

pub SameShape-remember : (i : ℕ) (d : Bytes) (s : Store) → SameShape s (remember i d s)
unfolding remember
SameShape-remember i d s = ground arith

pub remember-IsSound :
    (i : ℕ) (d : Bytes) (s : Store) (rows : Rows)
    → IsSound s rows
    → durable s.length rows i ≡ some d
    → IsSound (remember i d s) rows
remember-IsSound i d s rows h r =
    let same = SameShape-remember i d s in
    let m = memory-remember i d s h.unique h.exact h.bounded in
    record {
      unique = remember-IsUnique i d s h.unique h.exact;
      exact = m.0;
      bounded = rw same.budget m.1;
      coherent = λ j e g.
          subst (λ n. durable n rows j ≡ some e) (sym same.length)
            (elim (get-remember i j d e s h.unique h.exact g) [
              | inl p ↦ subst₂ (λ k x. durable s.length rows k ≡ some x) p.0 p.1 r
              | inr p ↦ h.coherent j e p.1
            ]);
    }

abbrev pub row_of : Store → Bytes → Row
row_of s d = record { length = s.length; chunk_length = piece_length; contents = some d }

pub durable-set :
    (total i : ℕ) (d : Bytes) (rows : Rows) (j : ℕ) (row : Row)
    → row ≡ record { length = total; chunk_length = piece_length; contents = some d }
    → length d ≡ size_at total i
    → durable total (JsMap.set i row rows) j ≡ (if i == j then some d else durable total rows j)
unfolding row_data
durable-set total i d rows j row e n = ground (arith, JsMap.get-set i j row rows)

pub write-IsSound :
    (i : ℕ) (d : Bytes) (s : Store) (rows : Rows)
    → IsSound s rows
    → length d ≡ size_at s.length i
    → IsSound (remember i d s) (JsMap.set i (row_of s d) rows)
write-IsSound i d s rows h n =
    let same = SameShape-remember i d s in
    let m = memory-remember i d s h.unique h.exact h.bounded in
    record {
      unique = remember-IsUnique i d s h.unique h.exact;
      exact = m.0;
      bounded = rw same.budget m.1;
      coherent = λ j e g.
          subst (λ n. durable n (JsMap.set i (row_of s d) rows) j ≡ some e) (sym same.length)
            (rw (durable-set s.length i d rows j (row_of s d) refl n)
              (elim (get-remember i j d e s h.unique h.exact g) [
                | inl p ↦ ground arith
                | inr p ↦ ground (arith, h.coherent j e p.1)
              ]));
    }

pub touch-IsSound :
    (i : ℕ) (d : Bytes) (s : Store) (rows : Rows)
    → IsSound s rows
    → JsMap.get i s.cache ≡ some d
    → IsSound (touch i d s) rows
touch-IsSound i d s rows h g =
    let t = touch-total i d s h.unique g in
    record {
      unique = t.0;
      exact = unfold touch in (h.exact ∙ sym t.1);
      bounded = unfold touch in h.bounded;
      coherent = λ j e p. unfold touch in h.coherent j e (sym (t.2 j) ∙ p);
    }

pub SameShape-touch : (i : ℕ) (d : Bytes) (s : Store) → SameShape s (touch i d s)
unfolding touch
SameShape-touch i d s = ground arith

pub IsChecked-same :
    (s t : Store) (k : Task)
    → t.length ≡ s.length
    → t.count ≡ s.count
    → IsChecked s k
    → IsChecked t k
IsChecked-same s t (queued r) l n c = tt
IsChecked-same s t (writing i d) l n c = ground arith
IsChecked-same s t (reading i n from len) l m c = ground arith

pub reply-IsValid : (id : ℕ) (r : Result Reply) (w : World) → IsValid w → IsValid (reply id r w)
unfolding reply
reply-IsValid id r w h = record {
  sound = h.sound;
  tasks = λ k t g. h.tasks k t (ground (arith, JsMap.get-delete id k w.pending));
  quiet = λ e. let q = h.quiet e in (q.0, q.1, rw q.2 (unfold JsMap.delete in refl));
}

pub wait-IsValid :
    (id : ℕ) (t : Task) (w : World)
    → IsValid w
    → w.ended ≡ false
    → IsChecked w.store t
    → IsValid (wait id t w)
unfolding wait
wait-IsValid id t w h e c = record {
  sound = h.sound;
  tasks = λ k u g. elim (Bool-cases (id == k)) [
    | inl same ↦ subst (IsChecked w.store) (ground (arith, JsMap.get-set id k t w.pending)) c
    | inr diff ↦ h.tasks k u (ground (arith, JsMap.get-set id k t w.pending))
  ];
  quiet = λ f. absurd (ground arith);
}

-- New contents of the cache and the rows, while the store has not been closed for good.
pub contents-IsValid :
    (s : Store) (rows : Rows) (w : World)
    → IsValid w
    → w.ended ≡ false
    → SameShape w.store s
    → IsSound s rows
    → IsValid (record w { store = s; rows = rows })
contents-IsValid s rows w h e same sound = record {
  sound = sound;
  tasks = λ k t g. IsChecked-same w.store s t same.length same.count (h.tasks k t g);
  quiet = λ f. absurd (ground arith);
}

-- While a call is pending the close has not finished.
pub ended_of_pending :
    (id : ℕ) (t : Task) (w : World) → IsValid w → JsMap.get id w.pending ≡ some t → w.ended ≡ false
unfolding JsMap.get
ended_of_pending id t w h g = elim (Bool-cases w.ended) [
  | inl e ↦
      let p : w.pending ≡ [] = (h.quiet e).2 in
      let n : none ≡ some t = subst (λ m. JsMap.get id m ≡ some t) p g in cc
  | inr e ↦ e
]

-- With nothing in RAM the rows may be anything.
pub IsSound-empty : (s : Store) (rows : Rows) → s.cache ≡ [] → s.memory_bytes ≡ 0 → IsSound s rows
unfolding total JsMap.get
IsSound-empty s rows e m = record {
  unique = subst IsUnique (sym e) tt;
  exact = m ∙ sym (ap total e);
  bounded = omega arith;
  coherent = λ i x g. let n : none ≡ some x = subst (λ c. JsMap.get i c ≡ some x) e g in cc;
}
