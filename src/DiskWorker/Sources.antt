-- ===== src/DiskWorker/Sources.antt =====
-- worker.js: between two operations no source is left open but that of the disk.
use my.Base.{
  ℕ, ◌+◌, ◌≡◌, ◌≢◌, ◌≤◌, ◌<◌, refl, sym, ap, ◌∙◌, Bool, true, Option, none, some, List, [], ◌∷◌,
  ◌++◌, ◌==◌, if_cases, arith,
}
use mathlib.Core.List.{append-nil}
use mathlib.Core.Path.{subst}
use my.DiskWorker.{Source, Worker, is_current, delete_source, delete_previous}

-- The sources are none, or that of the disk alone.
abbrev pub Only : Option ℕ → List Source → Type 0
Only c [] = Unit
Only c (s ∷ []) = is_current c s.id ≡ true
Only c (s ∷ t ∷ ss) = ⊥

abbrev Under : Option ℕ → ℕ → Type 0
Under none n = Unit
Under (some k) n = k ≤ n

pub record Tidy (vault current : Option ℕ) (sources : List Source) (last : ℕ) : Type 0 where
  pub only : Only current sources
  pub bound : Under current last
  pub closed : vault ≡ none → current ≡ none

abbrev pub IsTidy : Worker → Type 0
IsTidy w = Tidy w.vault w.current w.sources w.source_id

Under-suc : (o : Option ℕ) (n : ℕ) → Under o n → Under o (n + 1)
Under-suc none n h = tt
Under-suc (some k) n h = omega arith

delete-++ :
    (id : ℕ) (xs ys : List Source)
    → delete_source id (xs ++ ys) ≡ delete_source id xs ++ delete_source id ys
unfolding delete_source
delete-++ id [] ys = refl
delete-++ id (x ∷ xs) ys = ground (arith, delete-++ id xs ys)

pub delete-same : (s : Source) → delete_source s.id (s ∷ []) ≡ []
unfolding delete_source
delete-same s = if_cases (λ x. x ≡ []) (s.id == s.id) [] (s ∷ []) (λ _. refl) (λ f. ground arith)

delete-other : (id : ℕ) (s : Source) → id < s.id → delete_source id (s ∷ []) ≡ s ∷ []
unfolding delete_source
delete-other id s h =
    if_cases (λ x. x ≡ s ∷ []) (s.id == id) [] (s ∷ []) (λ f. absurd (ground arith)) (λ _. refl)

previous-++ :
    (c : Option ℕ) (xs ys : List Source)
    → delete_previous c (xs ++ ys) ≡ delete_previous c xs ++ delete_previous c ys
unfolding delete_previous
previous-++ none xs ys = refl
previous-++ (some k) xs ys = delete-++ k xs ys

previous-other :
    (c : Option ℕ) (n : ℕ) (s : Source) → Under c n → n < s.id → delete_previous c (s ∷ []) ≡ s ∷ []
unfolding delete_previous
previous-other none n s u h = refl
previous-other (some k) n s u h = delete-other k s (omega arith)

-- The sources of a tidy state: a later one is not among them, and that of the disk is all.
delete-later :
    (c : Option ℕ) (ss : List Source) (n id : ℕ)
    → Only c ss
    → Under c n
    → n < id
    → delete_source id ss ≡ ss
unfolding delete_source
delete-later c [] n id o u h = refl
delete-later none (s ∷ []) n id o u h = cc
delete-later (some k) (s ∷ []) n id o u h =
    if_cases (λ x. x ≡ s ∷ []) (s.id == id) [] (s ∷ []) (λ f. absurd (ground arith)) (λ _. refl)
delete-later c (s ∷ t ∷ ss) n id o u h = absurd o

previous-all : (c : Option ℕ) (ss : List Source) → Only c ss → delete_previous c ss ≡ []
unfolding delete_source delete_previous
previous-all none [] o = refl
previous-all (some k) [] o = refl
previous-all none (s ∷ []) o = cc
previous-all (some k) (s ∷ []) o =
    if_cases (λ x. x ≡ []) (s.id == k) [] (s ∷ []) (λ _. refl) (λ f. absurd (ground arith))
previous-all c (s ∷ t ∷ ss) o = absurd o

abbrev pub added : ℕ → Bool → List Source
added n b = record { id = n; is_remote = b } ∷ []

removed_eq :
    (c : Option ℕ) (ss : List Source) (n : ℕ) (b : Bool)
    → Only c ss
    → Under c n
    → delete_source (n + 1) (ss ++ added (n + 1) b) ≡ ss
removed_eq c ss n b o u =
    delete-++ (n + 1) ss (added (n + 1) b)
    ∙ rw
        (
          delete-later c ss n (n + 1) o u (omega arith),
          delete-same (record { id = n + 1; is_remote = b }),
        )
        (append-nil ss)

pub replaced_eq :
    (c : Option ℕ) (ss : List Source) (n : ℕ) (b : Bool)
    → Only c ss
    → Under c n
    → delete_previous c (ss ++ added (n + 1) b) ≡ added (n + 1) b
replaced_eq c ss n b o u =
    previous-++ c ss (added (n + 1) b)
    ∙ rw (previous-all c ss o)
        (previous-other c n (record { id = n + 1; is_remote = b }) u (omega arith))

module _ {v c : Option ℕ} {ss : List Source} {n : ℕ} (h : Tidy v c ss n) where
  -- A source that was added is removed again.
  pub Tidy-removed : (b : Bool) → Tidy v c (delete_source (n + 1) (ss ++ added (n + 1) b)) (n + 1)
  Tidy-removed b = record {
    only = subst (Only c) (sym (removed_eq c ss n b h.only h.bound)) h.only;
    bound = Under-suc c n h.bound;
    closed = h.closed;
  }

  -- It takes the place of the one before.
  pub Tidy-replaced :
      (b : Bool)
      → v ≢ none
      → Tidy v (some (n + 1)) (delete_previous c (ss ++ added (n + 1) b)) (n + 1)
  Tidy-replaced b e = record {
    only = subst (Only (some (n + 1))) (sym (replaced_eq c ss n b h.only h.bound)) (ground arith);
    bound = omega arith;
    closed = λ f. absurd (e f);
  }

  -- And then it is removed too, while the disk goes on naming it.
  pub Tidy-lost :
      (b : Bool)
      → v ≢ none
      → Tidy v
          (some (n + 1))
          (delete_source (n + 1) (delete_previous c (ss ++ added (n + 1) b)))
          (n + 1)
  Tidy-lost b e = record {
    only =
        subst (Only (some (n + 1)))
          (sym (
            ap (delete_source (n + 1)) (replaced_eq c ss n b h.only h.bound)
            ∙ delete-same (record { id = n + 1; is_remote = b })))
          tt;
    bound = omega arith;
    closed = λ f. absurd (e f);
  }

  -- Nothing is open any more.
  pub Tidy-closed :
      v ≡ none → (b : Bool) → Tidy none none (delete_source (n + 1) (ss ++ added (n + 1) b)) (n + 1)
  Tidy-closed e b = record {
    only =
        subst (λ o. Only o (delete_source (n + 1) (ss ++ added (n + 1) b))) (h.closed e)
          (Tidy-removed b).only;
    bound = tt;
    closed = λ f. refl;
  }

  -- The source of a file goes after the disk was built from it, or was not.
  pub Tidy-built :
      (b d : Bool)
      → v ≢ none
      → Tidy v
          (some (n + 1 + 1))
          (delete_source
            (n + 1)
            (delete_previous c ((ss ++ added (n + 1) b) ++ added (n + 1 + 1) d)))
          (n + 1 + 1)
  Tidy-built b d e = record {
    only = subst (Only (some (n + 1 + 1))) (sym built_eq) (ground arith);
    bound = omega arith;
    closed = λ f. absurd (e f);
  }
    where
      built_eq :
          delete_source (n + 1) (delete_previous c ((ss ++ added (n + 1) b) ++ added (n + 1 + 1) d))
          ≡ added (n + 1 + 1) d
      built_eq =
          ap (delete_source (n + 1)) (
            previous-++ c (ss ++ added (n + 1) b) (added (n + 1 + 1) d)
            ∙ rw
                (
                  replaced_eq c ss n b h.only h.bound,
                  previous-other c n (record { id = n + 1 + 1; is_remote = d }) h.bound
                      (omega arith),
                )
                refl)
          ∙ delete-++ (n + 1) (added (n + 1) b) (added (n + 1 + 1) d)
          ∙ rw
              (
                delete-same (record { id = n + 1; is_remote = b }),
                delete-other (n + 1) (record { id = n + 1 + 1; is_remote = d }) (omega arith),
              )
              refl

  pub Tidy-unbuilt :
      (b d : Bool)
      → Tidy v c
          (delete_source
            (n + 1)
            (delete_source (n + 1 + 1) ((ss ++ added (n + 1) b) ++ added (n + 1 + 1) d)))
          (n + 1 + 1)
  Tidy-unbuilt b d = record {
    only = subst (Only c) (sym unbuilt_eq) h.only;
    bound = Under-suc c (n + 1) (Under-suc c n h.bound);
    closed = h.closed;
  }
    where
      unbuilt_eq :
          delete_source
            (n + 1)
            (delete_source (n + 1 + 1) ((ss ++ added (n + 1) b) ++ added (n + 1 + 1) d))
          ≡ ss
      unbuilt_eq =
          ap (delete_source (n + 1)) (
            delete-++ (n + 1 + 1) (ss ++ added (n + 1) b) (added (n + 1 + 1) d)
            ∙ rw
                (
                  delete-same (record { id = n + 1 + 1; is_remote = d }),
                  delete-++ (n + 1 + 1) ss (added (n + 1) b),
                  delete-later c ss n (n + 1 + 1) h.only h.bound (omega arith),
                  lesser b,
                )
                (append-nil (ss ++ added (n + 1) b)))
          ∙ removed_eq c ss n b h.only h.bound
        where
          lesser : (b : Bool) → delete_source (n + 1 + 1) (added (n + 1) b) ≡ added (n + 1) b
          lesser b =
              delete-later (some (n + 1)) (added (n + 1) b) (n + 1) (n + 1 + 1) (ground arith)
                (omega arith) (omega arith)

  -- Nothing was open: it is the only one.
  pub Tidy-opened :
      (b : Bool) (k : ℕ) → v ≡ none → Tidy (some k) (some (n + 1)) (ss ++ added (n + 1) b) (n + 1)
  Tidy-opened b k e = record {
    only = alone c ss (h.closed e) h.only;
    bound = omega arith;
    closed = λ f. cc;
  }
    where
      alone :
          (c : Option ℕ) (ss : List Source)
          → c ≡ none
          → Only c ss
          → Only (some (n + 1)) (ss ++ added (n + 1) b)
      alone c [] f o = ground arith
      alone none (s ∷ []) f o = cc
      alone (some k) (s ∷ []) f o = cc
      alone c (s ∷ t ∷ ss) f o = absurd o
