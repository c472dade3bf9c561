-- ===== src/Startup/Progress.antt =====
-- startup-prefetch.js: the numbers that the progress bar of the host is given.
use mathlib.Core.Path.{subst, subst₂}
use my.Base.{
  ℕ, ◌+◌, ◌≤◌, ◌≡◌, refl, sym, Bool, false, Option, none, some, List, [], ◌∷◌, ◌++◌, if_cases, All,
  All-append, arith,
}
use my.Base.Text.{Text}
use my.Startup.Target.{Options}
use my.Startup.Job.{
  Outcome, complete, Call, recover, prefetch, on_progress, on_outcome, Job, Event, finish, run,
  create, shown, size_clash,
}
use my.Startup.Keeps.{Kept, IsReady}
use my.Startup.Runs.{run-keeps}

-- A report of `c` of `t` bytes may be followed by this one.
abbrev pub Follows : ℕ → ℕ → Call → Type 0
Follows c t (on_progress d u) = (c ≤ d) × (u ≡ t)
Follows c t _ = Unit

-- Each report is within its total, and those that follow count from there up, to the same total.
abbrev pub IsRising : List Call → Type 0
IsRising [] = Unit
IsRising (on_progress c t ∷ cs) = (c ≤ t) × All (Follows c t) cs × IsRising cs
IsRising (_ ∷ cs) = IsRising cs

-- `d` of `u` bytes, once `c` bytes of the totals `s` and `p` have been shown.
Within : ℕ → Option ℕ → Option ℕ → ℕ → ℕ → Type 0
Within c (some s) (some p) d u = (d ≤ c) × (u ≡ s + p)
Within c (some s) none d u = ⊥
Within c none p d u = ⊥

abbrev Below : ℕ → Option ℕ → Option ℕ → Call → Type 0
Below c s p (on_progress d u) = Within c s p d u
Below c s p _ = Unit

Capped : ℕ → Option ℕ → Option ℕ → Type 0
Capped c (some s) (some p) = c ≤ s + p
Capped c (some s) none = c ≡ 0
Capped c none p = c ≡ 0

record IsAhead (j : Job) : Type 0 where
  rising : IsRising j.calls
  below : All (Below j.last_completed j.state_total j.profile_total) j.calls
  capped : Capped j.last_completed j.state_total j.profile_total

Below-map :
    (c d : ℕ) (s t p q : Option ℕ)
    → ((e u : ℕ) → Within c s p e u → Within d t q e u)
    → (cs : List Call) → All (Below c s p) cs
    → All (Below d t q) cs
Below-map c d s t p q f [] h = tt
Below-map c d s t p q f (on_progress e u ∷ cs) h = (f e u h.0, Below-map c d s t p q f cs h.1)
Below-map c d s t p q f (on_outcome o n ∷ cs) h = (tt, Below-map c d s t p q f cs h.1)
Below-map c d s t p q f (recover r ∷ cs) h = (tt, Below-map c d s t p q f cs h.1)
Below-map c d s t p q f (prefetch n es ∷ cs) h = (tt, Below-map c d s t p q f cs h.1)

Within-state :
    (c n : ℕ) (t p : Option ℕ)
    → size_clash t n ≡ false
    → ((e u : ℕ) → Within c t p e u → Within c (some n) p e u)
      × (Capped c t p → Capped c (some n) p)
unfolding Within Capped
Within-state c n (some t) p f =
    let same : t ≡ n = ground arith in
    (λ e u. subst (λ x. Within c (some x) p e u) same, subst (λ x. Capped c (some x) p) same)
Within-state c n none (some p) f = (λ e u. absurd, λ h. omega arith)
Within-state c n none none f = (λ e u. absurd, λ h. h)

Within-total :
    (c n : ℕ) (s t : Option ℕ)
    → size_clash t n ≡ false
    → ((e u : ℕ) → Within c s t e u → Within c s (some n) e u)
      × (Capped c s t → Capped c s (some n))
unfolding Within Capped
Within-total c n s (some t) f =
    let same : t ≡ n = ground arith in
    (λ e u. subst (λ x. Within c s (some x) e u) same, subst (λ x. Capped c s (some x)) same)
Within-total c n (some s) none f = (λ e u. absurd, λ h. omega arith)
Within-total c n none none f = (λ e u. absurd, λ h. h)

-- A report at the end of those that are below it.
IsRising-last :
    (c s p : ℕ) (cs : List Call)
    → c ≤ s + p
    → All (Below c (some s) (some p)) cs
    → IsRising cs
    → IsRising (cs ++ on_progress c (s + p) ∷ [])
unfolding Within
IsRising-last c s p [] l b r = (l, tt, tt)
IsRising-last c s p (on_progress e u ∷ cs) l b r = (
  r.0,
  All-append (Follows e u) cs (on_progress c (s + p) ∷ []) r.1 ((b.0.0, sym b.0.1), tt),
  IsRising-last c s p cs l b.1 r.2,
)
IsRising-last c s p (on_outcome o n ∷ cs) l b r = IsRising-last c s p cs l b.1 r
IsRising-last c s p (recover q ∷ cs) l b r = IsRising-last c s p cs l b.1 r
IsRising-last c s p (prefetch n es ∷ cs) l b r = IsRising-last c s p cs l b.1 r

-- A call that is no report.
record Silent (x : Call) : Type 0 where
  follows : (c t : ℕ) → Follows c t x
  alone : IsRising (x ∷ [])
  below : (c : ℕ) (s p : Option ℕ) → Below c s p x

IsRising-Silent : (cs : List Call) (x : Call) → Silent x → IsRising cs → IsRising (cs ++ x ∷ [])
IsRising-Silent [] x i r = i.alone
IsRising-Silent (on_progress e u ∷ cs) x i r =
    (r.0, All-append (Follows e u) cs (x ∷ []) r.1 (i.follows e u, tt), IsRising-Silent cs x i r.2)
IsRising-Silent (on_outcome o n ∷ cs) x i r = IsRising-Silent cs x i r
IsRising-Silent (recover q ∷ cs) x i r = IsRising-Silent cs x i r
IsRising-Silent (prefetch n es ∷ cs) x i r = IsRising-Silent cs x i r

Silent-IsAhead :
    (j k : Job) (x : Call)
    → Silent x
    → k.calls ≡ j.calls ++ x ∷ []
    → k.last_completed ≡ j.last_completed
    → k.state_total ≡ j.state_total
    → k.profile_total ≡ j.profile_total
    → IsAhead j
    → IsAhead k
Silent-IsAhead j k x i c l s p h = record {
  rising = subst IsRising (sym c) (IsRising-Silent j.calls x i h.rising);
  below = rw c (
      rw l (
        rw s (
          rw p (
            All-append (Below j.last_completed j.state_total j.profile_total) j.calls (x ∷ [])
              h.below (i.below j.last_completed j.state_total j.profile_total, tt)))));
  capped = rw l (rw s (rw p h.capped));
}

finish-IsAhead :
    (o : Outcome) (j : Job) → (o ≡ complete → IsReady j) → IsAhead j → IsAhead (finish o j)
unfolding finish
finish-IsAhead o j r h =
    if_cases IsAhead j.settled _ _ (λ e. h)
      (λ e.
        Silent-IsAhead j _ (on_outcome o j.attempts)
          (record { follows = λ c t. tt; alone = tt; below = λ c s p. tt }) refl refl refl refl h)

same :
    (j k : Job)
    → k.calls ≡ j.calls
    → k.last_completed ≡ j.last_completed
    → k.state_total ≡ j.state_total
    → k.profile_total ≡ j.profile_total
    → IsAhead j
    → IsAhead k
same j k c l s p h = record {
  rising = rw c h.rising;
  below = rw c (rw l (rw s (rw p h.below)));
  capped = rw l (rw s (rw p h.capped));
}

emit-IsAhead :
    (s p : ℕ) (j : Job)
    → j.state_total ≡ some s
    → j.profile_total ≡ some p
    → IsAhead j
    → IsAhead (record j {
      last_completed = shown (s + p) j;
      calls = j.calls ++ on_progress (shown (s + p) j) (s + p) ∷ [];
    })
unfolding Within Capped
emit-IsAhead s p j e f h =
    let c = shown (s + p) j in
    let cap : j.last_completed ≤ s + p = subst₂ (λ x y. Capped j.last_completed x y) e f h.capped in
    let b : All (Below j.last_completed (some s) (some p)) j.calls =
      subst₂ (λ x y. All (Below j.last_completed x y) j.calls) e f h.below in
    let b' : All (Below c (some s) (some p)) j.calls =
      Below-map j.last_completed c (some s) (some s) (some p) (some p)
        (λ d u w. (omega (arith, w.0), w.1)) j.calls b in
    record {
      rising = IsRising-last c s p j.calls (omega arith) b' h.rising;
      below =
          subst₂ (λ x y. All (Below c x y) (j.calls ++ on_progress c (s + p) ∷ [])) (sym e) (sym f)
            (All-append (Below c (some s) (some p)) j.calls (on_progress c (s + p) ∷ []) b'
              ((omega arith, refl), tt));
      capped = subst₂ (λ x y. Capped c x y) (sym e) (sym f) (omega arith);
    }

IsAhead-kept : Kept (λ e. Unit) IsAhead
IsAhead-kept = record {
  phase = λ q j w h. same j _ refl refl refl refl h;
  finish = finish-IsAhead;
  origin = λ o j c h. same j _ refl refl refl refl h;
  commit = λ j s h. same j _ refl refl refl refl h;
  emit = λ s p j c e f h. emit-IsAhead s p j e f h;
  state = λ s c j f h.
      let w = Within-state j.last_completed s j.state_total j.profile_total f in
      record {
        rising = h.rising;
        below = Below-map _ _ _ _ _ _ w.0 j.calls h.below;
        capped = w.1 h.capped;
      };
  share = λ c j h. same j _ refl refl refl refl h;
  first = λ j l h. same j _ refl refl refl refl h;
  retry = λ p j l h.
      Silent-IsAhead j _ (recover p)
        (record { follows = λ c t. tt; alone = tt; below = λ c s p. tt }) refl refl refl refl h;
  profile = λ p j c h. same j _ refl refl refl refl h;
  total = λ n j f t h.
      let w = Within-total j.last_completed n j.state_total j.profile_total f in
      record {
        rising = h.rising;
        below = Below-map _ _ _ _ _ _ w.0 j.calls h.below;
        capped = w.1 h.capped;
      };
  prefetch = λ es j w h.
      Silent-IsAhead j _ (prefetch j.attempts es)
        (record { follows = λ c t. tt; alone = tt; below = λ c s p. tt }) refl refl refl refl h;
  download = λ d n j c s e h. same j _ refl refl refl refl h;
}

-- Whatever happens to a job, the progress that it reports never falls, never exceeds its total, and
-- has the same total from the first report to the last.
pub progress_rises :
    (options : Options) (disk_size : ℕ) (hash : Text) (has_profile : Bool) (es : List Event)
    → IsRising (run (create options disk_size hash has_profile) es).calls
unfolding Capped
progress_rises options disk_size hash has_profile es =
    let h : IsAhead (run (create options disk_size hash has_profile) es) =
      run-keeps (λ e. Unit) IsAhead IsAhead-kept (create options disk_size hash has_profile) es
        (λ e o. tt) (unfold create in record { rising = tt; below = tt; capped = refl }) in
    h.rising
