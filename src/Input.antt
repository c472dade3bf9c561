-- ===== src/Input.antt =====
-- src/browser/direct-pointer.js and src/browser/vm-input.js: how pointer events of the page become
-- the mouse of the guest. What both send is a `Call`, and what the guest holds follows from those.
pub mod Pointer
pub mod Touch
use my.Base.{
  ℕ, ◌+◌, ◌*◌, ◌≡◌, refl, Bool, true, false, not, ◌&&◌, ◌||◌, Option, none, some, List, [], ◌∷◌,
  ◌++◌, ◌==◌, if◌then◌else◌, if_cases, sym, ◌∙◌,
}
use my.Base.Int.{ℤ}

-- Left, middle and right.
pub record Buttons : Type 0 where
  pub left : Bool
  pub middle : Bool
  pub right : Bool

abbrev pub up : Buttons
up = record { left = false; middle = false; right = false }

abbrev pub left_down : Buttons
left_down = record { left = true; middle = false; right = false }

-- `buttons.some(Boolean)`
abbrev pub pressed : Buttons → Bool
pressed b = b.left || b.middle || b.right

-- A point of the surface, with the surface's size.
pub record Point : Type 0 where
  pub x : ℕ
  pub y : ℕ
  pub width : ℕ
  pub height : ℕ

-- What is sent on the bus of a machine.
pub data Signal : Type 0 where
  pointer_lock mouse_enabled : Bool → Signal
  absolute : Point → Signal
  delta wheel : ℤ → ℤ → Signal
  click : Buttons → Signal

pub data Call : Type 0 where
  bus : ℕ → Signal → Call
  focus exit_pointer_lock : Call
  set_capture release_capture : ℕ → Call

-- What the page and the emulator are when an event arrives: the machine, whether it runs, whether
-- the pointer is locked, the pointer that the display has captured, whether the page is hidden, and
-- the rectangle that the guest's screen takes.
pub record Rect : Type 0 where
  pub left : ℤ
  pub top : ℤ
  pub width : ℕ
  pub height : ℕ

pub record Host : Type 0 where
  pub machine : Option ℕ
  pub is_running : Bool
  pub locked : Bool
  pub captured : Option ℕ
  pub hidden : Bool
  pub emu_enabled : Option Bool
  pub surface : Option Rect

-- The fields of a pointer event that the handlers read, and the time that it comes at.
pub record PointerEvent : Type 0 where
  pub id : ℕ
  pub is_mouse : Bool
  pub is_primary : Bool
  pub button : ℕ
  pub buttons : ℕ
  pub x : ℤ
  pub y : ℤ
  pub now : ℕ

abbrev pub is_some_id : Option ℕ → ℕ → Bool
is_some_id none m = false
is_some_id (some k) m = k == m

-- The buttons that machine `m` was told of last, after `b`.
unfoldable pub guest : ℕ → Buttons → List Call → Buttons
guest m b [] = b
guest m b (bus k (click c) ∷ cs) =
    let rest = guest m c cs in let other = guest m b cs in if k == m then rest else other
guest m b (_ ∷ cs) = guest m b cs

pub guest-++ :
    (m : ℕ) (b : Buttons) (cs ds : List Call) → guest m b (cs ++ ds) ≡ guest m (guest m b cs) ds
unfolding guest
guest-++ m b [] ds = refl
guest-++ m b (bus k (click c) ∷ cs) ds =
    if_cases (λ t. (if k == m then guest m c (cs ++ ds) else guest m b (cs ++ ds)) ≡ guest m t ds)
      (k == m) _ _ (λ e. rw e (guest-++ m c cs ds)) (λ e. rw e (guest-++ m b cs ds))
guest-++ m b (bus k (pointer_lock l) ∷ cs) ds = guest-++ m b cs ds
guest-++ m b (bus k (mouse_enabled l) ∷ cs) ds = guest-++ m b cs ds
guest-++ m b (bus k (absolute p) ∷ cs) ds = guest-++ m b cs ds
guest-++ m b (bus k (delta x y) ∷ cs) ds = guest-++ m b cs ds
guest-++ m b (bus k (wheel x y) ∷ cs) ds = guest-++ m b cs ds
guest-++ m b (focus ∷ cs) ds = guest-++ m b cs ds
guest-++ m b (exit_pointer_lock ∷ cs) ds = guest-++ m b cs ds
guest-++ m b (set_capture i ∷ cs) ds = guest-++ m b cs ds
guest-++ m b (release_capture i ∷ cs) ds = guest-++ m b cs ds

-- Machine `vm` holds `b`, and any other machine nothing.
abbrev pub Holds : Option ℕ → Buttons → List Call → Type 0
Holds vm b cs = (m : ℕ) → guest m up cs ≡ (if is_some_id vm m then b else up)

abbrev pub is_click : Call → Bool
is_click (bus k (click b)) = true
is_click _ = false

guest-silent : (m : ℕ) (b : Buttons) (c : Call) → is_click c ≡ false → guest m b (c ∷ []) ≡ b
unfolding guest
guest-silent m b (bus k (click x)) e = cc
guest-silent m b (bus k (pointer_lock l)) e = refl
guest-silent m b (bus k (mouse_enabled l)) e = refl
guest-silent m b (bus k (absolute p)) e = refl
guest-silent m b (bus k (delta x y)) e = refl
guest-silent m b (bus k (wheel x y)) e = refl
guest-silent m b focus e = refl
guest-silent m b exit_pointer_lock e = refl
guest-silent m b (set_capture i) e = refl
guest-silent m b (release_capture i) e = refl

pub Holds-silent :
    (vm : Option ℕ) (b : Buttons) (cs : List Call) (c : Call)
    → is_click c ≡ false
    → Holds vm b cs
    → Holds vm b (cs ++ c ∷ [])
Holds-silent vm b cs c e h m = guest-++ m up cs (c ∷ []) ∙ guest-silent m (guest m up cs) c e ∙ h m

pub Holds-click :
    (k : ℕ) (b c : Buttons) (cs : List Call)
    → Holds (some k) b cs
    → Holds (some k) c (cs ++ bus k (click c) ∷ [])
unfolding guest
Holds-click k b c cs h m =
    guest-++ m up cs (bus k (click c) ∷ [])
    ∙ if_cases (λ t. t ≡ (if k == m then c else up)) (k == m) c (guest m up cs) (λ e. rw e refl)
        (λ e. h m ∙ rw e refl)

-- With nothing held it does not matter whose machine it is.
pub Holds-other : (v w : Option ℕ) (cs : List Call) → Holds v up cs → Holds w up cs
Holds-other v w cs h m = h m ∙ both (is_some_id v m) ∙ sym (both (is_some_id w m))
  where
    both : (b : Bool) → (if b then up else up) ≡ up
    both true = refl
    both false = refl
