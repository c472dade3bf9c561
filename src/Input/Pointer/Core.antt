-- ===== src/Input/Pointer/Core.antt =====
-- direct-pointer.js: what each helper of the handlers keeps.
use mathlib.Core.Path.{subst}
use my.Base.{
  ℕ, ◌≡◌, refl, sym, ◌∙◌, Bool, true, false, ◌||◌, Option, none, some, [], ◌∷◌, ◌++◌, if◌then◌else◌,
  if_cases,
}
use my.Input.{
  Buttons, up, pressed, Point, Signal, pointer_lock, absolute, click, Call, bus, focus,
  exit_pointer_lock, set_capture, release_capture, is_some_id, is_click, Holds, Holds-silent,
  Holds-click,
}
use my.Input.Pointer.{
  Gesture, touch, mouse, Pointer, gesture_id, send_to, send, drop_capture, send_up, release,
  move_to, unlocked, grab, press, release_touch,
}

abbrev pub is_mouse_gesture : Option Gesture → Bool
is_mouse_gesture (some (mouse id)) = true
is_mouse_gesture _ = false

-- What the handlers keep while direct input is on (`e` is true) or off.
pub record Core (e : Bool) (p : Pointer) : Type 0 where
  pub holds : Holds p.vm p.buttons p.calls
  pub idle : is_mouse_gesture p.gesture ≡ false → p.buttons ≡ up
  pub on : p.enabled ≡ e

abbrev pub Live : Pointer → Type 0
Live = Core true

pub send_to-Core :
    (e : Bool) (v : Option ℕ) (s : Signal) (p : Pointer)
    → ((k : ℕ) → is_click (bus k s) ≡ false)
    → Core e p
    → Core e (send_to v s p)
unfolding send_to
send_to-Core e none s p q h = h
send_to-Core e (some m) s p q h = record {
  holds = Holds-silent p.vm p.buttons p.calls (bus m s) (q m) h.holds;
  idle = h.idle;
  on = h.on;
}

called-Core :
    (e : Bool) (c : Call) (p : Pointer)
    → is_click c ≡ false
    → Core e p
    → Core e (record p { calls = p.calls ++ c ∷ [] })
called-Core e c p q h = record {
  holds = Holds-silent p.vm p.buttons p.calls c q h.holds;
  idle = h.idle;
  on = h.on;
}

-- A click sent to the machine of the gesture.
pub send-Holds :
    (v : Option ℕ) (b c : Buttons) (p : Pointer)
    → v ≡ p.vm
    → Holds v b p.calls
    → Holds v c (send_to v (click c) p).calls
unfolding send_to
send-Holds none b c p e h = h
send-Holds (some m) b c p e h = Holds-click m b c p.calls h

pub send_to-vm :
    (v : Option ℕ) (s : Signal) (p : Pointer)
    → ((send_to v s p).vm ≡ p.vm)
      × ((send_to v s p).enabled ≡ p.enabled)
      × ((send_to v s p).gesture ≡ p.gesture)
unfolding send_to
send_to-vm none s p = (refl, refl, refl)
send_to-vm (some m) s p = (refl, refl, refl)

pub send_to-buttons :
    (v : Option ℕ) (s : Signal) (p : Pointer) → (send_to v s p).buttons ≡ p.buttons
unfolding send_to
send_to-buttons none s p = refl
send_to-buttons (some m) s p = refl

pub drop_capture-buttons :
    (g : Option Gesture) (p : Pointer) → (drop_capture g p).buttons ≡ p.buttons
unfolding drop_capture
drop_capture-buttons none p = refl
drop_capture-buttons (some g) p =
    if_cases (λ (k : Pointer). k.buttons ≡ p.buttons) (is_some_id p.host.captured (gesture_id g)) _
      _ (λ _. refl) (λ _. refl)

pub press-Core : (e : Bool) (b : Buttons) (id : ℕ) (p : Pointer) → Core e p → Core e (press b id p)
unfolding press
press-Core e b id p h =
    let same = send_to-vm p.vm (click b) p in
    record {
      holds =
          subst (λ v. Holds v b (send_to p.vm (click b) p).calls) (sym same.0)
            (send-Holds p.vm p.buttons b p refl h.holds);
      idle = λ f. cc;
      on = same.1 ∙ h.on;
    }

drop_capture-Core :
    (e : Bool) (g : Option Gesture) (p : Pointer) → Core e p → Core e (drop_capture g p)
unfolding drop_capture
drop_capture-Core e none p h = h
drop_capture-Core e (some g) p h =
    if_cases (Core e) (is_some_id p.host.captured (gesture_id g)) _ _
      (λ _. record {
        holds = Holds-silent p.vm p.buttons p.calls (release_capture (gesture_id g)) refl h.holds;
        idle = h.idle;
        on = h.on;
      })
      (λ _. h)

drop_capture-same :
    (g : Option Gesture) (p : Pointer)
    → ((drop_capture g p).vm ≡ p.vm) × ((drop_capture g p).gesture ≡ p.gesture)
unfolding drop_capture
drop_capture-same none p = (refl, refl)
drop_capture-same (some g) p =
    if_cases (λ (k : Pointer). (k.vm ≡ p.vm) × (k.gesture ≡ p.gesture))
      (is_some_id p.host.captured (gesture_id g)) _ _ (λ _. (refl, refl)) (λ _. (refl, refl))

unpressed_of :
    (l m r : Bool) → (l || m || r) ≡ false → record { left = l; middle = m; right = r } ≡ up
unpressed_of false false false h = refl
unpressed_of true m r h = cc
unpressed_of false true r h = cc
unpressed_of false false true h = cc

unpressed : (b : Buttons) → pressed b ≡ false → b ≡ up
unpressed b h = unpressed_of b.left b.middle b.right h

record Upped (p k : Pointer) : Type 0 where
  holds : Holds p.vm up k.calls
  pub vm : k.vm ≡ p.vm
  pub enabled : k.enabled ≡ p.enabled
  pub gesture : k.gesture ≡ p.gesture

send_up-Upped : (p : Pointer) → Holds p.vm p.buttons p.calls → Upped p (send_up p)
send_up-Upped p h =
    if_cases (Upped p) (pressed p.buttons) (send (click up) p) p
      (λ _.
        let same = send_to-vm p.vm (click up) p in
        record {
          holds = send-Holds p.vm p.buttons up p refl h;
          vm = same.0;
          enabled = same.1;
          gesture = same.2;
        })
      (λ e. record {
        holds = subst (λ b. Holds p.vm b p.calls) (unpressed p.buttons e) h;
        vm = refl;
        enabled = refl;
        gesture = refl;
      })

released : Pointer → Pointer
released p = record (send_up (record p { gesture = none })) { buttons = up }

released-Core : (e : Bool) (p : Pointer) → Core e p → Core e (released p)
unfolding released
released-Core e p h =
    let u = send_up-Upped (record p { gesture = none }) h.holds in
    record {
      holds = subst (λ v. Holds v up (released p).calls) (sym u.vm) u.holds;
      idle = λ _. refl;
      on = u.enabled ∙ h.on;
    }

pub release-Core : (e : Bool) (p : Pointer) → Core e p → Core e (release p)
unfolding release released
release-Core e p h = drop_capture-Core e p.gesture (released p) (released-Core e p h)

pub release-same :
    (p : Pointer)
    → Holds p.vm p.buttons p.calls
    → ((release p).vm ≡ p.vm) × ((release p).gesture ≡ none)
unfolding release released
release-same p h =
    let u = send_up-Upped (record p { gesture = none }) h in
    let d = drop_capture-same p.gesture (released p) in (d.0 ∙ u.vm, d.1 ∙ u.gesture)

pub move_to-Core : (e : Bool) (o : Option Point) (p : Pointer) → Core e p → Core e (move_to o p)
unfolding move_to
move_to-Core e none p h = h
move_to-Core e (some point) p h =
    send_to-Core e _ (absolute point) _ (λ k. refl)
      (send_to-Core e p.vm (pointer_lock false) p (λ k. refl) h)

pub grab-Core : (e : Bool) (id : ℕ) (p : Pointer) → Core e p → Core e (grab id p)
unfolding grab
grab-Core e id p h = record {
  holds =
      Holds-silent p.vm p.buttons _ (set_capture id) refl
        (Holds-silent p.vm p.buttons p.calls focus refl h.holds);
  idle = h.idle;
  on = h.on;
}

pub unlocked-Core : (e : Bool) (p : Pointer) → Core e p → Core e (unlocked p)
unfolding unlocked
unlocked-Core e p h =
    let p' : Pointer =
      if p.host.locked then record p { calls = p.calls ++ exit_pointer_lock ∷ [] } else p in
    let h' : Core e p' =
      if_cases (Core e) p.host.locked _ _ (λ _. called-Core e exit_pointer_lock p refl h)
        (λ _. h) in
    if_cases (Core e) p.enabled _ _
      (λ _. send_to-Core e p'.vm (pointer_lock false) p' (λ k. refl) h') (λ _. h)

pub release_touch-Core :
    (e : Bool) (g : Option Gesture) (p : Pointer) → Core e p → Core e (release_touch g p)
unfolding release_touch
release_touch-Core e (some (touch id x y c)) p h = release-Core e p h
release_touch-Core e (some (mouse id)) p h = h
release_touch-Core e none p h = h
