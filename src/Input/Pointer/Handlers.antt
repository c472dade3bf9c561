-- ===== src/Input/Pointer/Handlers.antt =====
-- direct-pointer.js: each handler keeps it too.
use mathlib.Core.Path.{subst, subst₂}
use my.Base.{
  ℕ, ◌≡◌, refl, sym, ap, ◌∙◌, Bool, true, false, not, ◌&&◌, ◌||◌, Option, none, some, ltb, ◌==◌,
  if◌then◌else◌, if_cases, arith,
}
use my.Base.Int.{ℤ}
use my.Input.{
  Buttons, up, left_down, pressed, Point, pointer_lock, absolute, wheel, click, PointerEvent, Holds,
}
use my.Input.Pointer.{
  Gesture, touch, mouse, Pointer, Event, down, down_elsewhere, move, lift, cancel, wheel_by, blur,
  visibility_change, lock_change, activate, deactivate, release_all, destroy, host_change, has_id,
  is_some, position, send, running, release, move_to, mask, same_buttons, down_touch, down_mouse,
  on_down, on_document_down, is_far, drag, move_gesture, on_move, tap, lift_gesture, on_up,
  on_cancel, turned, scroll, on_wheel, dispatch,
}
use my.Input.Pointer.Core.{
  is_mouse_gesture, Core, send_to-Core, send-Holds, send_to-vm, send_to-buttons,
  drop_capture-buttons, press-Core, release-Core, move_to-Core, grab-Core, unlocked-Core,
  release_touch-Core,
}

not_mouse :
    (p : Pointer) (e : Bool) (g : Option Gesture)
    → is_some g ≡ false
    → Core e p
    → p.gesture ≡ g
    → p.buttons ≡ up
not_mouse p e none f h s = h.idle (ap is_mouse_gesture s)
not_mouse p e (some g) f h s = cc

down_touch-Core :
    (b : Bool) (o : Option Point) (e : PointerEvent) (p : Pointer)
    → Core b p
    → Core b (down_touch o e p)
unfolding down_touch
down_touch-Core b o e p h =
    if_cases (Core b) (is_some p.gesture || not e.is_primary) _ _ (λ _. release-Core b p h)
      (λ f.
        if_cases (Core b) (is_some o) _ _
          (λ _. grab-Core b e.id _ (record {
            holds = h.holds;
            idle = λ _. not_mouse p b p.gesture (ground arith) h refl;
            on = h.on;
          }))
          (λ _. h))

down_mouse-Core :
    (b : Bool) (o : Option Point) (e : PointerEvent) (p : Pointer)
    → Core b p
    → Core b (down_mouse o e p)
unfolding down_mouse
down_mouse-Core b none e p h = h
down_mouse-Core b (some point) e p h =
    if_cases (Core b) (ltb 2 e.button) _ _ (λ _. h)
      (λ _. grab-Core b e.id _ (
        press-Core b (mask e.buttons) e.id _
          (move_to-Core b (some point) _ (release_touch-Core b p.gesture p h))))

on_down-Core : (b : Bool) (e : PointerEvent) (p : Pointer) → Core b p → Core b (on_down e p)
unfolding on_down
on_down-Core b e p h =
    if_cases (Core b) (not p.enabled || not (running p) || p.host.locked) _ _ (λ _. h)
      (λ _.
        if_cases (Core b) e.is_mouse _ _ (λ _. down_mouse-Core b (position e false p) e p h)
          (λ _. down_touch-Core b (position e false p) e p h))

on_document_down-Core :
    (b : Bool) (e : PointerEvent) (p : Pointer) → Core b p → Core b (on_document_down e p)
unfolding on_document_down
on_document_down-Core b e p h =
    if_cases (Core b)
      (p.enabled && is_some p.gesture && not e.is_mouse && not (has_id p.gesture e.id)) _ _
      (λ _. release-Core b p h) (λ _. h)

drag-Core : (b : Bool) (e : PointerEvent) (id : ℕ) (p : Pointer) → Core b p → Core b (drag e id p)
unfolding drag
drag-Core b e id p h =
    let moved = move_to-Core b (position e true p) p h in
    if_cases (Core b) (e.buttons == 0) _ _
      (λ _. move_to-Core b (position e false (release p)) (release p) (release-Core b p h))
      (λ _.
        if_cases (Core b) (same_buttons (mask e.buttons) p.buttons) _ _ (λ _. moved)
          (λ _. press-Core b (mask e.buttons) id _ moved))

move_gesture-Core :
    (b : Bool) (g : Option Gesture) (e : PointerEvent) (p : Pointer)
    → p.gesture ≡ g
    → Core b p
    → Core b (move_gesture g e p)
unfolding move_gesture
move_gesture-Core b (some (touch id x y c)) e p s h =
    if_cases (Core b) (id == e.id && is_far e x y) _ _
      (λ _. record { holds = h.holds; idle = λ _. h.idle (ap is_mouse_gesture s); on = h.on })
      (λ _. h)
move_gesture-Core b (some (mouse id)) e p s h =
    if_cases (Core b) (not e.is_mouse || p.host.locked) _ _ (λ _. h) (λ _. drag-Core b e id p h)
move_gesture-Core b none e p s h =
    if_cases (Core b) (not e.is_mouse || p.host.locked) _ _ (λ _. h)
      (λ _. move_to-Core b (position e false p) p h)

on_move-Core : (b : Bool) (e : PointerEvent) (p : Pointer) → Core b p → Core b (on_move e p)
unfolding on_move
on_move-Core b e p h =
    if_cases (Core b) (not p.enabled) _ _ (λ _. h)
      (λ _.
        if_cases (Core b) (not (running p)) _ _ (λ _. release-Core b p h)
          (λ _. move_gesture-Core b p.gesture e p refl h))

move_to-buttons : (o : Option Point) (p : Pointer) → (move_to o p).buttons ≡ p.buttons
unfolding move_to
move_to-buttons none p = refl
move_to-buttons (some point) p =
    send_to-buttons _ (absolute point) _ ∙ send_to-buttons p.vm (pointer_lock false) p

-- A click that is taken back at once.
clicked-Core :
    (b : Bool) (c : Buttons) (p : Pointer)
    → Core b p
    → p.buttons ≡ up
    → Core b (send (click up) (send (click c) p))
clicked-Core b c p h u =
    let one = send (click c) p in
    let two = send (click up) one in
    let s = send_to-vm p.vm (click c) p in
    let t = send_to-vm one.vm (click up) one in
    let first : Holds one.vm c one.calls =
      subst (λ v. Holds v c one.calls) (sym s.0) (send-Holds p.vm p.buttons c p refl h.holds) in
    let same : two.buttons ≡ up =
      send_to-buttons one.vm (click up) one ∙ send_to-buttons p.vm (click c) p ∙ u in
    record {
      holds =
          subst₂ (λ v d. Holds v d two.calls) (sym t.0) (sym same)
            (send-Holds one.vm c up one refl first);
      idle = λ _. same;
      on = t.1 ∙ s.1 ∙ h.on;
    }

tap-Core :
    (b : Bool) (o : Option Point) (p : Pointer) → Core b p → p.buttons ≡ up → Core b (tap o p)
unfolding tap
tap-Core b none p h u = h
tap-Core b (some point) p h u =
    clicked-Core b left_down (move_to (some point) p) (move_to-Core b (some point) p h)
      (move_to-buttons (some point) p ∙ u)

release-buttons : (p : Pointer) → (release p).buttons ≡ up
unfolding release
release-buttons p = drop_capture-buttons p.gesture _

lift_gesture-Core :
    (b : Bool) (g : Option Gesture) (e : PointerEvent) (p : Pointer)
    → Core b p
    → Core b (lift_gesture g e p)
unfolding lift_gesture
lift_gesture-Core b none e p h = h
lift_gesture-Core b (some (touch id x y c)) e p h =
    if_cases (Core b) (c || is_far e x y) _ _ (λ _. release-Core b p h)
      (λ _. tap-Core b (position e false p) (release p) (release-Core b p h) (release-buttons p))
lift_gesture-Core b (some (mouse id)) e p h =
    let k = press-Core b (mask e.buttons) id _ (move_to-Core b (position e true p) p h) in
    if_cases (Core b) (pressed (mask e.buttons)) _ _ (λ _. k) (λ _. release-Core b _ k)

on_up-Core : (b : Bool) (e : PointerEvent) (p : Pointer) → Core b p → Core b (on_up e p)
unfolding on_up
on_up-Core b e p h =
    if_cases (Core b) (not p.enabled || not (has_id p.gesture e.id)) _ _ (λ _. h)
      (λ _.
        if_cases (Core b) (not (running p)) _ _ (λ _. release-Core b p h)
          (λ _. lift_gesture-Core b p.gesture e p h))

on_cancel-Core : (b : Bool) (id : ℕ) (p : Pointer) → Core b p → Core b (on_cancel id p)
unfolding on_cancel
on_cancel-Core b id p h =
    if_cases (Core b) (p.enabled && has_id p.gesture id) _ _ (λ _. release-Core b p h) (λ _. h)

scroll-Core :
    (b : Bool) (o : Option Point) (dx dy : ℤ) (p : Pointer) → Core b p → Core b (scroll o dx dy p)
unfolding scroll
scroll-Core b none dx dy p h = h
scroll-Core b (some point) dx dy p h =
    send_to-Core b _ (wheel (turned dy) (turned dx)) _ (λ k. refl) (move_to-Core b (some point) p h)

on_wheel-Core :
    (b : Bool) (e : PointerEvent) (dx dy : ℤ) (p : Pointer) → Core b p → Core b (on_wheel e dx dy p)
unfolding on_wheel
on_wheel-Core b e dx dy p h =
    if_cases (Core b) (not p.enabled || not (running p) || p.host.locked) _ _ (λ _. h)
      (λ _. scroll-Core b (position e false p) dx dy p h)

hide-Core : (b : Bool) (p : Pointer) → Core b p → Core b (if p.host.hidden then release p else p)
hide-Core b p h = if_cases (Core b) p.host.hidden _ _ (λ _. release-Core b p h) (λ _. h)

pub dispatch-Core : (b : Bool) (e : Event) (p : Pointer) → Core b p → Core b (dispatch e p)
unfolding dispatch
dispatch-Core b (down e) p h = on_down-Core b e _ (on_document_down-Core b e p h)
dispatch-Core b (down_elsewhere e) p h = on_document_down-Core b e p h
dispatch-Core b (move e) p h = on_move-Core b e p h
dispatch-Core b (lift e) p h = on_up-Core b e p h
dispatch-Core b (cancel id) p h = on_cancel-Core b id p h
dispatch-Core b (wheel_by e dx dy) p h = on_wheel-Core b e dx dy p h
dispatch-Core b blur p h = release-Core b p h
dispatch-Core b visibility_change p h = hide-Core b p h
dispatch-Core b lock_change p h = unlocked-Core b p h
dispatch-Core b activate p h = h
dispatch-Core b deactivate p h = h
dispatch-Core b release_all p h = h
dispatch-Core b destroy p h = h
dispatch-Core b (host_change k) p h = h
