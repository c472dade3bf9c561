-- ===== src/Input/Touch/Drags.antt =====
-- vm-input.js: a guest holds the left button during a drag by touch, and no button otherwise.
use mathlib.Core.Path.{subst}
use my.Base.{
  ℕ, ◌-◌, ◌≡◌, refl, sym, ◌∙◌, true, false, not, ◌&&◌, Option, none, some, List, [], ◌∷◌, ◌++◌, ltb,
  ◌==◌, if◌then◌else◌, if_cases,
}
use my.Input.{
  Buttons, up, left_down, pointer_lock, Call, bus, focus, set_capture, release_capture, Host,
  PointerEvent, is_some_id, guest, is_click, Holds, Holds-silent, Holds-click, Holds-other,
}
use my.Input.Touch.{
  Doubles, right_down, Event, down, move, lift, cancel, drag_button, right_button, blur,
  visibility_change, host_change, Gesture, Touch, call, machine, lift_drag, drop_capture,
  release_gesture, release, click_on, begin_on, start_touch, send_lock, on_down, move_gesture,
  lift_gesture, cancel_gesture, is_some_machine, on_drag_button, step, run, create,
}

module _ (d : Doubles) where
  -- The machine on which a drag is in progress.
  abbrev pub dragged : Option (Gesture d) → Option ℕ
  dragged none = none
  dragged (some g) = if g.dragging then some g.vm else none

  abbrev pub IsDragging : Touch d → Type 0
  IsDragging t = Holds (dragged t.gesture) left_down t.calls

  silent : (c : Call) (t : Touch d) → is_click c ≡ false → IsDragging t → IsDragging (call d c t)
  silent c t e h = Holds-silent (dragged t.gesture) left_down t.calls c e h

  lift_drag-Holds :
      (g : Gesture d) (t : Touch d)
      → Holds (dragged (some g)) left_down t.calls
      → Holds none up (lift_drag d g t).calls
  unfolding lift_drag
  lift_drag-Holds g t h =
      if_cases (λ v. Holds v left_down t.calls → Holds none up (lift_drag d g t).calls) g.dragging
        (some g.vm) none
        (λ e k. rw e (Holds-other (some g.vm) none _ (Holds-click g.vm left_down up t.calls k)))
        (λ e k. rw e k) h

  drop_capture-Holds :
      (id : ℕ) (t : Touch d) → Holds none up t.calls → Holds none up (drop_capture d id t).calls
  unfolding drop_capture
  drop_capture-Holds id t h =
      if_cases (λ (k : Touch d). Holds none up k.calls) (is_some_id t.host.captured id) _ _
        (λ _. Holds-silent none up t.calls (release_capture id) refl h) (λ _. h)

  release_gesture-Holds :
      (g : Option (Gesture d)) (t : Touch d)
      → Holds (dragged g) left_down t.calls
      → Holds none up (release_gesture d g t).calls
  unfolding release_gesture
  release_gesture-Holds none t h = h
  release_gesture-Holds (some g) t h =
      drop_capture-Holds g.id (lift_drag d g t) (lift_drag-Holds g t h)

  lift_drag-gesture : (g : Gesture d) (t : Touch d) → (lift_drag d g t).gesture ≡ t.gesture
  unfolding lift_drag
  lift_drag-gesture g t =
      if_cases (λ (k : Touch d). k.gesture ≡ t.gesture) g.dragging _ _ (λ _. refl) (λ _. refl)

  drop_capture-gesture : (id : ℕ) (t : Touch d) → (drop_capture d id t).gesture ≡ t.gesture
  unfolding drop_capture
  drop_capture-gesture id t =
      if_cases (λ (k : Touch d). k.gesture ≡ t.gesture) (is_some_id t.host.captured id) _ _
        (λ _. refl) (λ _. refl)

  release_gesture-gesture :
      (g : Option (Gesture d)) (t : Touch d) → (release_gesture d g t).gesture ≡ t.gesture
  unfolding release_gesture
  release_gesture-gesture none t = refl
  release_gesture-gesture (some g) t =
      drop_capture-gesture g.id (lift_drag d g t) ∙ lift_drag-gesture g t

  -- Nothing is in progress and nothing held.
  record IsFree (t : Touch d) : Type 0 where
    gesture : t.gesture ≡ none
    holds : Holds none up t.calls

  IsFree-IsDragging : (t : Touch d) → IsFree t → IsDragging t
  IsFree-IsDragging t f = subst (λ g. Holds (dragged g) left_down t.calls) (sym f.gesture) f.holds

  release-IsFree : (t : Touch d) → IsDragging t → IsFree (release d t)
  unfolding release
  release-IsFree t h =
      let k : Touch d = record t { gesture = none } in
      record {
        gesture = release_gesture-gesture t.gesture k;
        holds = release_gesture-Holds t.gesture k h;
      }

  released : (t : Touch d) → IsDragging t → IsDragging (release d t)
  released t h = IsFree-IsDragging (release d t) (release-IsFree t h)

  click_on-IsFree :
      (b : Buttons) (o : Option ℕ) (t : Touch d) → IsFree t → IsFree (click_on d b o t)
  unfolding click_on
  click_on-IsFree b none t f = f
  click_on-IsFree b (some vm) t f = record {
    gesture = f.gesture;
    holds = Holds-other (some vm) none _ (
        Holds-click vm b up _
          (Holds-click vm up b t.calls (Holds-other none (some vm) t.calls f.holds)));
  }

  begin_on-IsDragging :
      (o : Option ℕ) (e : PointerEvent) (t : Touch d) → IsFree t → IsDragging (begin_on d o e t)
  unfolding begin_on
  begin_on-IsDragging none e t f = IsFree-IsDragging t f
  begin_on-IsDragging (some vm) e t f =
      let quiet : Holds none up
          ((t.calls ++ set_capture e.id ∷ []) ++ bus vm (pointer_lock true) ∷ []) =
        Holds-silent none up _ (bus vm (pointer_lock true)) refl
          (Holds-silent none up t.calls (set_capture e.id) refl f.holds) in
      if_cases IsDragging (not e.is_primary) _ _ (λ _. IsFree-IsDragging t f)
        (λ _.
          if_cases IsDragging t.drag_armed _ _
            (λ a. rw a (Holds-click vm up left_down _ (Holds-other none (some vm) _ quiet)))
            (λ a. rw a quiet))

  start_touch-IsDragging :
      (g : Option (Gesture d)) (e : PointerEvent) (t : Touch d)
      → t.gesture ≡ g
      → IsDragging t
      → IsDragging (start_touch d g e t)
  unfolding start_touch
  start_touch-IsDragging (some g) e t s h = released t h
  start_touch-IsDragging none e t s h =
      begin_on-IsDragging (machine d t) e t
        (record { gesture = s; holds = subst (λ g. Holds (dragged g) left_down t.calls) s h })

  send_lock-IsDragging : (o : Option ℕ) (t : Touch d) → IsDragging t → IsDragging (send_lock d o t)
  send_lock-IsDragging none t h = h
  send_lock-IsDragging (some vm) t h = silent (bus vm (pointer_lock t.host.locked)) t refl h

  on_down-IsDragging : (e : PointerEvent) (t : Touch d) → IsDragging t → IsDragging (on_down d e t)
  unfolding on_down
  on_down-IsDragging e t h =
      if_cases IsDragging e.is_mouse _ _
        (λ _. send_lock-IsDragging (machine d (release d t)) (release d t) (released t h))
        (λ _. start_touch-IsDragging t.gesture e (call d focus t) refl (silent focus t refl h))

  move_gesture-IsDragging :
      (g : Option (Gesture d)) (e : PointerEvent) (t : Touch d)
      → t.gesture ≡ g
      → IsDragging t
      → IsDragging (move_gesture d g e t)
  unfolding move_gesture
  move_gesture-IsDragging none e t s h = h
  move_gesture-IsDragging (some g) e t s h =
      if_cases IsDragging (not (g.id == e.id)) _ _ (λ _. h)
        (λ _.
          if_cases IsDragging (not (is_some_id (machine d t) g.vm)) _ _ (λ _. released t h)
            (λ _.
              Holds-silent (dragged (some g)) left_down t.calls _ refl
                (subst (λ o. Holds (dragged o) left_down t.calls) s h)))

  lift_gesture-IsDragging :
      (g : Option (Gesture d)) (e : PointerEvent) (t : Touch d)
      → IsDragging t
      → IsDragging (lift_gesture d g e t)
  unfolding lift_gesture
  lift_gesture-IsDragging none e t h = h
  lift_gesture-IsDragging (some g) e t h =
      if_cases IsDragging (not (g.id == e.id)) _ _ (λ _. h)
        (λ _.
          if_cases IsDragging
            (not g.dragging
              && d.at_most_8 g.distance
              && ltb (e.now - g.started) 350
              && is_some_id (machine d (release d t)) g.vm)
            _ _
            (λ _.
              IsFree-IsDragging _
                (click_on-IsFree left_down (some g.vm) (release d t) (release-IsFree t h)))
            (λ _. released t h))

  cancel_gesture-IsDragging :
      (g : Option (Gesture d)) (id : ℕ) (t : Touch d)
      → IsDragging t
      → IsDragging (cancel_gesture d g id t)
  unfolding cancel_gesture
  cancel_gesture-IsDragging none id t h = h
  cancel_gesture-IsDragging (some g) id t h =
      if_cases IsDragging (g.id == id) _ _ (λ _. released t h) (λ _. h)

  on_drag_button-IsDragging : (t : Touch d) → IsDragging t → IsDragging (on_drag_button d t)
  unfolding on_drag_button
  on_drag_button-IsDragging t h =
      if_cases (λ (k : Touch d). IsDragging (call d focus k))
        (is_some_machine d (machine d (release d t))) _ _
        (λ _.
          silent focus (record (release d t) { drag_armed = not t.drag_armed }) refl (released t h))
        (λ _. silent focus (release d t) refl (released t h))

  step-IsDragging : (t : Touch d) (e : Event) → IsDragging t → IsDragging (step d t e)
  unfolding step
  step-IsDragging t (down e) h = on_down-IsDragging e t h
  step-IsDragging t (move e) h = move_gesture-IsDragging t.gesture e t refl h
  step-IsDragging t (lift e) h = lift_gesture-IsDragging t.gesture e t h
  step-IsDragging t (cancel id) h = cancel_gesture-IsDragging t.gesture id t h
  step-IsDragging t drag_button h = on_drag_button-IsDragging t h
  step-IsDragging t right_button h =
      silent focus (click_on d right_down (machine d (release d t)) (release d t)) refl (
        IsFree-IsDragging _
          (click_on-IsFree right_down (machine d (release d t)) (release d t) (release-IsFree t h)))
  step-IsDragging t blur h = released t h
  step-IsDragging t visibility_change h =
      if_cases IsDragging t.host.hidden _ _ (λ _. released t h) (λ _. h)
  step-IsDragging t (host_change k) h = h

  run-keeps : (es : List Event) (t : Touch d) → IsDragging t → IsDragging (run d t es)
  unfolding run
  run-keeps [] t h = h
  run-keeps (e ∷ es) t h = run-keeps es (step d t e) (step-IsDragging t e h)

-- After any touches, taps, buttons and losses of focus, on any machines: the machine of a drag in
-- progress was last told of the left button alone, and every other machine of no button.
pub run-IsDragging :
    (d : Doubles) (host : Host) (es : List Event) → IsDragging d (run d (create d host) es)
run-IsDragging d host es = run-keeps d es (create d host) (λ m. unfold guest create in refl)
