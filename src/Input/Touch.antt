-- ===== src/Input/Touch.antt =====
-- `setupTouch` of src/browser/vm-input.js: swipes and taps as a relative mouse. Distances are
-- JavaScript's doubles, of which the code uses a sum, a comparison with 8 and Math.hypot: these are
-- parameters.
pub mod Drags
mod Tests
use my.Base.{
  ℕ, ◌+◌, ◌-◌, Bool, true, false, not, ◌&&◌, ◌||◌, Option, none, some, List, [], ◌∷◌, ◌++◌, ltb,
  ◌==◌, if◌then◌else◌,
}
use my.Base.Int.{ℤ, ◌-ℤ◌, neg_ℤ}
use my.Input.{
  Buttons, up, left_down, Signal, pointer_lock, delta, click, Call, bus, focus, set_capture,
  release_capture, Host, PointerEvent, is_some_id,
}

pub record Doubles : Type 1 where
  pub Double : Type 0
  pub zero : Double
  pub plus : Double → Double → Double
  pub hypot : ℤ → ℤ → Double
  pub at_most_8 : Double → Bool

abbrev pub right_down : Buttons
right_down = record { left = false; middle = false; right = true }

pub data Event : Type 0 where
  down move lift : PointerEvent → Event
  cancel : ℕ → Event
  drag_button right_button blur visibility_change : Event
  host_change : Host → Event

module _ (d : Doubles) where
  pub record Gesture : Type 0 where
    pub id : ℕ
    pub vm : ℕ
    pub x : ℤ
    pub y : ℤ
    pub distance : d.Double
    pub started : ℕ
    pub dragging : Bool

  pub record Touch : Type 0 where
    pub gesture : Option Gesture
    pub drag_armed : Bool
    pub host : Host
    pub calls : List Call

  abbrev call : Call → Touch → Touch
  call c t = record t { calls = t.calls ++ c ∷ [] }

  -- machine()
  abbrev pub machine : Touch → Option ℕ
  machine t = if t.host.is_running then t.host.machine else none

  -- The part of `release` for the gesture that there was.
  unfoldable pub lift_drag : Gesture → Touch → Touch
  lift_drag g t = if g.dragging then call (bus g.vm (click up)) t else t

  unfoldable pub drop_capture : ℕ → Touch → Touch
  drop_capture id t =
      if is_some_id t.host.captured id
      then record t {
        host = record t.host { captured = none };
        calls = t.calls ++ release_capture id ∷ [];
      }
      else t

  unfoldable pub release_gesture : Option Gesture → Touch → Touch
  release_gesture none t = t
  release_gesture (some g) t = drop_capture g.id (lift_drag g t)

  -- release()
  unfoldable pub release : Touch → Touch
  release t = record (release_gesture t.gesture (record t { gesture = none })) {
    drag_armed = false;
  }

  -- click(vm,secondary)
  unfoldable pub click_on : Buttons → Option ℕ → Touch → Touch
  click_on b none t = t
  click_on b (some vm) t = call (bus vm (click up)) (call (bus vm (click b)) t)

  -- A gesture of one finger begins on the machine that runs.
  unfoldable pub begin_on : Option ℕ → PointerEvent → Touch → Touch
  begin_on none e t = t
  begin_on (some vm) e t =
      let t' = record t {
        host = record t.host { captured = some e.id };
        gesture = some (record {
          id = e.id;
          vm = vm;
          x = e.x;
          y = e.y;
          distance = d.zero;
          started = e.now;
          dragging = t.drag_armed;
        });
        calls = (t.calls ++ set_capture e.id ∷ []) ++ bus vm (pointer_lock true) ∷ [];
      } in
      if not e.is_primary
      then t
      else if t.drag_armed
      then call (bus vm (click left_down)) t'
      else t'

  unfoldable pub start_touch : Option Gesture → PointerEvent → Touch → Touch
  start_touch (some g) e t = release t
  start_touch none e t = begin_on (machine t) e t

  abbrev send_lock : Option ℕ → Touch → Touch
  send_lock none t = t
  send_lock (some vm) t = call (bus vm (pointer_lock t.host.locked)) t

  -- The two handlers of pointerdown.
  unfoldable pub on_down : PointerEvent → Touch → Touch
  on_down e t =
      if e.is_mouse
      then send_lock (machine (release t)) (release t)
      else start_touch t.gesture e (call focus t)

  unfoldable pub move_gesture : Option Gesture → PointerEvent → Touch → Touch
  move_gesture none e t = t
  move_gesture (some g) e t =
      let dx = e.x -ℤ g.x in
      let dy = e.y -ℤ g.y in
      let t' = record t {
        gesture =
            some (record g { x = e.x; y = e.y; distance = d.plus g.distance (d.hypot dx dy) });
        calls = t.calls ++ bus g.vm (delta dx (neg_ℤ dy)) ∷ [];
      } in
      if not (g.id == e.id) then t else if not (is_some_id (machine t) g.vm) then release t else t'

  unfoldable pub lift_gesture : Option Gesture → PointerEvent → Touch → Touch
  lift_gesture none e t = t
  lift_gesture (some g) e t =
      let is_tap = not g.dragging && d.at_most_8 g.distance && ltb (e.now - g.started) 350 in
      let t' = release t in
      if not (g.id == e.id)
      then t
      else if is_tap && is_some_id (machine t') g.vm
      then click_on left_down (some g.vm) t'
      else t'

  unfoldable pub cancel_gesture : Option Gesture → ℕ → Touch → Touch
  cancel_gesture none id t = t
  cancel_gesture (some g) id t = if g.id == id then release t else t

  abbrev is_some_machine : Option ℕ → Bool
  is_some_machine none = false
  is_some_machine (some m) = true

  -- The handler of a click on the drag button.
  unfoldable pub on_drag_button : Touch → Touch
  on_drag_button t =
      let t' = release t in
      call focus
        (if is_some_machine (machine t') then record t' { drag_armed = not t.drag_armed } else t')

  unfoldable pub step : Touch → Event → Touch
  step t (down e) = on_down e t
  step t (move e) = move_gesture t.gesture e t
  step t (lift e) = lift_gesture t.gesture e t
  step t (cancel id) = cancel_gesture t.gesture id t
  step t drag_button = on_drag_button t
  step t right_button = call focus (click_on right_down (machine (release t)) (release t))
  step t blur = release t
  step t visibility_change = if t.host.hidden then release t else t
  step t (host_change h) = record t { host = h }

  unfoldable pub run : Touch → List Event → Touch
  run t [] = t
  run t (e ∷ es) = run (step t e) es

  -- The state of `setupTouch` when it returns.
  unfoldable pub create : Host → Touch
  create h = record { gesture = none; drag_armed = false; host = h; calls = [] }
