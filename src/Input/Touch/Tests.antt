-- ===== src/Input/Touch/Tests.antt =====
-- Runs of the touch input, on distances that are whole numbers: |dx| + |dy| stands for the
-- hypotenuse, which it is when a finger moves along one axis.
use my.Base.{ℕ, ◌+◌, ◌≡◌, refl, true, false, some, none, List, [], ◌∷◌, leb}
use my.Base.Int.{pos, abs, ◌-ℤ◌}
use my.Input.{
  up, left_down, pointer_lock, delta, click, bus, focus, set_capture, release_capture, Host,
  PointerEvent,
}
use my.Input.Touch.{
  Doubles, Event, down, move, lift, drag_button, create, step, run, lift_gesture, move_gesture,
  on_down, start_touch, begin_on, release, release_gesture, drop_capture, lift_drag, click_on,
  on_drag_button,
}
use my.Input.Touch.Drags.{IsDragging, run-IsDragging}

abbrev whole : Doubles
whole = record {
  Double = ℕ;
  zero = 0;
  plus = λ a b. a + b;
  hypot = λ x y. abs x + abs y;
  at_most_8 = λ a. leb a 8;
}

abbrev host : Host
host = record {
  machine = some 3;
  is_running = true;
  locked = false;
  captured = none;
  hidden = false;
  emu_enabled = none;
  surface = none;
}

abbrev finger : ℕ → ℕ → ℕ → PointerEvent
finger x y now = record {
  id = 7;
  is_mouse = false;
  is_primary = true;
  button = 0;
  buttons = 1;
  x = pos x;
  y = pos y;
  now = now;
}

abbrev tap : List Event
tap = down (finger 10 10 0) ∷ move (finger 12 10 50) ∷ lift (finger 12 10 100) ∷ []

abbrev drag : List Event
drag = drag_button ∷ down (finger 10 10 0) ∷ move (finger 30 4 500) ∷ []

tap_clicks :
    (run whole (create whole host) tap).calls
    ≡ focus
      ∷ set_capture 7
      ∷ bus 3 (pointer_lock true)
      ∷ bus 3 (delta (pos 2) (pos 0))
      ∷ release_capture 7
      ∷ bus 3 (click left_down)
      ∷ bus 3 (click up)
      ∷ []
unfolding run step create lift_gesture move_gesture on_down start_touch begin_on ◌-ℤ◌ release
    release_gesture drop_capture lift_drag click_on
tap_clicks = refl

drag_holds :
    (run whole (create whole host) drag).calls
    ≡ focus
      ∷ focus
      ∷ set_capture 7
      ∷ bus 3 (pointer_lock true)
      ∷ bus 3 (click left_down)
      ∷ bus 3 (delta (pos 20) (pos 6))
      ∷ []
unfolding run step create move_gesture on_down start_touch on_drag_button release release_gesture
    begin_on ◌-ℤ◌
drag_holds = refl

run-IsDragging_example : IsDragging whole (run whole (create whole host) drag)
run-IsDragging_example = run-IsDragging whole host drag
