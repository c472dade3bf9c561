-- ===== src/DiskBuffer/Tests.antt =====
-- Three requests, the second of which fails once and is retried.
use my.Base.{◌≡◌, refl, false, some, List, [], ◌∷◌, ◌++◌}
use my.DiskBuffer.{
  read, write, send, callback, on_error, Event, enqueue, served, rejected, reported, retry, resumed,
  issue, pump_idle, pump, forget_sector, submit, deliver, cache_sector, serve, reject, report,
  start_retry, step, run, create, get_state,
}
use my.DiskBuffer.Line.{callbacks, ids, accepted}
use my.DiskBuffer.Order.{ready, run-order, get_state-drained}

abbrev script : List Event
script =
    enqueue 0 (read 0 2)
    ∷ enqueue 1 (write 0 (9 ∷ 9 ∷ []))
    ∷ served (5 ∷ 6 ∷ [])
    ∷ enqueue 2 (read 0 2)
    ∷ rejected
    ∷ reported
    ∷ retry
    ∷ resumed
    ∷ served []
    ∷ []

script_calls :
    (run (ready 512) script).calls
    ≡ send (read 0 2)
      ∷ callback 0 (5 ∷ 6 ∷ [])
      ∷ send (write 0 (9 ∷ 9 ∷ []))
      ∷ on_error
      ∷ send (write 0 (9 ∷ 9 ∷ []))
      ∷ callback 1 []
      ∷ send (read 0 2)
      ∷ []
unfolding run step create submit forget_sector pump pump_idle issue serve deliver cache_sector
    reject report start_retry
script_calls = refl

live : (run (create 512) script).disposed ≡ false
unfolding run step create submit forget_sector pump pump_idle issue serve deliver cache_sector
    reject report start_retry
live = refl

run-order_example :
    callbacks (run (create 512) script).calls ++ ids (run (create 512) script).queue
    ≡ accepted (create 512) script
run-order_example = run-order 512 script live

abbrev drained : List Event
drained = script ++ served (9 ∷ 9 ∷ []) ∷ []

drained_live : (run (ready 512) drained).disposed ≡ false
unfolding run step create submit forget_sector pump pump_idle issue serve deliver cache_sector
    reject report start_retry
drained_live = refl

captured : get_state (run (ready 512) drained) ≡ some (1, 512)
unfolding get_state run step create submit forget_sector pump pump_idle issue serve deliver
    cache_sector reject report start_retry
captured = refl

get_state-drained_example : callbacks (run (ready 512) drained).calls ≡ accepted (ready 512) drained
get_state-drained_example = get_state-drained 512 drained (1, 512) drained_live captured
