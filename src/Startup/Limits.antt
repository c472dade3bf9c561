-- ===== src/Startup/Limits.antt =====
-- startup-prefetch.js: the options that startupPrefetchOptions accepts.
use my.Base.{◌≤◌, ◌≡◌, arith}
use my.Base.Failure.{ok}
use my.Startup.Target.{Given, Options, prefetch_options}

-- Options that are accepted allow from one to three attempts, at most a minute after the machine has
-- been resumed, and from 1 to 16 pieces in the window.
pub prefetch_options-bounds :
    (g : Given) (o : Options)
    → prefetch_options g ≡ ok o
    → (1 ≤ o.max_attempts)
      × (o.max_attempts ≤ 3)
      × (o.post_restore_budget_ms ≤ 60000)
      × (1 ≤ o.window_pieces)
      × (o.window_pieces ≤ 16)
unfolding prefetch_options
prefetch_options-bounds g o h = ground arith
