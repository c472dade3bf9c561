-- ===== src/DiskBuffer.antt =====
-- `DiskBuffer` of src/disk/web/client.js: the disk that the emulator reads and writes. Requests wait
-- in a queue; `pump` sends the first to the Worker and takes it off when it has been served. An event
-- is a call of a method or the settling of the promise that `pump` or `retry` waits for.
pub mod Line
pub mod Order
mod Tests
use my.Base.{
  ℕ, ◌+◌, Bool, true, false, not, ◌&&◌, ◌||◌, Option, none, some, List, [], ◌∷◌, ◌++◌, length, take,
  drop, ltb, leb, ◌==◌, if◌then◌else◌,
}

abbrev pub Bytes : Type 0
Bytes = List ℕ

-- What the request asks of the Worker. `caching` is a read by `get_and_cache`.
pub data Operation : Type 0 where
  read caching : ℕ → ℕ → Operation
  write : ℕ → Bytes → Operation

-- A request, with a number that stands for its callback.
abbrev pub Request : Type 0
Request = ℕ × Operation

-- What `pump` waits for: nothing, the Worker, or the host's `onError`.
pub data Pumping : Type 0 where
  idle serving reporting : Pumping

-- What the adapter does: it sends an operation to the Worker, calls a callback, or tells the host of
-- an error.
pub data Call : Type 0 where
  send : Operation → Call
  callback : ℕ → Bytes → Call
  on_error : Call

pub record Buffer : Type 0 where
  pub byte_length : ℕ
  pub queue : List Request
  pub pumping : Pumping
  pub failed : Bool
  pub disposed : Bool
  pub boot_sector : Option Bytes
  pub snapshot_ready : Bool
  pub calls : List Call

pub data Event : Type 0 where
  enqueue : ℕ → Operation → Event
  served : Bytes → Event
  rejected reported retry resumed fail dispose : Event

-- get_from_cache(offset,length)
unfoldable pub get_from_cache : ℕ → ℕ → Option Bytes → Option Bytes
get_from_cache offset len none = none
get_from_cache offset len (some sector) =
    if leb (offset + len) (length sector) then some (take len (drop offset sector)) else none

-- The test of the loop of `pump`, and the body up to its await.
unfoldable pub issue : List Request → Buffer → Buffer
issue [] b = record b { pumping = idle }
issue ((id, op) ∷ queue) b =
    if b.failed || b.disposed
    then record b { pumping = idle }
    else record b { pumping = serving; calls = b.calls ++ send op ∷ [] }

unfoldable pub pump_idle : Pumping → Buffer → Buffer
pump_idle idle b = if b.failed || b.disposed then b else issue b.queue b
pump_idle _ b = b

-- pump()
unfoldable pub pump : Buffer → Buffer
pump b = pump_idle b.pumping b

-- A write to the first 512 bytes forgets the copy of the boot sector.
unfoldable pub forget_sector : Operation → Buffer → Buffer
forget_sector (write offset bytes) b = if ltb offset 512 then record b { boot_sector = none } else b
forget_sector _ b = b

-- get, get_and_cache and set, by way of enqueue(request)
unfoldable pub submit : ℕ → Operation → Buffer → Buffer
submit id op b =
    let b' = forget_sector op b in
    if b'.disposed then b' else pump (record b' { queue = b'.queue ++ (id, op) ∷ [] })

-- The callback that get_and_cache wraps.
unfoldable pub cache_sector : Operation → Bytes → Option Bytes → Option Bytes
cache_sector (caching offset len) bytes sector =
    if offset == 0 && len == 512 then some bytes else sector
cache_sector _ bytes sector = sector

-- The body of the loop after its await.
unfoldable pub deliver : List Request → Bytes → Buffer → Buffer
deliver [] result b = record b { pumping = idle }
deliver ((id, op) ∷ queue) result b = issue queue (record b {
  queue = queue;
  boot_sector = cache_sector op result b.boot_sector;
  calls = b.calls ++ callback id result ∷ [];
})

unfoldable pub serve : Pumping → Bytes → Buffer → Buffer
serve serving result b =
    if b.disposed then record b { pumping = idle } else deliver b.queue result b
serve _ result b = b

unfoldable pub reject : Pumping → Buffer → Buffer
reject serving b = record b { failed = true; pumping = reporting; calls = b.calls ++ on_error ∷ [] }
reject _ b = b

unfoldable pub report : Pumping → Buffer → Buffer
report reporting b = record b { pumping = idle }
report _ b = b

-- retry() up to its await; `resumed` is the rest of it.
unfoldable pub start_retry : Pumping → Buffer → Buffer
start_retry idle b = if b.disposed then b else record b { failed = false }
start_retry _ b = b

-- fail(error)
unfoldable pub fail_now : Buffer → Buffer
fail_now b = if b.failed then b else record b { failed = true; calls = b.calls ++ on_error ∷ [] }

unfoldable pub step : Buffer → Event → Buffer
step b (enqueue id op) = submit id op b
step b (served result) = serve b.pumping result b
step b rejected = reject b.pumping b
step b reported = report b.pumping b
step b retry = start_retry b.pumping b
step b resumed = pump b
step b fail = fail_now b
step b dispose = record b { disposed = true; queue = []; boot_sector = none }

unfoldable pub run : Buffer → List Event → Buffer
run b [] = b
run b (e ∷ es) = run (step b e) es

abbrev is_idle : Pumping → Bool
is_idle idle = true
is_idle _ = false

abbrev is_empty : List Request → Bool
is_empty [] = true
is_empty (r ∷ rs) = false

-- get_state(), which throws where it is `none`
unfoldable pub get_state : Buffer → Option (ℕ × ℕ)
get_state b =
    if b.snapshot_ready && is_idle b.pumping && is_empty b.queue && not b.failed
    then some (1, b.byte_length)
    else none

-- The constructor, before `snapshotReady` is set.
unfoldable pub create : ℕ → Buffer
create size = record {
  byte_length = size;
  queue = [];
  pumping = idle;
  failed = false;
  disposed = false;
  boot_sector = none;
  snapshot_ready = false;
  calls = [];
}
