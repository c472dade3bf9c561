-- ===== src/Lib.antt =====
-- A model of the JavaScript core of my98, a machine in the browser whose encrypted disk is published
-- as torrents, and what has been proved of it.
--
-- The program's parts and how they meet. The emulator reads and writes through the adapter
-- `DiskBuffer` (src/disk/web/client.js), which sends one request at a time to the disk Worker. The
-- Worker reads ciphertext from a torrent whose pieces `TorrentPieceStore` (src/disk/web/torrent-store.js)
-- keeps in IndexedDB behind a cache in RAM. Which torrent belongs to a machine is a signed record,
-- verified by src/disk/web/torrent-protocol.js and found, compared and kept by
-- src/disk/web/torrent-records.js. Published profiles (src/disk/web/load-profiles.js and
-- src/disk/web/range-prefetch.js) say which units of the disk a boot or a resumed state reads;
-- `RangePrefetchOrder` turns them into an order of fetches, and `StartupPrefetch`
-- (src/disk/web/startup-prefetch.js) into one download that goes ahead of a resumed machine.
--
-- Which file models which part:
--   Base          what the parts share: tests on numbers, lists, JavaScript's numbers, maps and texts,
--                 and the codes of the errors
--   PieceStore    torrent-store.js. `create`, `size`, `remember`, `put_begin`, `get_range` are
--                 the constructor and the synchronous parts of the methods; World has the calls in
--                 progress: an event submits a call, starts it, or completes or aborts its
--                 transaction, so any interleaving of calls is a list of events
--   Ranges        range-prefetch.js. `matching_ranges` in Profile, and the walk of
--                 RangePrefetchOrder with `observe`, `next` and `stats`
--   LoadProfiles  load-profiles.js
--   Startup       startup-prefetch.js. Target is startupPrefetchOptions and startupRanges; Job is the
--                 class as a state machine whose phases are the awaits of `run`
--   Publication   verifyRecord, compareRecords and unhex of torrent-protocol.js; Observe,
--                 Resolve and Bounded are the functions of torrent-records.js, with Ed25519 as a
--                 parameter
--   Bencode       `bdecode` of torrent-protocol.js; Encode is the encoding it is held against
--   Metadata      `verifyMetadata` of torrent-protocol.js, what is accepted as a torrent's description
--   DiskBuffer    the class DiskBuffer of client.js, with what it tells the Worker and the emulator
--   WorkerProtocol  worker-protocol.js, the queue of requests inside the Worker, with cancellation
--   DiskWorker    src/disk/web/worker.js, what the Worker executes: Open has the opening, creating and
--                 saving of a disk, State the candidates of a state and the load analyses, and Execute
--                 the guards and the switch of `execute`; Analysis is BootAnalysis of
--                 src/disk/web/boot-analysis.js
--   StateFormat   the class StateReader of src/disk/web/state-format.js
--   StateWindow   `stateInput` of src/disk/web/torrent-remote.js, the stream of a published state
--   LoadPrefetch  `profiles`, `setLoadPrefetch` and `startPrefetch` of torrent-remote.js, what is
--                 fetched ahead of a boot or of a resumed state
--   Port          src/disk/web/torrent-port.js, the bridge by which the Worker asks the window for
--                 ciphertext: TorrentPort, and in Window its other end, WindowTorrentPort
--   Relay         src/browser/relay-network.js, the Ethernet of a machine over a WebSocket; Steps has the
--                 handlers of RelayNetworkAdapter
--   MachineState  src/browser/machine-state.js, the capture of a machine and its replacement
--   Input         how the page's pointer becomes the guest's mouse: Pointer is setupDirectPointer of
--                 src/browser/direct-pointer.js, and Touch is setupTouch of src/browser/vm-input.js
--
-- Conventions. A number from outside is a `Num`, of which the code takes only safe naturals; a
-- sum of two of them stays exact in the model, where JavaScript rounds above 2^53. A promise is
-- a pair of events. What a callback of the host does is a later event. A throw is `err` with the
-- code of the error, without its text. The disk Worker executes one request at a time, so there
-- the answers of a request's calls are its arguments. Page coordinates are whole numbers; the
-- distance of a swipe is of a type of doubles that is a parameter.
--
-- Bounds and fuel. Loops are recursions on their lists or on the count of the code's own bound
-- (a scan of a range looks at each unit once, and a read of a state copies a byte at least in
-- each round). `digits` has room for 16 digits, as many as the largest safe integer has. `parse` of
-- Bencode has two units of fuel for each of the 256 nodes that it may count, and the loop of
-- `fill` runs four times at most, since each round adds to `active`.
--
-- Not modelled: the opening of IndexedDB, JSON, fetch and timeouts of torrent-records.js, the
-- streamed observations of `onRecord`, descriptors and signed locations; the bytes and the
-- progress of the Worker, the records of a saved state, and the ranges that a boot analysis
-- selects; the torrent transport behind the bridge, the session of the page and its look; the
-- vault, which is compiled from Rust, of which the Worker's handles are kept; what other tabs
-- write to or clear from the pieces of an open store; the parts in Python, and the vendored libraries.
pub mod Base
pub mod PieceStore
pub mod Ranges
pub mod LoadProfiles
pub mod Startup
pub mod Publication
pub mod DiskBuffer
pub mod WorkerProtocol
pub mod Input
pub mod Relay
pub mod Port
pub mod DiskWorker
pub mod StateFormat
pub mod StateWindow
pub mod Bencode
pub mod Metadata
pub mod LoadPrefetch
pub mod MachineState
