-- ===== src/DiskWorker/Open.antt =====
-- worker.js: opening, creating and saving a disk.
use my.Base.{
  ℕ, ◌+◌, ◌^◌, ◌%◌, Bool, true, false, not, ◌&&◌, Option, none, some, List, [], ◌∷◌, ltb, leb, ◌==◌,
  if◌then◌else◌,
}
use my.Base.Num.{Num, safe_nat}
use my.Base.Failure.{
  Result, ok, err, operation_failed, invalid_read_key, io_error, invalid_publication,
  invalid_profile, invalid_size,
}
use my.DiskWorker.{
  Reply, Worker, Outcome, throws, returns, remove, remove_previous, add_source, free, new_handle,
}

-- A local file is opened with a read key: the end of it, once the vault is made.
unfoldable pub read_only_checked : Reply → ℕ → Worker → Outcome
read_only_checked (ok t) id w = returns (record w {
  vault = some w.next_handle;
  current = some id;
  prepared = none;
  next_handle = w.next_handle + 1;
})
read_only_checked (err c) id w = throws c (remove id (free w.next_handle (new_handle w)))

unfoldable pub read_only_opened : Reply → Reply → ℕ → Worker → Outcome
read_only_opened (ok t) checked id w = read_only_checked checked id w
read_only_opened (err c) checked id w = throws c (remove id w)

unfoldable pub open_read_only : Bool → Bool → Reply → Reply → Option ℕ → Worker → Outcome
open_read_only key_ok is_file opened checked (some v) w = throws operation_failed w
open_read_only key_ok is_file opened checked none w =
    if not key_ok
    then throws invalid_read_key w
    else if not is_file
    then throws io_error w
    else read_only_opened opened checked (w.source_id + 1) (add_source false w)

-- The opening of a publication: whether its arguments are known, its prefetch scope is one that is
-- taken, and the bridge is there; and then what RemotePublication.open answers.
pub record Publication : Type 0 where
  pub known : Bool
  pub scope_ok : Bool
  pub has_bridge : Bool
  pub opened : Reply

-- remoteArguments(args,owner), and RemotePublication.open with them
unfoldable pub open_publication : Publication → Reply
open_publication p =
    if not p.known
    then err invalid_publication
    else if not p.scope_ok
    then err invalid_profile
    else if not p.has_bridge
    then err io_error
    else p.opened

-- A publication is opened with a read key, once its vault is made and the operation is not cancelled.
unfoldable pub remote_read_only_prefetched : Reply → ℕ → Worker → Outcome
remote_read_only_prefetched (ok t) id w = returns (record w {
  vault = some w.next_handle;
  current = some id;
  prepared = none;
  next_handle = w.next_handle + 1;
})
remote_read_only_prefetched (err c) id w = throws c (
    remove id (
      free w.next_handle (record (new_handle w) { vault = none; current = none; prepared = none })))

unfoldable pub remote_read_only_checked : Reply → Reply → ℕ → Worker → Outcome
remote_read_only_checked (ok t) prefetched id w = remote_read_only_prefetched prefetched id w
remote_read_only_checked (err c) prefetched id w =
    throws c
      (remove id (free w.next_handle (record (new_handle w) { vault = none; current = none })))

unfoldable pub remote_read_only_opened : Reply → Reply → Reply → ℕ → Worker → Outcome
remote_read_only_opened (ok t) checked prefetched id w =
    remote_read_only_checked checked prefetched id w
remote_read_only_opened (err c) checked prefetched id w =
    throws c (remove id (record w { vault = none; current = none }))

-- with what the opening of the publication answered, remoteArguments included
unfoldable pub remote_read_only : Reply → Reply → Reply → Reply → Worker → Outcome
remote_read_only (err c) opened checked prefetched w = throws c w
remote_read_only (ok t) opened checked prefetched w =
    remote_read_only_opened opened checked prefetched (w.source_id + 1) (add_source true w)

unfoldable pub open_remote_read_only :
    Bool → Reply → Reply → Reply → Reply → Option ℕ → Worker → Outcome
open_remote_read_only key_ok remote opened checked prefetched (some v) w = throws operation_failed w
open_remote_read_only key_ok remote opened checked prefetched none w =
    if not key_ok
    then throws invalid_read_key w
    else remote_read_only remote opened checked prefetched w

unfoldable pub make_identity : Reply → Worker → Outcome
make_identity (err c) w = throws c w
make_identity (ok t) w =
    returns
      (record w { vault = some w.next_handle; identity = true; next_handle = w.next_handle + 1 })

unfoldable pub unlock : Reply → Option ℕ → Worker → Outcome
unlock made (some v) w = throws operation_failed w
unlock made none w = make_identity made w

-- The disk is now that of source `id`, and the source before is closed.
abbrev pub replace_current : ℕ → Option ℕ → Worker → Worker
replace_current id prepared w =
    remove_previous w.current
      (record w { current = some id; prepared = prepared; restored = none; fresh_restore = false })

-- The first error of some calls, which are made one after the other.
unfoldable pub first_error : List Reply → Reply
first_error [] = ok tt
first_error (ok t ∷ rs) = first_error rs
first_error (err c ∷ rs) = err c

unfoldable pub accept_build : Reply → Worker → Outcome
accept_build (err c) w = throws c (remove (w.source_id + 1) (add_source false w))
accept_build (ok t) w = returns (
    replace_current (w.source_id + 1) (some (w.next_download + 1))
      (record (add_source false w) { next_download = w.next_download + 1 }))

-- build(), with what its steps answer: for each block `check` and the vault, then the last
-- checks; and then the acceptance by the vault.
unfoldable pub build_from : Reply → Reply → Worker → Outcome
build_from (err c) accepted w = throws c w
build_from (ok t) accepted w = accept_build accepted w

abbrev pub build : List Reply → Reply → Worker → Outcome
build steps accepted w = build_from (first_error steps) accepted w

unfoldable pub begin_build : Reply → List Reply → Reply → Worker → Outcome
begin_build (err c) steps accepted w = throws c w
begin_build (ok t) steps accepted w = build steps accepted w

-- `finally {await remove(id);}`
unfoldable pub create_end : ℕ → Outcome → Outcome
create_end id out = (remove id out.0, out.1)

-- create
unfoldable pub create_file : Reply → List Reply → Reply → Worker → Outcome
create_file begun steps accepted w =
    create_end (w.source_id + 1) (begin_build begun steps accepted (add_source false w))

-- `!Number.isSafeInteger(size)||size<=0||size>2**40||size%512` is false
abbrev pub size_ok : Option ℕ → Bool
size_ok none = false
size_ok (some n) = ltb 0 n && leb n (2 ^ 40) && n % 512 == 0

unfoldable pub create_empty : Num → Reply → List Reply → Reply → Worker → Outcome
create_empty size begun steps accepted w =
    if size_ok (safe_nat size) then create_file begun steps accepted w else throws invalid_size w

unfoldable pub open_opened : Reply → ℕ → Worker → Outcome
open_opened (ok t) id w = returns (replace_current id none w)
open_opened (err c) id w = throws c (remove id w)

unfoldable pub open_file : Reply → Worker → Outcome
open_file opened w = open_opened opened (w.source_id + 1) (add_source false w)

unfoldable pub remote_prefetched : Reply → ℕ → Worker → Outcome
remote_prefetched (ok t) id w = returns w
remote_prefetched (err c) id w = throws c (remove id w)

-- with the answers of `check` and `startPrefetch`
unfoldable pub remote_opened : Reply → Reply → ℕ → Worker → Outcome
remote_opened (err c) prefetched id w = throws c (remove id w)
remote_opened (ok t) prefetched id w = remote_prefetched prefetched id (replace_current id none w)

unfoldable pub remote_found : Reply → List Reply → Reply → Worker → Outcome
remote_found (err c) opened prefetched w = throws c w
remote_found (ok t) opened prefetched w =
    remote_opened (first_error opened) prefetched (w.source_id + 1) (add_source true w)

unfoldable pub open_remote : Bool → Reply → List Reply → Reply → Worker → Outcome
open_remote has_read_key remote opened prefetched w =
    if has_read_key then throws invalid_read_key w else remote_found remote opened prefetched w

unfoldable pub save_begun : Result Bool → Reply → List Reply → Reply → Worker → Outcome
save_begun (err c) checked steps accepted w = throws c w
save_begun (ok true) checked steps accepted w = build steps accepted w
save_begun (ok false) checked steps accepted w = (w, checked)
