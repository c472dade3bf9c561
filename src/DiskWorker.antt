-- ===== src/DiskWorker.antt =====
-- src/disk/web/worker.js: the state of the disk Worker, and what its operations share. The requests
-- come one at a time (WorkerProtocol), so an operation is a function of the state and of what its
-- calls of the vault, of a publication and of `check` answer, which come as its arguments. A vault is
-- a handle of memory that is freed by hand; `freed` has the handles that were.
pub mod Open
pub mod State
pub mod Execute
pub mod Handles
mod Kept
pub mod Owned
pub mod Sources
mod Opened
mod Neat
pub mod Closed
pub mod Analysis
pub mod Observed
mod Tests
use my.Base.{
  ℕ, ◌+◌, Bool, true, false, not, ◌&&◌, ◌||◌, Option, none, some, List, [], ◌∷◌, ◌++◌, ◌==◌,
  if◌then◌else◌,
}
use my.Base.Failure.{Code, Result, ok, err}

-- An answer that may be an error.
abbrev pub Reply : Type 0
Reply = Result (Unit {0})

-- A source of ciphertext: a blob, or a publication, which has the info hash of the disk.
pub record Source : Type 0 where
  pub id : ℕ
  pub is_remote : Bool

-- The origin of a load profile: a state is named by the digest of its bytes.
pub data Origin : Type 0 where
  boot : Origin
  restored_state : ℕ → Origin

pub record Candidate : Type 0 where
  pub vault : ℕ
  pub token : ℕ
  pub revision : ℕ
  pub source : Option ℕ
  pub origin : ℕ
  pub prefetch : Option ℕ

-- What the vault says of itself.
pub record Facts : Type 0 where
  pub revision : ℕ
  pub is_dirty : Bool

pub record Worker : Type 0 where
  pub identity : Bool
  pub vault : Option ℕ
  pub sources : List Source
  pub source_id : ℕ
  pub current : Option ℕ
  pub prepared : Option ℕ
  pub next_download : ℕ
  pub candidate : Option Candidate
  pub state_serial : ℕ
  pub analysis : Option Origin
  pub restored : Option ℕ
  pub fresh_restore : Bool
  pub next_handle : ℕ
  pub freed : List ℕ

-- The state after an operation, and what it returned.
abbrev pub Outcome : Type 0
Outcome = Worker × Reply

abbrev pub throws : Code → Worker → Outcome
throws c w = (w, err c)

abbrev pub returns : Worker → Outcome
returns w = (w, ok tt)

-- What a call answered is what the operation returns.
abbrev pub answers : Reply → Worker → Outcome
answers r w = (w, r)

abbrev pub is_given {ℓ} : {A : Type ℓ} → Option A → Bool
is_given none = false
is_given (some a) = true

abbrev pub is_current : Option ℕ → ℕ → Bool
is_current none id = false
is_current (some k) id = k == id

unfoldable pub delete_source : ℕ → List Source → List Source
delete_source id [] = []
delete_source id (s ∷ ss) = let rest = delete_source id ss in if s.id == id then rest else s ∷ rest

-- remove(id)
abbrev pub remove : ℕ → Worker → Worker
remove id w = record w { sources = delete_source id w.sources }

unfoldable pub delete_previous : Option ℕ → List Source → List Source
delete_previous none ss = ss
delete_previous (some id) ss = delete_source id ss

-- `if(previous)await remove(previous);`
abbrev pub remove_previous : Option ℕ → Worker → Worker
remove_previous previous w = record w { sources = delete_previous previous w.sources }

-- A new source, whose id is then the last.
abbrev pub add_source : Bool → Worker → Worker
add_source is_remote w = record w {
  source_id = w.source_id + 1;
  sources = w.sources ++ record { id = w.source_id + 1; is_remote = is_remote } ∷ [];
}

unfoldable pub find_remote : Option ℕ → List Source → Bool
find_remote id [] = false
find_remote id (s ∷ ss) = if is_current id s.id then s.is_remote else find_remote id ss

-- `describe().remote?.infoHash` is there
abbrev pub has_remote : Worker → Bool
has_remote w = find_remote w.current w.sources

-- `vault.free()` and `candidate.free()`
abbrev pub free : ℕ → Worker → Worker
free h w = record w { freed = w.freed ++ h ∷ [] }

abbrev pub free_handle : Option ℕ → List ℕ
free_handle none = []
free_handle (some h) = h ∷ []

abbrev pub candidate_handle : Option Candidate → Option ℕ
candidate_handle none = none
candidate_handle (some c) = some c.vault

-- dropState()
abbrev pub drop_state : Worker → Worker
drop_state w = record w {
  freed = w.freed ++ free_handle (candidate_handle w.candidate);
  candidate = none;
}

-- A vault that the library has made: its handle is the last one.
abbrev pub new_handle : Worker → Worker
new_handle w = record w { next_handle = w.next_handle + 1 }
