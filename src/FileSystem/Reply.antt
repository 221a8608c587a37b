-- ===== src/FileSystem/Reply.antt =====
-- What a host call answers, and the filesystem that `p.fileSystem` finds for the caller.
use wago_emscripten.Common.{
  ℕ, ◌-◌, ◌^◌, Bool, List, Option, none, some, Map, lookup, insert, nat_eq,
}
use wago_emscripten.FileSystem.{FileSystem, new_file_system}

-- The slot `results[0]`, or a Go run-time panic such as a slice index out of range.
pub data Result : Type 0 where
  value : ℕ → Result
  panic : Result

-- `negErrno` and `wasiErrno`.
abbrev pub neg_errno : ℕ → Result
neg_errno errno = value (2 ^ 32 - errno)

abbrev pub wasi_errno : ℕ → Result
wasi_errno errno = value errno

-- The state behind a call that works on a filesystem: the filesystem, the guest's memory, and the
-- answer.
pub record Reply : Type 0 where
  pub fs : FileSystem
  pub memory : List ℕ
  pub result : Result

abbrev pub answer : List ℕ → FileSystem → Result → Reply
answer mem fs r = record { fs = fs; memory = mem; result = r }

-- The limits that the configuration sets.
pub record Limits : Type 0 where
  pub max_filesystem_bytes : ℕ
  pub max_open_files : ℕ

-- The standard streams, as lists of events: what the writers will answer (the count and whether
-- there was no error; a full write once the list is used up), what has been handed to them with the
-- descriptor, and the chunks that the reader will deliver.
pub record Stdio : Type 0 where
  pub answers : List (ℕ × Bool)
  pub sent : List (ℕ × List ℕ)
  pub chunks : List (List ℕ)

-- The part of the plugin that the filesystem calls use. An instance identity is a number.
pub record Plugin : Type 0 where
  pub files : Map ℕ FileSystem
  pub limits : Limits
  pub env : List (List ℕ)
  pub stdio : Stdio

-- The caller: what `p.callers.Resolve` answers for it (none is an error), and its memory.
pub record Module : Type 0 where
  pub identity : Option ℕ
  pub memory : List ℕ

-- How a whole call ends.
pub record Outcome : Type 0 where
  pub plugin : Plugin
  pub memory : List ℕ
  pub result : Result

-- A call that ends before it has reached a filesystem.
abbrev pub refuse : Plugin → Module → Result → Outcome
refuse p m r = record { plugin = p; memory = m.memory; result = r }

-- `p.fileSystem`: the caller's filesystem, made on its first use.
unfoldable pub file_system : Plugin → Module → Option (ℕ × FileSystem)
file_system p m = elim m.identity [
  | none ↦ none
  | some id ↦ some (id, elim (lookup id p.files) [ none ↦ new_file_system | some fs ↦ fs ])
]

-- A call that resolves the caller's filesystem, or answers `unresolved`, and then runs `body` on it.
-- What `body` leaves is kept under the caller's identity.
unfoldable pub with_file_system : Plugin → Module → Result → (List ℕ → FileSystem → Reply) → Outcome
unfolding file_system
with_file_system p m unresolved body = elim (file_system p m) [
  | none ↦ refuse p m unresolved
  | some (id, fs) ↦
      let r = body m.memory fs in
      record {
        plugin = record p { files = insert id r.fs p.files };
        memory = r.memory;
        result = r.result;
      }
]
