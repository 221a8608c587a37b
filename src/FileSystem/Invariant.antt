-- ===== src/FileSystem/Invariant.antt =====
-- The invariant of a filesystem: the accounts of its heap are sound for its own tables, and the
-- tables keep to their limits.
pub mod Handles
pub mod Opens
pub mod Names
pub mod Sizes
pub mod Writes
pub mod Maps
use wago_emscripten.Common.{
  ℕ, ◌+◌, ◌^◌, ◌≤◌, ◌<◌, ◌≡◌, refl, List, length, UniqueKeys, sum_by, nat_eq, bytes_key, lookup,
  insert, erase, sum_by-insert, sum_by-erase, weight-le-sum_by, weight?, some, none, arith,
}
use wago_emscripten.FileSystem.{FileSystem, OpenFile, FileMapping, deref, new_file_system}
use wago_emscripten.FileSystem.Reply.{Limits}
use wago_emscripten.FileSystem.Accounts.{Sound, points_to, live_bytes}

abbrev pub fd_weight : ℕ → OpenFile → ℕ
fd_weight p h = points_to p h.file

abbrev pub map_weight : ℕ → FileMapping → ℕ
map_weight p k = points_to p k.file

-- The names of a file, and the handles and mappings that hold it.
abbrev pub names_of : FileSystem → ℕ → ℕ
names_of fs p = sum_by (points_to p) fs.files

abbrev pub holders_of : FileSystem → ℕ → ℕ
holders_of fs p = sum_by (fd_weight p) fs.fds + sum_by (map_weight p) fs.mappings

-- What `decodeConfig` and the defaults guarantee of the limits.
pub record IsLimits (l : Limits) : Type 0 where
  pub small : l.max_filesystem_bytes < 2 ^ 62
  pub room : 3 ≤ l.max_open_files

pub record IsValid (l : Limits) (fs : FileSystem) : Type 0 where
  pub sound : Sound l.max_filesystem_bytes fs.heap fs.bytes (names_of fs) (holders_of fs)
  pub few : length fs.fds + 3 ≤ l.max_open_files
  pub unique_files : UniqueKeys fs.files
  pub unique_dirs : UniqueKeys fs.dirs
  pub unique_fds : UniqueKeys fs.fds
  pub unique_mappings : UniqueKeys fs.mappings

pub new_file_system-IsValid : (l : Limits) → IsLimits l → IsValid l new_file_system
unfolding sum_by live_bytes deref lookup
new_file_system-IsValid l h = record {
  sound = record {
    accounted = refl;
    within = omega arith;
    named = λ p. refl;
    held = λ p. omega arith;
  };
  few = omega (arith, h.room);
  unique_files = tt;
  unique_dirs = (refl, tt);
  unique_fds = tt;
  unique_mappings = tt;
}

-- The file of a handle, a name or a mapping is in use.
pub handle_used :
    (fs : FileSystem) (fd : ℕ) (h : OpenFile)
    → lookup fd fs.fds ≡ some h
    → 1 ≤ names_of fs h.file + holders_of fs h.file
handle_used fs fd h e = ground (arith, weight-le-sum_by (fd_weight h.file) fd fs.fds)

pub name_used :
    (fs : FileSystem) (name : List ℕ) (p : ℕ)
    → lookup name fs.files ≡ some p
    → 1 ≤ names_of fs p + holders_of fs p
name_used fs name p e = ground (arith, weight-le-sum_by (points_to p) name fs.files)

pub mapping_used :
    (fs : FileSystem) (address : ℕ) (k : FileMapping)
    → lookup address fs.mappings ≡ some k
    → 1 ≤ names_of fs k.file + holders_of fs k.file
mapping_used fs address k e =
    ground (arith, weight-le-sum_by (map_weight k.file) address fs.mappings)
