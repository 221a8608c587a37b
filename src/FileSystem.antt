-- ===== src/FileSystem.antt =====
-- filesystem.go: the types of the per-instance filesystem, its objects and its error numbers, and
-- how a host call reaches the filesystem of the calling instance.
-- A `*memoryFile` is a position in `heap`; objects are never freed there, as Go's collector is not
-- observable. A `*openFile` has one holder, its key in `fds`, so it stands there by value.
-- A signed word is its bit pattern. Reference counts are unbounded integers: the bound of Go's
-- `int` is out of reach of any run.
pub mod Reply
pub mod Accounts
pub mod Descriptors
pub mod Names
pub mod Sizes
pub mod ReadWrite
pub mod Streams
pub mod Stat
pub mod Mappings
pub mod Invariant
pub mod Serves
pub mod Behaviour
pub mod Environ
pub mod Calls
use wago_emscripten.Common.{
  ℕ, zero, suc, Bool, true, false, not, ◌||◌, none, some, List, [], ◌∷◌, length, get_elem?, set,
  Map, lookup, if◌then◌else◌, i64_sub, bytes_key, ◌&&◌,
}
use wago_emscripten.Paths.{root}

abbrev pub err_bad_fd : ℕ
err_bad_fd = 8

abbrev pub err_exist : ℕ
err_exist = 20

abbrev pub err_fault : ℕ
err_fault = 21

abbrev pub err_inval : ℕ
err_inval = 28

abbrev pub err_is_dir : ℕ
err_is_dir = 31

abbrev pub err_too_many : ℕ
err_too_many = 33

abbrev pub err_no_ent : ℕ
err_no_ent = 44

abbrev pub err_nosys : ℕ
err_nosys = 52

abbrev pub err_not_empty : ℕ
err_not_empty = 55

abbrev pub err_no_tty : ℕ
err_no_tty = 59

abbrev pub open_write : ℕ
open_write = 1

abbrev pub open_create : ℕ
open_create = 64

abbrev pub open_exclusive : ℕ
open_exclusive = 128

abbrev pub open_truncate : ℕ
open_truncate = 512

abbrev pub open_append : ℕ
open_append = 1024

-- A count of references, which `refs--` may take below zero.
pub data Count : Type 0 where
  pos : ℕ → Count
  negsuc : ℕ → Count

abbrev pub count_inc : Count → Count
count_inc (pos n) = pos (suc n)
count_inc (negsuc zero) = pos 0
count_inc (negsuc (suc n)) = negsuc n

abbrev pub count_dec : Count → Count
count_dec (pos zero) = negsuc 0
count_dec (pos (suc n)) = pos n
count_dec (negsuc n) = negsuc (suc n)

abbrev pub count_is_zero : Count → Bool
count_is_zero (pos zero) = true
count_is_zero (pos (suc n)) = false
count_is_zero (negsuc n) = false

pub record MemoryFile : Type 0 where
  pub contents : List ℕ
  pub linked : Bool
  pub refs : Count

pub record OpenFile : Type 0 where
  pub file : ℕ
  pub offset : ℕ
  pub flags : ℕ

pub record FileMapping : Type 0 where
  pub file : ℕ
  pub offset : ℕ
  pub length : ℕ
  pub prot : ℕ
  pub flags : ℕ

pub record FileSystem : Type 0 where
  pub heap : List MemoryFile
  pub files : Map (List ℕ) ℕ
  pub dirs : Map (List ℕ) Bool
  pub fds : Map ℕ OpenFile
  pub next_fd : ℕ
  pub bytes : ℕ
  pub temp_ret0 : ℕ
  pub mappings : Map ℕ FileMapping

abbrev pub new_file_system : FileSystem
new_file_system = record {
  heap = [];
  files = [];
  dirs = (root, true) ∷ [];
  fds = [];
  next_fd = 3;
  bytes = 0;
  temp_ret0 = 0;
  mappings = [];
}

-- `fs.dirs[name]`
unfoldable pub is_dir : FileSystem → List ℕ → Bool
is_dir fs name = elim (lookup name fs.dirs) [ none ↦ false | some b ↦ b ]

-- `&memoryFile{linked: true}`
abbrev pub empty_file : MemoryFile
empty_file = record { contents = []; linked = true; refs = pos 0 }

-- What a pointer outside the heap would give. No pointer of a run is one.
abbrev pub nil_file : MemoryFile
nil_file = record { contents = []; linked = false; refs = pos 0 }

-- The file that a name or a handle points to.
unfoldable pub deref : List MemoryFile → ℕ → MemoryFile
deref heap p = elim (get_elem? heap p) [ none ↦ nil_file | some f ↦ f ]

-- `int64(len(file.data))`
abbrev pub size_of : MemoryFile → ℕ
size_of f = length f.contents

-- A file whose bytes count against the quota: it is linked, or its count of references is not zero.
abbrev pub is_live : MemoryFile → Bool
is_live f = f.linked || not (count_is_zero f.refs)

-- `file.refs--`, and the quota is given back if that was the last hold on an unlinked file.
unfoldable pub release : ℕ → FileSystem → FileSystem
unfolding deref
release p fs =
    let f = deref fs.heap p in
    let f' = record f { refs = count_dec f.refs } in
    record fs {
      heap = set fs.heap p f';
      bytes =
          if not f'.linked && count_is_zero f'.refs
          then i64_sub fs.bytes (size_of f')
          else fs.bytes;
    }

-- `file.refs++`
unfoldable pub retain : ℕ → FileSystem → FileSystem
unfolding deref
retain p fs =
    let f = deref fs.heap p in
    record fs { heap = set fs.heap p (record f { refs = count_inc f.refs }) }

-- `file.linked = false`, and the quota is given back if nothing holds the file open.
unfoldable pub unlink : ℕ → FileSystem → FileSystem
unfolding deref
unlink p fs =
    let f = deref fs.heap p in
    record fs {
      heap = set fs.heap p (record f { linked = false });
      bytes = if count_is_zero f.refs then i64_sub fs.bytes (size_of f) else fs.bytes;
    }
