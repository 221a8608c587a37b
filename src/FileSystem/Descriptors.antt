-- ===== src/FileSystem/Descriptors.antt =====
-- filesystem.go: opening, duplicating and closing descriptors, and their flags.
use wago_emscripten.Common.{
  ℕ, zero, suc, ◌+◌, ◌-◌, ◌^◌, Bool, ◌||◌, Option, none, some, List, [], ◌∷◌, ◌++◌, length, set,
  lookup, insert, erase, leb, ltb, ◌==◌, if◌then◌else◌, i64_sub, i32_lt, u32, nat_eq, bytes_key,
  bit_and, bit_or,
}
use wago_emscripten.Memory.{c_string}
use wago_emscripten.Paths.{dir, clean_guest_path}
use wago_emscripten.FileSystem.{
  FileSystem, OpenFile, empty_file, deref, size_of, release, retain, is_dir, err_bad_fd, err_exist,
  err_fault, err_inval, err_is_dir, err_too_many, err_no_ent, err_nosys, open_create,
  open_exclusive, open_truncate, open_append,
}
use wago_emscripten.FileSystem.Reply.{
  Result, value, panic, neg_errno, wasi_errno, Reply, answer, Limits, Plugin, Module, Outcome,
  refuse, with_file_system,
}

-- `len(fs.fds)+3 >= p.maxOpenFiles`
abbrev pub table_full : Limits → FileSystem → Bool
table_full l fs = leb l.max_open_files (length fs.fds + 3)

-- O_TRUNC: the bytes are given back and the file is empty.
unfoldable pub truncate_file : ℕ → FileSystem → FileSystem
unfolding deref
truncate_file p fs =
    let f = deref fs.heap p in
    record fs {
      heap = set fs.heap p (record f { contents = [] });
      bytes = i64_sub fs.bytes (size_of f);
    }

-- The end of `syscallOpenat`: a new handle on the file under the next number.
unfoldable pub new_handle : ℕ → ℕ → FileSystem → FileSystem
unfolding deref retain
new_handle p flags fs =
    let fs' = retain p fs in
    let start = if bit_and flags open_append == 0 then 0 else size_of (deref fs.heap p) in
    record fs' {
      fds = insert fs.next_fd (record { file = p; offset = start; flags = flags }) fs.fds;
      next_fd = u32 (fs.next_fd + 1);
    }

unfoldable pub open_file : ℕ → ℕ → List ℕ → FileSystem → Reply
unfolding truncate_file new_handle
open_file p flags mem fs =
    let fs' = if bit_and flags open_truncate == 0 then fs else truncate_file p fs in
    answer mem (new_handle p flags fs') (value fs'.next_fd)

-- `&memoryFile{linked: true}`, entered under its name.
unfoldable pub create_file : List ℕ → FileSystem → FileSystem
create_file name fs = record fs {
  heap = fs.heap ++ empty_file ∷ [];
  files = insert name (length fs.heap) fs.files;
}

unfoldable pub openat_on : Limits → List ℕ → ℕ → List ℕ → FileSystem → Reply
unfolding open_file create_file is_dir
openat_on l name flags mem fs =
    if table_full l fs
    then answer mem fs (neg_errno err_too_many)
    else elim (lookup name fs.files) [
      | none ↦
          if bit_and flags open_create == 0
          then answer mem fs (neg_errno err_no_ent)
          else if is_dir fs (dir name)
          then open_file (length fs.heap) flags mem (create_file name fs)
          else answer mem fs (neg_errno err_no_ent)
      | some p ↦
          if bit_and flags (open_create + open_exclusive) == open_create + open_exclusive
          then answer mem fs (neg_errno err_exist)
          else open_file p flags mem fs
    ]

unfoldable pub syscall_openat : Plugin → Module → ℕ → ℕ → Outcome
unfolding c_string clean_guest_path openat_on with_file_system
syscall_openat p m p1 p2 = elim (c_string m.memory (u32 p1)) [
  | none ↦ refuse p m (neg_errno err_fault)
  | some text ↦ elim (clean_guest_path text) [
    | none ↦ refuse p m (neg_errno err_is_dir)
    | some name ↦ with_file_system p m (neg_errno err_bad_fd) (openat_on p.limits name (u32 p2))
  ]
]

-- `for fs.fds[candidate] != nil { candidate++ }`, on fuel.
unfoldable pub find_free : ℕ → ℕ → List (ℕ × OpenFile) → Option ℕ
find_free zero candidate fds = none
find_free (suc fuel) candidate fds =
    let rest = find_free fuel (u32 (candidate + 1)) fds in
    elim (lookup candidate fds) [ none ↦ some candidate | some h ↦ rest ]

-- F_DUPFD. A table of n handles has a free number among any n + 1, so the loop ends.
unfoldable pub dup_from : Limits → OpenFile → ℕ → List ℕ → FileSystem → Reply
unfolding find_free retain
dup_from l h least mem fs =
    if table_full l fs
    then answer mem fs (neg_errno err_too_many)
    else elim (find_free (suc (length fs.fds)) (if i32_lt least 3 then 3 else least) fs.fds) [
      | none ↦ answer mem fs panic
      | some fd ↦
          let fs' = retain h.file fs in
          answer mem (record fs' { fds = insert fd h fs.fds }) (value fd)
    ]

-- The handle of a descriptor is changed in place.
abbrev pub set_handle : ℕ → OpenFile → FileSystem → FileSystem
set_handle fd h fs = record fs { fds = insert fd h fs.fds }

-- F_SETFL keeps the access mode and takes O_APPEND.
abbrev set_file_flags : OpenFile → ℕ → OpenFile
set_file_flags h arg = record h { flags = bit_or (bit_and h.flags 3) (bit_and arg open_append) }

unfoldable pub fcntl_on : Limits → ℕ → ℕ → ℕ → List ℕ → FileSystem → Reply
unfolding dup_from
fcntl_on l fd command arg mem fs = elim (lookup fd fs.fds) [
  | none ↦ answer mem fs (neg_errno err_bad_fd)
  | some h ↦
      if command == 0
      then dup_from l h arg mem fs
      else if command == 1 || command == 2
      then answer mem fs (value 0)
      else if command == 3
      then answer mem fs (value h.flags)
      else if command == 4
      then answer mem (set_handle fd (set_file_flags h arg) fs) (value 0)
      else answer mem fs (neg_errno err_nosys)
]

unfoldable pub syscall_fcntl : Plugin → Module → ℕ → ℕ → ℕ → Outcome
unfolding fcntl_on with_file_system
syscall_fcntl p m p0 p1 p2 =
    with_file_system p m (neg_errno err_bad_fd) (fcntl_on p.limits (u32 p0) (u32 p1) (u32 p2))

unfoldable pub syscall_dup : Plugin → Module → ℕ → Outcome
unfolding syscall_fcntl
syscall_dup p m p0 = syscall_fcntl p m p0 0 3

unfoldable pub dup3_on : Limits → ℕ → ℕ → List ℕ → FileSystem → Reply
unfolding release retain
dup3_on l old_fd new_fd mem fs = elim (lookup old_fd fs.fds) [
  | none ↦ answer mem fs (neg_errno err_bad_fd)
  | some h ↦ elim (lookup new_fd fs.fds) [
    | some replaced ↦
        let fs' = retain h.file (release replaced.file fs) in
        answer mem (record fs' { fds = insert new_fd h fs.fds }) (value new_fd)
    | none ↦
        if table_full l fs
        then answer mem fs (neg_errno err_too_many)
        else let fs' = retain h.file fs in
          answer mem (record fs' { fds = insert new_fd h fs.fds }) (value new_fd)
  ]
]

unfoldable pub syscall_dup3 : Plugin → Module → ℕ → ℕ → Outcome
unfolding dup3_on with_file_system
syscall_dup3 p m p0 p1 =
    if u32 p0 == u32 p1 || i32_lt (u32 p1) 3
    then refuse p m (neg_errno err_inval)
    else with_file_system p m (neg_errno err_bad_fd) (dup3_on p.limits (u32 p0) (u32 p1))

unfoldable pub close_on : ℕ → List ℕ → FileSystem → Reply
unfolding release
close_on fd mem fs = elim (lookup fd fs.fds) [
  | none ↦ answer mem fs (wasi_errno err_bad_fd)
  | some h ↦
      let fs' = release h.file fs in
      answer mem (record fs' { fds = erase fd fs.fds }) (wasi_errno 0)
]

-- `fd >= 0 && fd <= 2`
abbrev pub is_stdio : ℕ → Bool
is_stdio fd = ltb fd 3

unfoldable pub wasi_fd_close : Plugin → Module → ℕ → Outcome
unfolding close_on with_file_system
wasi_fd_close p m p0 =
    if is_stdio (u32 p0)
    then refuse p m (wasi_errno 0)
    else with_file_system p m (wasi_errno err_bad_fd) (close_on (u32 p0))

unfoldable pub set_flags_on : ℕ → ℕ → List ℕ → FileSystem → Reply
set_flags_on fd bits mem fs = elim (lookup fd fs.fds) [
  | none ↦ answer mem fs (wasi_errno err_bad_fd)
  | some h ↦
      let flags =
        if bit_and bits 1 == 0
        then bit_and h.flags (2 ^ 32 - 1 - open_append)
        else bit_or h.flags open_append in
      answer mem (set_handle fd (record h { flags = flags }) fs) (wasi_errno 0)
]

unfoldable pub wasi_fd_set_flags : Plugin → Module → ℕ → ℕ → Outcome
unfolding set_flags_on with_file_system
wasi_fd_set_flags p m p0 p1 =
    with_file_system p m (wasi_errno err_bad_fd) (set_flags_on (u32 p0) (u32 p1))

-- The calls that only ask whether a descriptor is open.
unfoldable pub check_fd : Result → ℕ → List ℕ → FileSystem → Reply
check_fd bad fd mem fs = elim (lookup fd fs.fds) [
  | none ↦ answer mem fs bad
  | some h ↦ answer mem fs (value 0)
]

unfoldable pub syscall_fchmod : Plugin → Module → ℕ → Outcome
unfolding check_fd with_file_system
syscall_fchmod p m p0 =
    if is_stdio (u32 p0)
    then refuse p m (value 0)
    else with_file_system p m (neg_errno err_bad_fd) (check_fd (neg_errno err_bad_fd) (u32 p0))

unfoldable pub syscall_fdatasync : Plugin → Module → ℕ → Outcome
unfolding check_fd with_file_system
syscall_fdatasync p m p0 =
    if is_stdio (u32 p0)
    then refuse p m (value 0)
    else with_file_system p m (neg_errno err_bad_fd) (check_fd (neg_errno err_bad_fd) (u32 p0))

unfoldable pub wasi_fd_sync : Plugin → Module → ℕ → Outcome
unfolding check_fd with_file_system
wasi_fd_sync p m p0 =
    if is_stdio (u32 p0)
    then refuse p m (wasi_errno 0)
    else with_file_system p m (wasi_errno err_bad_fd) (check_fd (wasi_errno err_bad_fd) (u32 p0))
