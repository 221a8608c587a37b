-- ===== src/FileSystem/Sizes.antt =====
-- filesystem.go: changing the size of a file, by descriptor and by name.
use wago_emscripten.Common.{
  ℕ, ◌-◌, ◌^◌, Bool, ◌||◌, none, some, List, ◌++◌, length, set, take, replicate, lookup, ltb, ◌==◌,
  if◌then◌else◌, i64_add, i64_sub, i64_lt, i32_lt, u32, u64, nat_eq, bytes_key,
}
use wago_emscripten.Memory.{c_string}
use wago_emscripten.Paths.{clean_guest_path}
use wago_emscripten.FileSystem.{
  FileSystem, deref, size_of, err_bad_fd, err_fault, err_inval, err_is_dir, err_no_ent, err_nosys,
}
use wago_emscripten.FileSystem.Reply.{
  Result, value, panic, neg_errno, wasi_errno, Reply, answer, Limits, Plugin, Module, Outcome,
  refuse, file_system, with_file_system,
}

-- `size < 0 || size > p.maxFilesystemBytes`
abbrev pub bad_size : Limits → ℕ → Bool
bad_size l size = i64_lt size 0 || i64_lt l.max_filesystem_bytes size

-- `data[:size]`, or `data` with zeros appended.
unfoldable pub resize_contents : ℕ → List ℕ → List ℕ
resize_contents size xs =
    if ltb size (length xs) then take size xs else xs ++ replicate (size - length xs) 0

-- The locked part of `syscallFtruncate` and `syscallTruncate`, once the file is known.
unfoldable pub resize : Limits → ℕ → ℕ → List ℕ → FileSystem → Reply
unfolding deref resize_contents
resize l p size mem fs =
    let f = deref fs.heap p in
    let change = i64_sub size (size_of f) in
    if i64_lt l.max_filesystem_bytes (i64_add fs.bytes change)
    then answer mem fs (neg_errno err_inval)
    else answer mem
        (record fs {
          heap = set fs.heap p (record f { contents = resize_contents size f.contents });
          bytes = i64_add fs.bytes change;
        })
        (value 0)

unfoldable pub ftruncate_on : Limits → ℕ → ℕ → List ℕ → FileSystem → Reply
unfolding resize
ftruncate_on l fd size mem fs = elim (lookup fd fs.fds) [
  | none ↦ answer mem fs (neg_errno err_bad_fd)
  | some h ↦ resize l h.file size mem fs
]

unfoldable pub syscall_ftruncate : Plugin → Module → ℕ → ℕ → Outcome
unfolding ftruncate_on with_file_system
syscall_ftruncate p m p0 p1 =
    if bad_size p.limits (u64 p1)
    then refuse p m (neg_errno err_inval)
    else with_file_system p m (neg_errno err_bad_fd) (ftruncate_on p.limits (u32 p0) (u64 p1))

unfoldable pub truncate_on : Limits → List ℕ → ℕ → List ℕ → FileSystem → Reply
unfolding resize
truncate_on l name size mem fs = elim (lookup name fs.files) [
  | none ↦ answer mem fs (neg_errno err_no_ent)
  | some p ↦ resize l p size mem fs
]

unfoldable pub syscall_truncate : Plugin → Module → ℕ → ℕ → Outcome
unfolding c_string clean_guest_path truncate_on with_file_system
syscall_truncate p m p0 p1 = elim (c_string m.memory (u32 p0)) [
  | none ↦ refuse p m (neg_errno err_fault)
  | some text ↦ elim (clean_guest_path text) [
    | none ↦ refuse p m (neg_errno err_is_dir)
    | some name ↦
        if bad_size p.limits (u64 p1)
        then refuse p m (neg_errno err_inval)
        else with_file_system p m (neg_errno err_no_ent) (truncate_on p.limits name (u64 p1))
  ]
]

-- `offset < 0 || length < 0 || offset > p.maxFilesystemBytes-length`
abbrev pub bad_range : Limits → ℕ → ℕ → Bool
bad_range l offset len =
    i64_lt offset 0 || i64_lt len 0 || i64_lt (i64_sub l.max_filesystem_bytes len) offset

-- A call by which the file of a handle is made at least `end` bytes long: `resize_by` is made only
-- where the file is shorter. The handle is looked up first.
unfoldable pub grow_to :
    Plugin → Module → ℕ → ℕ → Result → Result → (Plugin → Module → ℕ → ℕ → Outcome) → Outcome
unfolding with_file_system deref
grow_to p m fd end bad enough resize_by = elim (file_system p m) [
  | none ↦ refuse p m bad
  | some (id, fs) ↦ elim (lookup fd fs.fds) [
    | none ↦ with_file_system p m bad (λ mem fs. answer mem fs bad)
    | some h ↦
        if i64_lt (size_of (deref fs.heap h.file)) end
        then resize_by p m fd end
        else with_file_system p m bad (λ mem fs. answer mem fs enough)
  ]
]

unfoldable pub syscall_fallocate : Plugin → Module → ℕ → ℕ → ℕ → ℕ → Outcome
unfolding grow_to syscall_ftruncate
syscall_fallocate p m p0 p1 p2 p3 =
    if u32 p1 == 0
    then if bad_range p.limits (u64 p2) (u64 p3)
      then refuse p m (neg_errno err_inval)
      else grow_to p m (u32 p0) (i64_add p2 p3) (neg_errno err_bad_fd) (value 0) syscall_ftruncate
    else refuse p m (neg_errno err_nosys)

-- `wasiFDSetSize`: the answer of `syscallFtruncate` with its sign turned.
abbrev pub wasi_of_syscall : Result → Result
wasi_of_syscall (value v) =
    if i32_lt (u32 v) 0 then wasi_errno (u32 (2 ^ 32 - u32 v)) else wasi_errno 0
wasi_of_syscall panic = panic

unfoldable pub wasi_fd_set_size : Plugin → Module → ℕ → ℕ → Outcome
unfolding syscall_ftruncate
wasi_fd_set_size p m p0 p1 =
    let o = syscall_ftruncate p m p0 p1 in record o { result = wasi_of_syscall o.result }

unfoldable pub wasi_fd_allocate : Plugin → Module → ℕ → ℕ → ℕ → Outcome
unfolding grow_to wasi_fd_set_size
wasi_fd_allocate p m p0 p1 p2 =
    if bad_range p.limits (u64 p1) (u64 p2)
    then refuse p m (wasi_errno err_inval)
    else grow_to p m (u32 p0) (i64_add p1 p2) (wasi_errno err_bad_fd) (wasi_errno 0)
        wasi_fd_set_size
