-- ===== src/FileSystem/Stat.antt =====
-- filesystem.go: metadata of paths and descriptors, written into guest memory.
use wago_emscripten.Common.{
  ℕ, ◌+◌, ◌-◌, ◌/◌, ◌^◌, Bool, ◌&&◌, ◌||◌, Option, none, some, List, [], ◌∷◌, length, replicate,
  lookup, ltb, if◌then◌else◌, bytes_eq, u32, nat_eq, bytes_key,
}
use wago_emscripten.Memory.{write_at, put_u32, put_u64, c_string}
use wago_emscripten.Paths.{clean}
use wago_emscripten.FileSystem.{
  FileSystem, deref, size_of, is_dir, err_bad_fd, err_fault, err_inval, err_no_ent,
}
use wago_emscripten.FileSystem.Reply.{
  value, neg_errno, wasi_errno, Reply, answer, Plugin, Module, Outcome, refuse, with_file_system,
}
use wago_emscripten.FileSystem.Descriptors.{is_stdio}

-- File modes, octal in the source.
abbrev pub mode_regular : ℕ
mode_regular = 0o100644

abbrev pub mode_directory : ℕ
mode_directory = 0o40755

abbrev pub mode_device : ℕ
mode_device = 0o20666

-- `clear(mem[ptr : ptr+n])`
abbrev pub clear : List ℕ → ℕ → ℕ → List ℕ
clear mem ptr n = write_at mem ptr (replicate n 0)

unfoldable pub write_stat : List ℕ → ℕ → ℕ → ℕ → Option (List ℕ)
unfolding write_at
write_stat mem ptr mode size =
    if ltb (length mem) (ptr + 96)
    then none
    else let m0 = clear mem ptr 96 in
      let m1 = put_u32 m0 ptr 1 in
      let m2 = put_u32 m1 (ptr + 4) mode in
      let m3 = put_u32 m2 (ptr + 8) 1 in
      let m4 = put_u64 m3 (ptr + 24) size in
      let m5 = put_u32 m4 (ptr + 32) 4096 in
      let m6 = put_u32 m5 (ptr + 36) (u32 ((size + 511) / 512)) in some (put_u64 m6 (ptr + 88) 1)

abbrev pub answer_stat : List ℕ → FileSystem → ℕ → ℕ → ℕ → Reply
answer_stat mem fs stat_ptr mode size = elim (write_stat mem stat_ptr mode size) [
  | none ↦ answer mem fs (neg_errno err_fault)
  | some mem' ↦ answer mem' fs (value 0)
]

unfoldable pub stat_path_on : List ℕ → ℕ → List ℕ → FileSystem → Reply
unfolding write_stat deref is_dir
stat_path_on name stat_ptr mem fs = elim (lookup name fs.files) [
  | some p ↦ answer_stat mem fs stat_ptr mode_regular (size_of (deref fs.heap p))
  | none ↦
      if is_dir fs name
      then answer_stat mem fs stat_ptr mode_directory 0
      else answer mem fs (neg_errno err_no_ent)
]

unfoldable pub stat_path : Plugin → Module → ℕ → ℕ → Outcome
unfolding c_string clean stat_path_on with_file_system
stat_path p m path_ptr stat_ptr = elim (c_string m.memory path_ptr) [
  | none ↦ refuse p m (neg_errno err_fault)
  | some text ↦
      if bytes_eq text []
      then refuse p m (neg_errno err_fault)
      else with_file_system p m (neg_errno err_no_ent) (stat_path_on (clean (b'/' ∷ text)) stat_ptr)
]

unfoldable pub syscall_stat : Plugin → Module → ℕ → ℕ → Outcome
unfolding stat_path
syscall_stat p m p0 p1 = stat_path p m (u32 p0) (u32 p1)

unfoldable pub syscall_newfstatat : Plugin → Module → ℕ → ℕ → Outcome
unfolding stat_path
syscall_newfstatat p m p1 p2 = stat_path p m (u32 p1) (u32 p2)

unfoldable pub fstat_on : ℕ → ℕ → List ℕ → FileSystem → Reply
unfolding write_stat deref
fstat_on fd stat_ptr mem fs = elim (lookup fd fs.fds) [
  | none ↦ answer mem fs (neg_errno err_bad_fd)
  | some h ↦ answer_stat mem fs stat_ptr mode_regular (size_of (deref fs.heap h.file))
]

unfoldable pub syscall_fstat : Plugin → Module → ℕ → ℕ → Outcome
unfolding write_stat fstat_on with_file_system
syscall_fstat p m p0 p1 =
    if is_stdio (u32 p0)
    then elim (write_stat m.memory (u32 p1) mode_device 0) [
      | none ↦ refuse p m (neg_errno err_fault)
      | some mem ↦ record { plugin = p; memory = mem; result = value 0 }
    ]
    else with_file_system p m (neg_errno err_bad_fd) (fstat_on (u32 p0) (u32 p1))

-- `wasiFDStatGet`: the type of the descriptor and all rights. A descriptor below 3, negative ones
-- included, is a character device.
unfoldable pub write_fd_stat : List ℕ → ℕ → ℕ → List ℕ
unfolding write_at
write_fd_stat mem ptr file_type =
    let m0 = clear mem ptr 24 in
    let m1 = write_at m0 ptr (file_type ∷ []) in
    let m2 = put_u64 m1 (ptr + 8) (2 ^ 64 - 1) in put_u64 m2 (ptr + 16) (2 ^ 64 - 1)

abbrev pub above_stdio : ℕ → Bool
above_stdio fd = ltb 2 fd && ltb fd (2 ^ 31)

unfoldable pub fd_stat_on : ℕ → ℕ → List ℕ → FileSystem → Reply
unfolding write_fd_stat
fd_stat_on fd ptr mem fs = elim (lookup fd fs.fds) [
  | none ↦ answer mem fs (wasi_errno err_bad_fd)
  | some h ↦ answer (write_fd_stat mem ptr 4) fs (wasi_errno 0)
]

unfoldable pub wasi_fd_stat_get : Plugin → Module → ℕ → ℕ → Outcome
unfolding write_fd_stat fd_stat_on with_file_system
wasi_fd_stat_get p m p0 p1 =
    if ltb (length m.memory) (u32 p1 + 24)
    then refuse p m (wasi_errno err_fault)
    else if above_stdio (u32 p0)
    then with_file_system p m (wasi_errno err_bad_fd) (fd_stat_on (u32 p0) (u32 p1))
    else record { plugin = p; memory = write_fd_stat m.memory (u32 p1) 2; result = wasi_errno 0 }

unfoldable pub write_file_stat : List ℕ → ℕ → ℕ → ℕ → List ℕ
unfolding write_at
write_file_stat mem ptr file_type size =
    let m0 = clear mem ptr 64 in
    let m1 = put_u64 m0 ptr 1 in
    let m2 = put_u64 m1 (ptr + 8) 1 in
    let m3 = write_at m2 (ptr + 16) (file_type ∷ []) in
    let m4 = put_u64 m3 (ptr + 24) 1 in put_u64 m4 (ptr + 32) size

unfoldable pub file_stat_on : ℕ → ℕ → List ℕ → FileSystem → Reply
unfolding write_file_stat deref
file_stat_on fd ptr mem fs = elim (lookup fd fs.fds) [
  | none ↦ answer mem fs (wasi_errno err_bad_fd)
  | some h ↦ answer (write_file_stat mem ptr 4 (size_of (deref fs.heap h.file))) fs (wasi_errno 0)
]

unfoldable pub wasi_file_stat_get : Plugin → Module → ℕ → ℕ → Outcome
unfolding write_file_stat file_stat_on with_file_system
wasi_file_stat_get p m p0 p1 =
    if ltb (length m.memory) (u32 p1 + 64)
    then refuse p m (wasi_errno err_fault)
    else if above_stdio (u32 p0)
    then with_file_system p m (wasi_errno err_bad_fd) (file_stat_on (u32 p0) (u32 p1))
    else record {
      plugin = p;
      memory = write_file_stat m.memory (u32 p1) 2 0;
      result = wasi_errno 0;
    }

unfoldable pub syscall_getcwd : Plugin → Module → ℕ → ℕ → Outcome
unfolding write_at
syscall_getcwd p m p0 p1 =
    if ltb (u32 p1) 2 || ltb (length m.memory) (u32 p0 + 2)
    then refuse p m (neg_errno err_inval)
    else record {
      plugin = p;
      memory = write_at m.memory (u32 p0) (b'/' ∷ 0 ∷ []);
      result = value 2;
    }
