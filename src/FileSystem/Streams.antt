-- ===== src/FileSystem/Streams.antt =====
-- filesystem.go: `wasiFDWrite`, `wasiFDRead`, `wasiFDSeek` and `wasiPositionedIO`, standard streams
-- included.
use wago_emscripten.Common.{
  ℕ, ◌+◌, Bool, true, ◌&&◌, ◌||◌, Option, none, some, List, [], ◌∷◌, ◌++◌, length, take, lookup,
  ltb, ◌==◌, if◌then◌else◌, i64_add, i64_sub, i64_lt, u32, u64, nat_eq,
}
use wago_emscripten.Memory.{write_at, put_u32, put_u64}
use wago_emscripten.FileSystem.{
  FileSystem, OpenFile, deref, size_of, err_bad_fd, err_fault, err_inval,
}
use wago_emscripten.FileSystem.Reply.{
  value, panic, wasi_errno, Reply, answer, Stdio, Plugin, Module, Outcome, refuse, file_system,
  with_file_system,
}
use wago_emscripten.FileSystem.Descriptors.{set_handle}
use wago_emscripten.FileSystem.ReadWrite.{Buffer, guest_iovecs, buffer_bytes, write_on, read_on}

-- `writer.Write(vector)`: what the writer answers next.
abbrev pub next_answer : ℕ → List (ℕ × Bool) → (ℕ × Bool) × List (ℕ × Bool)
next_answer n [] = ((n, true), [])
next_answer n (a ∷ later) = (a, later)

-- The loop of `wasiFDWrite` on a standard stream: the total, or none after a short or failed write.
unfoldable pub stdio_write_loop : ℕ → List ℕ → List Buffer → ℕ → Stdio → Option ℕ × Stdio
stdio_write_loop fd mem [] total io = (some total, io)
stdio_write_loop fd mem (b ∷ bs) total io =
    let bytes = buffer_bytes mem b in
    let ((n, fine), later) = next_answer (length bytes) io.answers in
    let io' = record io { answers = later; sent = io.sent ++ (fd, bytes) ∷ [] } in
    let rest = stdio_write_loop fd mem bs (u32 (total + n)) io' in
    if fine && n == length bytes then rest else (none, io')

unfoldable pub write_stdio : Plugin → Module → ℕ → List Buffer → ℕ → Outcome
unfolding stdio_write_loop
write_stdio p m fd buffers written_ptr =
    let (total, io) = stdio_write_loop fd m.memory buffers 0 p.stdio in
    let p' = record p { stdio = io } in
    elim total [
      | none ↦ refuse p' m (wasi_errno err_inval)
      | some n ↦ record {
        plugin = p';
        memory = put_u32 m.memory written_ptr n;
        result = wasi_errno 0;
      }
    ]

unfoldable pub wasi_fd_write : Plugin → Module → ℕ → ℕ → ℕ → ℕ → Outcome
unfolding guest_iovecs write_stdio write_on with_file_system
wasi_fd_write p m p0 p1 p2 p3 = elim (guest_iovecs m.memory (u32 p1) (u32 p2)) [
  | none ↦ refuse p m (wasi_errno err_fault)
  | some buffers ↦
      if ltb (length m.memory) (u32 p3 + 4)
      then refuse p m (wasi_errno err_fault)
      else if u32 p0 == 1 || u32 p0 == 2
      then write_stdio p m (u32 p0) buffers (u32 p3)
      else with_file_system p m (wasi_errno err_bad_fd)
          (write_on p.limits (u32 p0) buffers (u32 p3))
]

-- The loop of `wasiFDRead` on stdin: `reader.Read(vector)` delivers at most the vector's length.
unfoldable pub stdio_read_loop :
    List Buffer → List ℕ → ℕ → List (List ℕ) → List ℕ × ℕ × List (List ℕ)
unfolding write_at
stdio_read_loop [] mem total chunks = (mem, total, chunks)
stdio_read_loop (b ∷ bs) mem total [] =
    let rest = stdio_read_loop bs mem total [] in if b.size == 0 then rest else (mem, total, [])
stdio_read_loop (b ∷ bs) mem total (c ∷ cs) =
    let got = take b.size c in
    let mem' = write_at mem b.base got in
    let total' = u32 (total + length got) in
    let rest = stdio_read_loop bs mem' total' cs in
    if ltb (length got) b.size then (mem', total', cs) else rest

unfoldable pub read_stdio : Plugin → Module → List Buffer → ℕ → Outcome
unfolding stdio_read_loop
read_stdio p m buffers read_ptr =
    let io = p.stdio in
    let (mem, total, later) = stdio_read_loop buffers m.memory 0 io.chunks in
    record {
      plugin = record p { stdio = record io { chunks = later } };
      memory = put_u32 mem read_ptr total;
      result = wasi_errno 0;
    }

unfoldable pub wasi_fd_read : Plugin → Module → ℕ → ℕ → ℕ → ℕ → Outcome
unfolding guest_iovecs read_stdio read_on with_file_system
wasi_fd_read p m p0 p1 p2 p3 = elim (guest_iovecs m.memory (u32 p1) (u32 p2)) [
  | none ↦ refuse p m (wasi_errno err_fault)
  | some buffers ↦
      if ltb (length m.memory) (u32 p3 + 4)
      then refuse p m (wasi_errno err_fault)
      else if u32 p0 == 0
      then read_stdio p m buffers (u32 p3)
      else with_file_system p m (wasi_errno err_bad_fd) (read_on (u32 p0) buffers (u32 p3))
]

-- The base of a seek: the start, the offset or the end of the file.
unfoldable pub seek_base : ℕ → OpenFile → FileSystem → Option ℕ
unfolding deref
seek_base whence h fs =
    if whence == 0
    then some 0
    else if whence == 1
    then some h.offset
    else if whence == 2
    then some (size_of (deref fs.heap h.file))
    else none

unfoldable pub seek_on : ℕ → ℕ → ℕ → ℕ → List ℕ → FileSystem → Reply
unfolding seek_base
seek_on fd delta whence result_ptr mem fs = elim (lookup fd fs.fds) [
  | none ↦ answer mem fs (wasi_errno err_bad_fd)
  | some h ↦ elim (seek_base whence h fs) [
    | none ↦ answer mem fs (wasi_errno err_inval)
    | some base ↦
        if i64_lt delta (i64_sub 0 base)
        then answer mem fs (wasi_errno err_inval)
        else let at = i64_add base delta in
          answer (put_u64 mem result_ptr at) (set_handle fd (record h { offset = at }) fs)
            (wasi_errno 0)
  ]
]

unfoldable pub wasi_fd_seek : Plugin → Module → ℕ → ℕ → ℕ → ℕ → Outcome
unfolding seek_on with_file_system
wasi_fd_seek p m p0 p1 p2 p3 =
    if ltb (length m.memory) (u32 p3 + 8)
    then refuse p m (wasi_errno err_fault)
    else with_file_system p m (wasi_errno err_bad_fd) (seek_on (u32 p0) (u64 p1) (u32 p2) (u32 p3))

-- `h.offset = offset` on the caller's handle.
unfoldable pub move_handle : ℕ → ℕ → FileSystem → FileSystem
move_handle fd offset fs = elim (lookup fd fs.fds) [
  | none ↦ fs
  | some h ↦ set_handle fd (record h { offset = offset }) fs
]

unfoldable pub move_caller : Plugin → Module → ℕ → ℕ → Plugin
unfolding move_handle with_file_system
move_caller p m fd offset =
    let o =
      with_file_system p m (value 0) (λ mem fs. answer mem (move_handle fd offset fs) (value 0)) in
    o.plugin

-- `wasiPositionedIO`: the call is made with the handle moved, and the handle is moved back. A panic
-- in the call leaves it where it was moved.
unfoldable pub wasi_positioned_io :
    (Plugin → Module → ℕ → ℕ → ℕ → ℕ → Outcome) → Plugin → Module → ℕ → ℕ → ℕ → ℕ → ℕ → Outcome
unfolding move_caller file_system with_file_system
wasi_positioned_io call p m p0 p1 p2 p3 p4 = elim (file_system p m) [
  | none ↦ refuse p m (wasi_errno err_bad_fd)
  | some (id, fs) ↦
      let refused =
        with_file_system p m (wasi_errno err_inval)
          (λ mem fs. answer mem fs (wasi_errno err_inval)) in
      elim (lookup (u32 p0) fs.fds) [
        | none ↦ refused
        | some h ↦
            if i64_lt (u64 p3) 0
            then refused
            else let o = call (move_caller p m (u32 p0) (u64 p3)) m p0 p1 p2 p4 in
              elim o.result [
                | panic ↦ o
                | value v ↦ record o { plugin = move_caller o.plugin m (u32 p0) h.offset }
              ]
      ]
]

unfoldable pub wasi_fd_pwrite : Plugin → Module → ℕ → ℕ → ℕ → ℕ → ℕ → Outcome
unfolding wasi_positioned_io wasi_fd_write
wasi_fd_pwrite = wasi_positioned_io wasi_fd_write

unfoldable pub wasi_fd_pread : Plugin → Module → ℕ → ℕ → ℕ → ℕ → ℕ → Outcome
unfolding wasi_positioned_io wasi_fd_read
wasi_fd_pread = wasi_positioned_io wasi_fd_read
