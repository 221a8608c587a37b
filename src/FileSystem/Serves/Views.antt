-- ===== src/FileSystem/Serves/Views.antt =====
-- Positioned calls, metadata and mappings serve their caller.
use wago_emscripten.Common.{
  ℕ, ◌+◌, ◌≡◌, ◌||◌, refl, inl, inr, List, length, Bool-cases, Option-cases, ltb, lookup, nat_eq,
  bytes_key, bytes_eq, u32, u64, i64_lt, ◌∷◌, [],
}
use wago_emscripten.Memory.{c_string}
use wago_emscripten.Paths.{clean}
use wago_emscripten.FileSystem.{FileSystem, OpenFile, deref, size_of, is_dir, err_bad_fd, err_inval}
use wago_emscripten.FileSystem.Reply.{
  Result, value, panic, wasi_errno, answer, Plugin, Module, Outcome, file_system, with_file_system,
}
use wago_emscripten.FileSystem.Descriptors.{is_stdio}
use wago_emscripten.FileSystem.Streams.{
  wasi_fd_write, wasi_fd_read, move_handle, move_caller, wasi_positioned_io, wasi_fd_pwrite,
  wasi_fd_pread,
}
use wago_emscripten.FileSystem.Stat.{
  write_stat, answer_stat, stat_path_on, stat_path, syscall_stat, syscall_newfstatat, fstat_on,
  syscall_fstat, above_stdio, fd_stat_on, file_stat_on, wasi_fd_stat_get, wasi_file_stat_get,
  syscall_getcwd, mode_regular, mode_directory, mode_device,
}
use wago_emscripten.FileSystem.Invariant.Writes.{move_handle-IsValid}
use wago_emscripten.FileSystem.Serves.{
  Serves, refuse-Serves, unchanged-Serves, with_file_system-Serves, then-Serves,
}
use wago_emscripten.FileSystem.Serves.Data.{only_answers, wasi_fd_write-Serves, wasi_fd_read-Serves}

-- Moving the caller's handle, as a call of its own.
abbrev moved : Plugin → Module → ℕ → ℕ → Outcome
moved p m fd offset =
    with_file_system p m (value 0) (λ mem fs. answer mem (move_handle fd offset fs) (value 0))

moved-Serves : (p : Plugin) (m : Module) (fd offset : ℕ) → Serves p m (moved p m fd offset)
moved-Serves p m fd offset =
    with_file_system-Serves p m (value 0)
      (λ mem fs. answer mem (move_handle fd offset fs) (value 0))
      (λ s mem fs. move_handle-IsValid p.limits s.limits_ok fd offset fs)

-- The end of a positioned call.
abbrev put_back : Result → Module → ℕ → ℕ → Outcome → Outcome
put_back r m fd offset o = elim r [
  | panic ↦ o
  | value v ↦ record o { plugin = (moved o.plugin m fd offset).plugin }
]

put_back-Serves :
    (p : Plugin) (m : Module) (fd offset : ℕ) (o : Outcome) (r : Result)
    → Serves p m o
    → Serves p m (put_back r m fd offset o)
put_back-Serves p m fd offset o panic s = s
put_back-Serves p m fd offset o (value v) s =
    let t = then-Serves p m o (moved o.plugin m fd offset) s (moved-Serves o.plugin m fd offset) in
    record { same_limits = t.same_limits; still_sound = t.still_sound; others = t.others }

answer_stat-fs :
    (mem : List ℕ) (fs : FileSystem) (ptr mode size : ℕ)
    → (answer_stat mem fs ptr mode size).fs ≡ fs
answer_stat-fs mem fs ptr mode size = elim (Option-cases (write_stat mem ptr mode size)) [
  | inl z ↦ rw (z, answer_stat)
  | inr (mem', z) ↦ rw (z, answer_stat)
]

module _ (p : Plugin) (m : Module) where
  wasi_positioned_io-Serves :
      (call : Plugin → Module → ℕ → ℕ → ℕ → ℕ → Outcome)
      → ((q : Plugin) (a b c d : ℕ) → Serves q m (call q m a b c d))
      → (p0 p1 p2 p3 p4 : ℕ) → Serves p m (wasi_positioned_io call p m p0 p1 p2 p3 p4)
  unfolding wasi_positioned_io move_caller
  wasi_positioned_io-Serves call serves p0 p1 p2 p3 p4 = elim (Option-cases (file_system p m)) [
    | inl z ↦ rw (z, wasi_positioned_io) (refuse-Serves p m (wasi_errno err_bad_fd))
    | inr ((id, fs), z) ↦
        rw (z, wasi_positioned_io)
          (elim (Option-cases (lookup (u32 p0) fs.fds)) [
            | inl y ↦ rw y refused
            | inr (h, y) ↦ rw y (elim (Bool-cases (i64_lt (u64 p3) 0)) [
              | inl e ↦ rw e refused
              | inr e ↦ rw e (
                  restored h (call (moved p m (u32 p0) (u64 p3)).plugin m p0 p1 p2 p4)
                    (serves _ p0 p1 p2 p4))
            ])
          ])
  ]
    where
      refused : Serves p m (
          with_file_system p m
            (wasi_errno err_inval)
            (λ mem fs. answer mem fs (wasi_errno err_inval)))
      refused =
          only_answers p m (wasi_errno err_inval) (λ mem fs. answer mem fs (wasi_errno err_inval))
            (λ mem fs. refl)

      restored :
          (h : OpenFile) (o : Outcome)
          → Serves (moved p m (u32 p0) (u64 p3)).plugin m o
          → Serves p m (put_back o.result m (u32 p0) h.offset o)
      restored h o s =
          put_back-Serves p m (u32 p0) h.offset o o.result
            (then-Serves p m (moved p m (u32 p0) (u64 p3)) o (moved-Serves p m (u32 p0) (u64 p3)) s)

  pub wasi_fd_pwrite-Serves : (p0 p1 p2 p3 p4 : ℕ) → Serves p m (wasi_fd_pwrite p m p0 p1 p2 p3 p4)
  unfolding wasi_fd_pwrite
  wasi_fd_pwrite-Serves p0 p1 p2 p3 p4 =
      wasi_positioned_io-Serves wasi_fd_write (λ q a b c d. wasi_fd_write-Serves q m a b c d) p0 p1
        p2 p3 p4

  pub wasi_fd_pread-Serves : (p0 p1 p2 p3 p4 : ℕ) → Serves p m (wasi_fd_pread p m p0 p1 p2 p3 p4)
  unfolding wasi_fd_pread
  wasi_fd_pread-Serves p0 p1 p2 p3 p4 =
      wasi_positioned_io-Serves wasi_fd_read (λ q a b c d. wasi_fd_read-Serves q m a b c d) p0 p1 p2
        p3 p4

  fstat_on-fs : (fd ptr : ℕ) (mem : List ℕ) (fs : FileSystem) → (fstat_on fd ptr mem fs).fs ≡ fs
  unfolding fstat_on
  fstat_on-fs fd ptr mem fs = elim (Option-cases (lookup fd fs.fds)) [
    | inl z ↦ rw (z, fstat_on)
    | inr (h, z) ↦
        rw (z, fstat_on) (answer_stat-fs mem fs ptr mode_regular (size_of (deref fs.heap h.file)))
  ]

  stat_path_on-fs :
      (name : List ℕ) (ptr : ℕ) (mem : List ℕ) (fs : FileSystem)
      → (stat_path_on name ptr mem fs).fs ≡ fs
  unfolding stat_path_on
  stat_path_on-fs name ptr mem fs = elim (Option-cases (lookup name fs.files)) [
    | inr (q, z) ↦
        rw (z, stat_path_on) (answer_stat-fs mem fs ptr mode_regular (size_of (deref fs.heap q)))
    | inl z ↦
        rw (z, stat_path_on)
          (elim (Bool-cases (is_dir fs name)) [
            | inl d ↦ rw d (answer_stat-fs mem fs ptr mode_directory 0)
            | inr d ↦ rw d
          ])
  ]

  pub syscall_fstat-Serves : (p0 p1 : ℕ) → Serves p m (syscall_fstat p m p0 p1)
  unfolding syscall_fstat
  syscall_fstat-Serves p0 p1 = elim (Bool-cases (is_stdio (u32 p0))) [
    | inl e ↦ rw e (elim (Option-cases (write_stat m.memory (u32 p1) mode_device 0)) [
      | inl z ↦ rw z (refuse-Serves p m _)
      | inr (mem, z) ↦ rw z (unchanged-Serves p m _ refl refl)
    ])
    | inr e ↦ rw e (only_answers p m _ (fstat_on (u32 p0) (u32 p1)) (fstat_on-fs (u32 p0) (u32 p1)))
  ]

  stat_path-Serves : (path_ptr stat_ptr : ℕ) → Serves p m (stat_path p m path_ptr stat_ptr)
  unfolding stat_path
  stat_path-Serves path_ptr stat_ptr = elim (Option-cases (c_string m.memory path_ptr)) [
    | inl z ↦ rw (z, stat_path) (refuse-Serves p m _)
    | inr (text, z) ↦
        rw (z, stat_path)
          (elim (Bool-cases (bytes_eq text [])) [
            | inl e ↦ rw e (refuse-Serves p m _)
            | inr e ↦ rw e (
                only_answers p m _ (stat_path_on (clean (b'/' ∷ text)) stat_ptr)
                  (stat_path_on-fs (clean (b'/' ∷ text)) stat_ptr))
          ])
  ]

  pub syscall_stat-Serves : (p0 p1 : ℕ) → Serves p m (syscall_stat p m p0 p1)
  unfolding syscall_stat
  syscall_stat-Serves p0 p1 = stat_path-Serves (u32 p0) (u32 p1)

  pub syscall_newfstatat-Serves : (p1 p2 : ℕ) → Serves p m (syscall_newfstatat p m p1 p2)
  unfolding syscall_newfstatat
  syscall_newfstatat-Serves p1 p2 = stat_path-Serves (u32 p1) (u32 p2)

  pub wasi_fd_stat_get-Serves : (p0 p1 : ℕ) → Serves p m (wasi_fd_stat_get p m p0 p1)
  unfolding wasi_fd_stat_get
  wasi_fd_stat_get-Serves p0 p1 = elim (Bool-cases (ltb (length m.memory) (u32 p1 + 24))) [
    | inl e ↦ rw e (refuse-Serves p m _)
    | inr e ↦ rw e (elim (Bool-cases (above_stdio (u32 p0))) [
      | inl d ↦ rw d (
          only_answers p m _ (fd_stat_on (u32 p0) (u32 p1)) (λ mem fs.
            elim (Option-cases (lookup (u32 p0) fs.fds)) [
              | inl z ↦ rw (z, fd_stat_on)
              | inr (h, z) ↦ rw (z, fd_stat_on)
            ]))
      | inr d ↦ rw d (unchanged-Serves p m _ refl refl)
    ])
  ]

  pub wasi_file_stat_get-Serves : (p0 p1 : ℕ) → Serves p m (wasi_file_stat_get p m p0 p1)
  unfolding wasi_file_stat_get
  wasi_file_stat_get-Serves p0 p1 = elim (Bool-cases (ltb (length m.memory) (u32 p1 + 64))) [
    | inl e ↦ rw e (refuse-Serves p m _)
    | inr e ↦ rw e (elim (Bool-cases (above_stdio (u32 p0))) [
      | inl d ↦ rw d (
          only_answers p m _ (file_stat_on (u32 p0) (u32 p1)) (λ mem fs.
            elim (Option-cases (lookup (u32 p0) fs.fds)) [
              | inl z ↦ rw (z, file_stat_on)
              | inr (h, z) ↦ rw (z, file_stat_on)
            ]))
      | inr d ↦ rw d (unchanged-Serves p m _ refl refl)
    ])
  ]

  pub syscall_getcwd-Serves : (p0 p1 : ℕ) → Serves p m (syscall_getcwd p m p0 p1)
  unfolding syscall_getcwd
  syscall_getcwd-Serves p0 p1 =
      elim (Bool-cases (ltb (u32 p1) 2 || ltb (length m.memory) (u32 p0 + 2))) [
        | inl e ↦ rw e (refuse-Serves p m _)
        | inr e ↦ rw e (unchanged-Serves p m _ refl refl)
      ]
