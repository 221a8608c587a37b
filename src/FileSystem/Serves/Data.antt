-- ===== src/FileSystem/Serves/Data.antt =====
-- The calls on contents, sizes, metadata and mappings serve their caller.
use wago_emscripten.Common.{
  ℕ, ◌+◌, ◌^◌, ◌≤◌, ◌<◌, false, ◌≡◌, ◌||◌, refl, sym, subst, inl, inr, List, length, Bool-cases,
  Option-cases, ◌==◌, ltb, lookup, nat_eq, u32, u64, i64_lt, i64_add, arith,
}
use wago_emscripten.Memory.{c_string}
use wago_emscripten.Paths.{clean_guest_path}
use wago_emscripten.FileSystem.{FileSystem, deref, size_of, err_bad_fd}
use wago_emscripten.FileSystem.Reply.{
  Result, value, neg_errno, wasi_errno, Reply, answer, Limits, Plugin, Module, Outcome, file_system,
  with_file_system,
}
use wago_emscripten.FileSystem.Sizes.{
  bad_size, bad_range, ftruncate_on, syscall_ftruncate, truncate_on, syscall_truncate, grow_to,
  syscall_fallocate, wasi_fd_set_size, wasi_fd_allocate,
}
use wago_emscripten.FileSystem.ReadWrite.{Buffer, guest_iovecs, write_on, read_on}
use wago_emscripten.FileSystem.Streams.{
  write_stdio, wasi_fd_write, read_stdio, wasi_fd_read, wasi_fd_seek, seek_on, stdio_write_loop,
}
use wago_emscripten.FileSystem.Invariant.{IsLimits, IsValid}
use wago_emscripten.FileSystem.Invariant.Sizes.{ftruncate_on-IsValid, truncate_on-IsValid}
use wago_emscripten.FileSystem.Invariant.Writes.{write_on-IsValid, read_on-IsValid, seek_on-IsValid}
use wago_emscripten.FileSystem.Serves.{
  Serves, refuse-Serves, unchanged-Serves, with_file_system-Serves,
}

-- A size that passes the guard is within the quota.
good_size :
    (l : Limits) (size : ℕ)
    → IsLimits l
    → size < 2 ^ 64
    → bad_size l size ≡ false
    → size ≤ l.max_filesystem_bytes
good_size l size h word e = ground (arith, h.small)

module _ (p : Plugin) (m : Module) where
  pub syscall_ftruncate-Serves : (p0 p1 : ℕ) → Serves p m (syscall_ftruncate p m p0 p1)
  unfolding syscall_ftruncate
  syscall_ftruncate-Serves p0 p1 = elim (Bool-cases (bad_size p.limits (u64 p1))) [
    | inl e ↦ rw e (refuse-Serves p m _)
    | inr e ↦ rw e (
        with_file_system-Serves p m _ (ftruncate_on p.limits (u32 p0) (u64 p1)) (λ s mem fs.
          ftruncate_on-IsValid p.limits s.limits_ok (u32 p0) (u64 p1) mem fs
            (good_size p.limits (u64 p1) s.limits_ok (omega arith) e)))
  ]

  pub syscall_truncate-Serves : (p0 p1 : ℕ) → Serves p m (syscall_truncate p m p0 p1)
  unfolding syscall_truncate
  syscall_truncate-Serves p0 p1 = elim (Option-cases (c_string m.memory (u32 p0))) [
    | inl z ↦ rw (z, syscall_truncate) (refuse-Serves p m _)
    | inr (text, z) ↦
        rw (z, syscall_truncate)
          (elim (Option-cases (clean_guest_path text)) [
            | inl y ↦ rw y (refuse-Serves p m _)
            | inr (name, y) ↦ rw y (elim (Bool-cases (bad_size p.limits (u64 p1))) [
              | inl e ↦ rw e (refuse-Serves p m _)
              | inr e ↦ rw e (
                  with_file_system-Serves p m _ (truncate_on p.limits name (u64 p1)) (λ s mem fs.
                    truncate_on-IsValid p.limits s.limits_ok name (u64 p1) mem fs
                      (good_size p.limits (u64 p1) s.limits_ok (omega arith) e)))
            ])
          ])
  ]

  -- A call that only answers leaves the filesystem as it is.
  pub only_answers :
      (r : Result) (f : List ℕ → FileSystem → Reply)
      → ((mem : List ℕ) (fs : FileSystem) → (f mem fs).fs ≡ fs)
      → Serves p m (with_file_system p m r f)
  only_answers r f same =
      with_file_system-Serves p m r f (λ s mem fs v. subst (IsValid p.limits) (sym (same mem fs)) v)

  grow_to-Serves :
      (fd end : ℕ) (bad enough : Result) (resize_by : Plugin → Module → ℕ → ℕ → Outcome)
      → Serves p m (resize_by p m fd end)
      → Serves p m (grow_to p m fd end bad enough resize_by)
  unfolding grow_to
  grow_to-Serves fd end bad enough resize_by serves = elim (Option-cases (file_system p m)) [
    | inl z ↦ rw (z, grow_to) (refuse-Serves p m bad)
    | inr ((id, fs), z) ↦
        rw (z, grow_to)
          (elim (Option-cases (lookup fd fs.fds)) [
            | inl y ↦ rw y (only_answers bad (λ mem fs. answer mem fs bad) (λ mem fs. refl))
            | inr (h, y) ↦ rw y (elim (Bool-cases (i64_lt (size_of (deref fs.heap h.file)) end)) [
              | inl e ↦ rw e serves
              | inr e ↦ rw e (only_answers bad (λ mem fs. answer mem fs enough) (λ mem fs. refl))
            ])
          ])
  ]

  pub syscall_fallocate-Serves : (p0 p1 p2 p3 : ℕ) → Serves p m (syscall_fallocate p m p0 p1 p2 p3)
  unfolding syscall_fallocate
  syscall_fallocate-Serves p0 p1 p2 p3 = elim (Bool-cases (u32 p1 == 0)) [
    | inr e ↦ rw e (refuse-Serves p m _)
    | inl e ↦ rw e (elim (Bool-cases (bad_range p.limits (u64 p2) (u64 p3))) [
      | inl bad ↦ rw bad (refuse-Serves p m _)
      | inr fine ↦ rw fine (
          grow_to-Serves (u32 p0) (i64_add p2 p3) (neg_errno err_bad_fd) (value 0) syscall_ftruncate
            (syscall_ftruncate-Serves (u32 p0) (i64_add p2 p3)))
    ])
  ]

  pub wasi_fd_set_size-Serves : (p0 p1 : ℕ) → Serves p m (wasi_fd_set_size p m p0 p1)
  unfolding wasi_fd_set_size
  wasi_fd_set_size-Serves p0 p1 =
      let s = syscall_ftruncate-Serves p0 p1 in
      record { same_limits = s.same_limits; still_sound = s.still_sound; others = s.others }

  pub wasi_fd_allocate-Serves : (p0 p1 p2 : ℕ) → Serves p m (wasi_fd_allocate p m p0 p1 p2)
  unfolding wasi_fd_allocate
  wasi_fd_allocate-Serves p0 p1 p2 = elim (Bool-cases (bad_range p.limits (u64 p1) (u64 p2))) [
    | inl e ↦ rw e (refuse-Serves p m _)
    | inr e ↦ rw e (
        grow_to-Serves (u32 p0) (i64_add p1 p2) (wasi_errno err_bad_fd) (wasi_errno 0)
          wasi_fd_set_size (wasi_fd_set_size-Serves (u32 p0) (i64_add p1 p2)))
  ]

  write_stdio-Serves :
      (fd : ℕ) (buffers : List Buffer) (written_ptr : ℕ)
      → Serves p m (write_stdio p m fd buffers written_ptr)
  unfolding write_stdio
  write_stdio-Serves fd buffers written_ptr =
      elim (Option-cases (stdio_write_loop fd m.memory buffers 0 p.stdio).0) [
        | inl e ↦ rw (e, write_stdio) (unchanged-Serves p m _ refl refl)
        | inr (n, e) ↦ rw (e, write_stdio) (unchanged-Serves p m _ refl refl)
      ]

  read_stdio-Serves :
      (buffers : List Buffer) (read_ptr : ℕ) → Serves p m (read_stdio p m buffers read_ptr)
  unfolding read_stdio
  read_stdio-Serves buffers read_ptr = unchanged-Serves p m _ refl refl

  pub wasi_fd_write-Serves : (p0 p1 p2 p3 : ℕ) → Serves p m (wasi_fd_write p m p0 p1 p2 p3)
  unfolding wasi_fd_write
  wasi_fd_write-Serves p0 p1 p2 p3 = elim (Option-cases (guest_iovecs m.memory (u32 p1) (u32 p2))) [
    | inl z ↦ rw (z, wasi_fd_write) (refuse-Serves p m _)
    | inr (buffers, z) ↦
        rw (z, wasi_fd_write)
          (elim (Bool-cases (ltb (length m.memory) (u32 p3 + 4))) [
            | inl e ↦ rw e (refuse-Serves p m _)
            | inr e ↦ rw e (elim (Bool-cases (u32 p0 == 1 || u32 p0 == 2)) [
              | inl d ↦ rw d (write_stdio-Serves (u32 p0) buffers (u32 p3))
              | inr d ↦ rw d (
                  with_file_system-Serves p m _ (write_on p.limits (u32 p0) buffers (u32 p3))
                    (λ s mem fs.
                      write_on-IsValid p.limits s.limits_ok (u32 p0) buffers (u32 p3) mem fs))
            ])
          ])
  ]

  pub wasi_fd_read-Serves : (p0 p1 p2 p3 : ℕ) → Serves p m (wasi_fd_read p m p0 p1 p2 p3)
  unfolding wasi_fd_read
  wasi_fd_read-Serves p0 p1 p2 p3 = elim (Option-cases (guest_iovecs m.memory (u32 p1) (u32 p2))) [
    | inl z ↦ rw (z, wasi_fd_read) (refuse-Serves p m _)
    | inr (buffers, z) ↦
        rw (z, wasi_fd_read)
          (elim (Bool-cases (ltb (length m.memory) (u32 p3 + 4))) [
            | inl e ↦ rw e (refuse-Serves p m _)
            | inr e ↦ rw e (elim (Bool-cases (u32 p0 == 0)) [
              | inl d ↦ rw d (read_stdio-Serves buffers (u32 p3))
              | inr d ↦ rw d (
                  with_file_system-Serves p m _ (read_on (u32 p0) buffers (u32 p3)) (λ s mem fs.
                    read_on-IsValid p.limits s.limits_ok (u32 p0) buffers (u32 p3) mem fs))
            ])
          ])
  ]

  pub wasi_fd_seek-Serves : (p0 p1 p2 p3 : ℕ) → Serves p m (wasi_fd_seek p m p0 p1 p2 p3)
  unfolding wasi_fd_seek
  wasi_fd_seek-Serves p0 p1 p2 p3 = elim (Bool-cases (ltb (length m.memory) (u32 p3 + 8))) [
    | inl e ↦ rw e (refuse-Serves p m _)
    | inr e ↦ rw e (
        with_file_system-Serves p m _ (seek_on (u32 p0) (u64 p1) (u32 p2) (u32 p3)) (λ s mem fs.
          seek_on-IsValid p.limits s.limits_ok (u32 p0) (u64 p1) (u32 p2) (u32 p3) mem fs))
  ]
