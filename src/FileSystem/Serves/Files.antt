-- ===== src/FileSystem/Serves/Files.antt =====
-- The calls on descriptors and names serve their caller.
use wago_emscripten.Common.{ℕ, inl, inr, Bool-cases, Option-cases, ◌==◌, u32, i32_lt, bit_and}
use wago_emscripten.Memory.{c_string}
use wago_emscripten.Paths.{clean_guest_path}
use wago_emscripten.FileSystem.{err_bad_fd}
use wago_emscripten.FileSystem.Reply.{neg_errno, wasi_errno, Plugin, Module}
use wago_emscripten.FileSystem.Descriptors.{
  openat_on, syscall_openat, fcntl_on, close_on, set_flags_on, syscall_fcntl, syscall_dup, dup3_on,
  syscall_dup3, is_stdio, wasi_fd_close, wasi_fd_set_flags, check_fd, syscall_fchmod,
  syscall_fdatasync, wasi_fd_sync,
}
use wago_emscripten.FileSystem.Names.{
  access_on, mkdir_on, rename_on, syscall_faccessat, syscall_chmod, syscall_utimensat,
  syscall_mkdirat, unlink_on, rmdir_on, syscall_unlinkat, syscall_renameat,
}
use wago_emscripten.FileSystem.Invariant.Handles.{
  fcntl_on-IsValid, dup3_on-IsValid, close_on-IsValid, set_flags_on-IsValid, check_fd-IsValid,
}
use wago_emscripten.FileSystem.Invariant.Opens.{openat_on-IsValid}
use wago_emscripten.FileSystem.Invariant.Names.{
  access_on-IsValid, mkdir_on-IsValid, rmdir_on-IsValid, unlink_on-IsValid, rename_on-IsValid,
}
use wago_emscripten.FileSystem.Serves.{Serves, refuse-Serves, with_file_system-Serves}

module _ (p : Plugin) (m : Module) where
  pub syscall_openat-Serves : (p1 p2 : ℕ) → Serves p m (syscall_openat p m p1 p2)
  unfolding syscall_openat
  syscall_openat-Serves p1 p2 = elim (Option-cases (c_string m.memory (u32 p1))) [
    | inl z ↦ rw (z, syscall_openat) (refuse-Serves p m _)
    | inr (text, z) ↦
        rw (z, syscall_openat)
          (elim (Option-cases (clean_guest_path text)) [
            | inl y ↦ rw y (refuse-Serves p m _)
            | inr (name, y) ↦ rw y (
                with_file_system-Serves p m _ (openat_on p.limits name (u32 p2))
                  (λ s mem fs. openat_on-IsValid p.limits s.limits_ok name (u32 p2) mem fs))
          ])
  ]

  pub syscall_fcntl-Serves : (p0 p1 p2 : ℕ) → Serves p m (syscall_fcntl p m p0 p1 p2)
  unfolding syscall_fcntl
  syscall_fcntl-Serves p0 p1 p2 =
      with_file_system-Serves p m _ (fcntl_on p.limits (u32 p0) (u32 p1) (u32 p2))
        (λ s mem fs. fcntl_on-IsValid p.limits s.limits_ok (u32 p0) (u32 p1) (u32 p2) mem fs)

  pub syscall_dup-Serves : (p0 : ℕ) → Serves p m (syscall_dup p m p0)
  unfolding syscall_dup
  syscall_dup-Serves p0 = syscall_fcntl-Serves p0 0 3

  pub syscall_dup3-Serves : (p0 p1 : ℕ) → Serves p m (syscall_dup3 p m p0 p1)
  unfolding syscall_dup3
  syscall_dup3-Serves p0 p1 = elim (Bool-cases (u32 p0 == u32 p1)) [
    | inl e ↦ rw e (refuse-Serves p m _)
    | inr differ ↦ rw differ (elim (Bool-cases (i32_lt (u32 p1) 3)) [
      | inl e ↦ rw e (refuse-Serves p m _)
      | inr e ↦ rw e (
          with_file_system-Serves p m _ (dup3_on p.limits (u32 p0) (u32 p1))
            (λ s mem fs. dup3_on-IsValid p.limits s.limits_ok (u32 p0) (u32 p1) mem fs differ))
    ])
  ]

  pub wasi_fd_close-Serves : (p0 : ℕ) → Serves p m (wasi_fd_close p m p0)
  unfolding wasi_fd_close
  wasi_fd_close-Serves p0 = elim (Bool-cases (is_stdio (u32 p0))) [
    | inl e ↦ rw e (refuse-Serves p m _)
    | inr e ↦ rw e (
        with_file_system-Serves p m _ (close_on (u32 p0))
          (λ s mem fs. close_on-IsValid p.limits s.limits_ok (u32 p0) mem fs))
  ]

  pub wasi_fd_set_flags-Serves : (p0 p1 : ℕ) → Serves p m (wasi_fd_set_flags p m p0 p1)
  unfolding wasi_fd_set_flags
  wasi_fd_set_flags-Serves p0 p1 =
      with_file_system-Serves p m _ (set_flags_on (u32 p0) (u32 p1))
        (λ s mem fs. set_flags_on-IsValid p.limits s.limits_ok (u32 p0) (u32 p1) mem fs)

  pub syscall_fchmod-Serves : (p0 : ℕ) → Serves p m (syscall_fchmod p m p0)
  unfolding syscall_fchmod
  syscall_fchmod-Serves p0 = elim (Bool-cases (is_stdio (u32 p0))) [
    | inl e ↦ rw e (refuse-Serves p m _)
    | inr e ↦ rw e (
        with_file_system-Serves p m _ (check_fd (neg_errno err_bad_fd) (u32 p0))
          (λ s mem fs. check_fd-IsValid p.limits s.limits_ok _ (u32 p0) mem fs))
  ]

  pub syscall_fdatasync-Serves : (p0 : ℕ) → Serves p m (syscall_fdatasync p m p0)
  unfolding syscall_fdatasync
  syscall_fdatasync-Serves p0 = elim (Bool-cases (is_stdio (u32 p0))) [
    | inl e ↦ rw e (refuse-Serves p m _)
    | inr e ↦ rw e (
        with_file_system-Serves p m _ (check_fd (neg_errno err_bad_fd) (u32 p0))
          (λ s mem fs. check_fd-IsValid p.limits s.limits_ok _ (u32 p0) mem fs))
  ]

  pub wasi_fd_sync-Serves : (p0 : ℕ) → Serves p m (wasi_fd_sync p m p0)
  unfolding wasi_fd_sync
  wasi_fd_sync-Serves p0 = elim (Bool-cases (is_stdio (u32 p0))) [
    | inl e ↦ rw e (refuse-Serves p m _)
    | inr e ↦ rw e (
        with_file_system-Serves p m _ (check_fd (wasi_errno err_bad_fd) (u32 p0))
          (λ s mem fs. check_fd-IsValid p.limits s.limits_ok _ (u32 p0) mem fs))
  ]

  pub syscall_faccessat-Serves : (p1 : ℕ) → Serves p m (syscall_faccessat p m p1)
  unfolding syscall_faccessat
  syscall_faccessat-Serves p1 = elim (Option-cases (c_string m.memory (u32 p1))) [
    | inl z ↦ rw (z, syscall_faccessat) (refuse-Serves p m _)
    | inr (text, z) ↦
        rw (z, syscall_faccessat)
          (elim (Option-cases (clean_guest_path text)) [
            | inl y ↦ rw y (refuse-Serves p m _)
            | inr (name, y) ↦ rw y (
                with_file_system-Serves p m _ (access_on name)
                  (λ s mem fs. access_on-IsValid p.limits s.limits_ok name mem fs))
          ])
  ]

  pub syscall_chmod-Serves : (p0 : ℕ) → Serves p m (syscall_chmod p m p0)
  unfolding syscall_chmod
  syscall_chmod-Serves p0 = syscall_faccessat-Serves p0

  pub syscall_utimensat-Serves : (p1 : ℕ) → Serves p m (syscall_utimensat p m p1)
  unfolding syscall_utimensat
  syscall_utimensat-Serves p1 = syscall_faccessat-Serves p1

  pub syscall_mkdirat-Serves : (p1 : ℕ) → Serves p m (syscall_mkdirat p m p1)
  unfolding syscall_mkdirat
  syscall_mkdirat-Serves p1 = elim (Option-cases (c_string m.memory (u32 p1))) [
    | inl z ↦ rw (z, syscall_mkdirat) (refuse-Serves p m _)
    | inr (text, z) ↦
        rw (z, syscall_mkdirat)
          (elim (Option-cases (clean_guest_path text)) [
            | inl y ↦ rw y (refuse-Serves p m _)
            | inr (name, y) ↦ rw y (
                with_file_system-Serves p m _ (mkdir_on name)
                  (λ s mem fs. mkdir_on-IsValid p.limits s.limits_ok name mem fs))
          ])
  ]

  pub syscall_unlinkat-Serves : (p1 p2 : ℕ) → Serves p m (syscall_unlinkat p m p1 p2)
  unfolding syscall_unlinkat
  syscall_unlinkat-Serves p1 p2 = elim (Option-cases (c_string m.memory (u32 p1))) [
    | inl z ↦ rw (z, syscall_unlinkat) (refuse-Serves p m _)
    | inr (text, z) ↦
        rw (z, syscall_unlinkat)
          (elim (Option-cases (clean_guest_path text)) [
            | inl y ↦ rw y (refuse-Serves p m _)
            | inr (name, y) ↦ rw y (elim (Bool-cases (bit_and (u32 p2) 0x200 == 0)) [
              | inl e ↦ rw e (
                  with_file_system-Serves p m _ (unlink_on name)
                    (λ s mem fs. unlink_on-IsValid p.limits s.limits_ok name mem fs))
              | inr e ↦ rw e (
                  with_file_system-Serves p m _ (rmdir_on name)
                    (λ s mem fs. rmdir_on-IsValid p.limits s.limits_ok name mem fs))
            ])
          ])
  ]

  pub syscall_renameat-Serves : (p1 p3 : ℕ) → Serves p m (syscall_renameat p m p1 p3)
  unfolding syscall_renameat
  syscall_renameat-Serves p1 p3 = elim (Option-cases (c_string m.memory (u32 p1))) [
    | inl z ↦ rw (z, syscall_renameat) (refuse-Serves p m _)
    | inr (a, z) ↦
        rw (z, syscall_renameat)
          (elim (Option-cases (c_string m.memory (u32 p3))) [
            | inl z' ↦ rw z' (refuse-Serves p m _)
            | inr (b, z') ↦ rw z' (elim (Option-cases (clean_guest_path a)) [
              | inl y ↦ rw y (refuse-Serves p m _)
              | inr (old, y) ↦ rw y (elim (Option-cases (clean_guest_path b)) [
                | inl y' ↦ rw y' (refuse-Serves p m _)
                | inr (new, y') ↦ rw y' (
                    with_file_system-Serves p m _ (rename_on old new)
                      (λ s mem fs. rename_on-IsValid p.limits s.limits_ok old new mem fs))
              ])
            ])
          ])
  ]
