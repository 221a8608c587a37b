-- ===== src/FileSystem/Calls/Runs.antt =====
-- Every host import, and every sequence of them by any instances, keeps the plugin sound.
use wago_emscripten.Common.{ℕ, ◌+◌, refl, length, nat_eq, Bool-cases, inl, inr, ltb, ◌||◌, ◌*◌, u32}
use wago_emscripten.FileSystem.Reply.{Plugin, Module}
use wago_emscripten.FileSystem.Environ.{env_size, wasi_environ_sizes_get, wasi_environ_get}
use wago_emscripten.FileSystem.Mappings.{Memalign}
use wago_emscripten.FileSystem.Calls.{
  Call, dispatch, store_temp_ret0, load_temp_ret0, openat, fcntl64, dup3, dup, ioctl, fchmod,
  fdatasync, fadvise64, chmod, readlinkat, faccessat, mkdirat, unlinkat, rmdir, renameat, getcwd,
  fstat64, stat64, lstat64, newfstatat, fallocate, truncate64, utimensat, fd_write, fd_read,
  fd_close, fd_seek, fd_fdstat_get, fd_filestat_get, fd_sync, fd_datasync, fd_fdstat_set_flags,
  fd_filestat_set_size, fd_pread, fd_pwrite, fd_advise, fd_allocate, environ_sizes_get, environ_get,
  ftruncate64, munmap_js, mmap_js, mmap_js_i64,
}
use wago_emscripten.FileSystem.Serves.{IsSound, Serves, refuse-Serves, unchanged-Serves}
use wago_emscripten.FileSystem.Serves.Files.{
  syscall_chmod-Serves, syscall_dup-Serves, syscall_dup3-Serves, syscall_faccessat-Serves,
  syscall_fchmod-Serves, syscall_fcntl-Serves, syscall_fdatasync-Serves, syscall_mkdirat-Serves,
  syscall_openat-Serves, syscall_renameat-Serves, syscall_unlinkat-Serves, syscall_utimensat-Serves,
  wasi_fd_close-Serves, wasi_fd_set_flags-Serves, wasi_fd_sync-Serves,
}
use wago_emscripten.FileSystem.Serves.Data.{
  syscall_fallocate-Serves, syscall_ftruncate-Serves, syscall_truncate-Serves,
  wasi_fd_allocate-Serves, wasi_fd_read-Serves, wasi_fd_seek-Serves, wasi_fd_set_size-Serves,
  wasi_fd_write-Serves,
}
use wago_emscripten.FileSystem.Serves.Views.{
  syscall_fstat-Serves, syscall_getcwd-Serves, syscall_newfstatat-Serves, syscall_stat-Serves,
  wasi_fd_pread-Serves, wasi_fd_pwrite-Serves, wasi_fd_stat_get-Serves, wasi_file_stat_get-Serves,
}
use wago_emscripten.FileSystem.Serves.Maps.{
  get_temp_ret0-Serves, mmap32-Serves, mmap64-Serves, munmap-Serves, set_temp_ret0-Serves,
  syscall_ioctl-Serves, syscall_readlinkat-Serves,
}

wasi_environ_sizes_get-Serves :
    (p : Plugin) (m : Module) (p0 p1 : ℕ) → Serves p m (wasi_environ_sizes_get p m p0 p1)
unfolding wasi_environ_sizes_get
wasi_environ_sizes_get-Serves p m p0 p1 =
    elim (Bool-cases (ltb (length m.memory) (u32 p0 + 4) || ltb (length m.memory) (u32 p1 + 4))) [
      | inl e ↦ rw e (refuse-Serves p m _)
      | inr e ↦ rw e (unchanged-Serves p m _ refl refl)
    ]

wasi_environ_get-Serves :
    (p : Plugin) (m : Module) (p0 p1 : ℕ) → Serves p m (wasi_environ_get p m p0 p1)
unfolding wasi_environ_get
wasi_environ_get-Serves p m p0 p1 =
    elim (Bool-cases (
      ltb (length m.memory) (u32 p0 + length p.env * 4)
      || ltb (length m.memory) (u32 p1 + env_size p.env))) [
        | inl e ↦ rw e (refuse-Serves p m _)
        | inr e ↦ rw e (unchanged-Serves p m _ refl refl)
      ]

-- Every import serves its caller.
pub dispatch-Serves :
    (memalign : Memalign) (p : Plugin) (m : Module) (call : Call)
    → Serves p m (dispatch memalign p m call)
unfolding dispatch
dispatch-Serves memalign p m (store_temp_ret0 p0) = set_temp_ret0-Serves p m p0
dispatch-Serves memalign p m load_temp_ret0 = get_temp_ret0-Serves p m
dispatch-Serves memalign p m (openat p0 p1 p2 p3) = syscall_openat-Serves p m p1 p2
dispatch-Serves memalign p m (fcntl64 p0 p1 p2) = syscall_fcntl-Serves p m p0 p1 p2
dispatch-Serves memalign p m (dup3 p0 p1 p2) = syscall_dup3-Serves p m p0 p1
dispatch-Serves memalign p m (dup p0) = syscall_dup-Serves p m p0
dispatch-Serves memalign p m (ioctl p0 p1 p2) = syscall_ioctl-Serves p m
dispatch-Serves memalign p m (fchmod p0 p1) = syscall_fchmod-Serves p m p0
dispatch-Serves memalign p m (fdatasync p0) = syscall_fdatasync-Serves p m p0
dispatch-Serves memalign p m (fadvise64 p0 p1 p2 p3) = syscall_fdatasync-Serves p m p0
dispatch-Serves memalign p m (chmod p0 p1) = syscall_chmod-Serves p m p0
dispatch-Serves memalign p m (readlinkat p0 p1 p2 p3) = syscall_readlinkat-Serves p m
dispatch-Serves memalign p m (faccessat p0 p1 p2 p3) = syscall_faccessat-Serves p m p1
dispatch-Serves memalign p m (mkdirat p0 p1 p2) = syscall_mkdirat-Serves p m p1
dispatch-Serves memalign p m (unlinkat p0 p1 p2) = syscall_unlinkat-Serves p m p1 p2
dispatch-Serves memalign p m (rmdir p0) = syscall_unlinkat-Serves p m p0 0x200
dispatch-Serves memalign p m (renameat p0 p1 p2 p3) = syscall_renameat-Serves p m p1 p3
dispatch-Serves memalign p m (getcwd p0 p1) = syscall_getcwd-Serves p m p0 p1
dispatch-Serves memalign p m (fstat64 p0 p1) = syscall_fstat-Serves p m p0 p1
dispatch-Serves memalign p m (stat64 p0 p1) = syscall_stat-Serves p m p0 p1
dispatch-Serves memalign p m (lstat64 p0 p1) = syscall_stat-Serves p m p0 p1
dispatch-Serves memalign p m (newfstatat p0 p1 p2 p3) = syscall_newfstatat-Serves p m p1 p2
dispatch-Serves memalign p m (fallocate p0 p1 p2 p3) = syscall_fallocate-Serves p m p0 p1 p2 p3
dispatch-Serves memalign p m (truncate64 p0 p1) = syscall_truncate-Serves p m p0 p1
dispatch-Serves memalign p m (utimensat p0 p1 p2 p3) = syscall_utimensat-Serves p m p1
dispatch-Serves memalign p m (fd_write p0 p1 p2 p3) = wasi_fd_write-Serves p m p0 p1 p2 p3
dispatch-Serves memalign p m (fd_read p0 p1 p2 p3) = wasi_fd_read-Serves p m p0 p1 p2 p3
dispatch-Serves memalign p m (fd_close p0) = wasi_fd_close-Serves p m p0
dispatch-Serves memalign p m (fd_seek p0 p1 p2 p3) = wasi_fd_seek-Serves p m p0 p1 p2 p3
dispatch-Serves memalign p m (fd_fdstat_get p0 p1) = wasi_fd_stat_get-Serves p m p0 p1
dispatch-Serves memalign p m (fd_filestat_get p0 p1) = wasi_file_stat_get-Serves p m p0 p1
dispatch-Serves memalign p m (fd_sync p0) = wasi_fd_sync-Serves p m p0
dispatch-Serves memalign p m (fd_datasync p0) = wasi_fd_sync-Serves p m p0
dispatch-Serves memalign p m (fd_fdstat_set_flags p0 p1) = wasi_fd_set_flags-Serves p m p0 p1
dispatch-Serves memalign p m (fd_filestat_set_size p0 p1) = wasi_fd_set_size-Serves p m p0 p1
dispatch-Serves memalign p m (fd_pread p0 p1 p2 p3 p4) = wasi_fd_pread-Serves p m p0 p1 p2 p3 p4
dispatch-Serves memalign p m (fd_pwrite p0 p1 p2 p3 p4) = wasi_fd_pwrite-Serves p m p0 p1 p2 p3 p4
dispatch-Serves memalign p m (fd_advise p0 p1 p2 p3) = wasi_fd_sync-Serves p m p0
dispatch-Serves memalign p m (fd_allocate p0 p1 p2) = wasi_fd_allocate-Serves p m p0 p1 p2
dispatch-Serves memalign p m (environ_sizes_get p0 p1) = wasi_environ_sizes_get-Serves p m p0 p1
dispatch-Serves memalign p m (environ_get p0 p1) = wasi_environ_get-Serves p m p0 p1
dispatch-Serves memalign p m (ftruncate64 p0 p1) = syscall_ftruncate-Serves p m p0 p1
dispatch-Serves memalign p m (munmap_js p0 p1 p2 p3 p4 p5) = munmap-Serves p m p0
dispatch-Serves memalign p m (mmap_js p0 p1 p2 p3 p4 p5 p6) =
    mmap32-Serves p m memalign p0 p1 p2 p3 p4 p5 p6
dispatch-Serves memalign p m (mmap_js_i64 p0 p1 p2 p3 p4 p5 p6) =
    mmap64-Serves p m memalign p0 p1 p2 p3 p4 p5 p6

-- A call of any import, with any parameters, by any caller with any memory, keeps a plugin sound: the
-- filesystem of each instance stays valid (exact byte accounts within the quota, one name for each
-- linked file, reference counts that cover the handles and mappings, no duplicate keys in a table,
-- and no more descriptors than the limit allows).
pub dispatch-IsSound :
    (memalign : Memalign) (p : Plugin) (m : Module) (call : Call)
    → IsSound p
    → IsSound (dispatch memalign p m call).plugin
dispatch-IsSound memalign p m call = (dispatch-Serves memalign p m call).still_sound
