-- ===== src/FileSystem/Calls.antt =====
-- emscripten.go: the filesystem part of the table of host imports, as a type of calls and the
-- handler that each import runs.
pub mod Runs
use wago_emscripten.Common.{ℕ}
use wago_emscripten.FileSystem.Reply.{Plugin, Module, Outcome}
use wago_emscripten.FileSystem.Descriptors.{
  syscall_dup, syscall_dup3, syscall_fchmod, syscall_fcntl, syscall_fdatasync, syscall_openat,
  wasi_fd_close, wasi_fd_set_flags, wasi_fd_sync,
}
use wago_emscripten.FileSystem.Names.{
  syscall_chmod, syscall_faccessat, syscall_ioctl, syscall_mkdirat, syscall_readlinkat,
  syscall_renameat, syscall_unlinkat, syscall_utimensat,
}
use wago_emscripten.FileSystem.Sizes.{
  syscall_fallocate, syscall_ftruncate, syscall_truncate, wasi_fd_allocate, wasi_fd_set_size,
}
use wago_emscripten.FileSystem.Streams.{
  wasi_fd_pread, wasi_fd_pwrite, wasi_fd_read, wasi_fd_seek, wasi_fd_write,
}
use wago_emscripten.FileSystem.Stat.{
  syscall_fstat, syscall_getcwd, syscall_newfstatat, syscall_stat, wasi_fd_stat_get,
  wasi_file_stat_get,
}
use wago_emscripten.FileSystem.Mappings.{
  Memalign, get_temp_ret0, mmap32, mmap64, munmap, set_temp_ret0,
}
use wago_emscripten.FileSystem.Environ.{wasi_environ_get, wasi_environ_sizes_get}

-- One constructor per import, named for it, with the parameter slots of its signature.
pub data Call : Type 0 where
  store_temp_ret0 : ℕ → Call
  load_temp_ret0 : Call
  openat : ℕ → ℕ → ℕ → ℕ → Call
  fcntl64 : ℕ → ℕ → ℕ → Call
  dup3 : ℕ → ℕ → ℕ → Call
  dup : ℕ → Call
  ioctl : ℕ → ℕ → ℕ → Call
  fchmod : ℕ → ℕ → Call
  fdatasync : ℕ → Call
  fadvise64 : ℕ → ℕ → ℕ → ℕ → Call
  chmod : ℕ → ℕ → Call
  readlinkat : ℕ → ℕ → ℕ → ℕ → Call
  faccessat : ℕ → ℕ → ℕ → ℕ → Call
  mkdirat : ℕ → ℕ → ℕ → Call
  unlinkat : ℕ → ℕ → ℕ → Call
  rmdir : ℕ → Call
  renameat : ℕ → ℕ → ℕ → ℕ → Call
  getcwd : ℕ → ℕ → Call
  fstat64 : ℕ → ℕ → Call
  stat64 : ℕ → ℕ → Call
  lstat64 : ℕ → ℕ → Call
  newfstatat : ℕ → ℕ → ℕ → ℕ → Call
  fallocate : ℕ → ℕ → ℕ → ℕ → Call
  truncate64 : ℕ → ℕ → Call
  utimensat : ℕ → ℕ → ℕ → ℕ → Call
  fd_write : ℕ → ℕ → ℕ → ℕ → Call
  fd_read : ℕ → ℕ → ℕ → ℕ → Call
  fd_close : ℕ → Call
  fd_seek : ℕ → ℕ → ℕ → ℕ → Call
  fd_fdstat_get : ℕ → ℕ → Call
  fd_filestat_get : ℕ → ℕ → Call
  fd_sync : ℕ → Call
  fd_datasync : ℕ → Call
  fd_fdstat_set_flags : ℕ → ℕ → Call
  fd_filestat_set_size : ℕ → ℕ → Call
  fd_pread : ℕ → ℕ → ℕ → ℕ → ℕ → Call
  fd_pwrite : ℕ → ℕ → ℕ → ℕ → ℕ → Call
  fd_advise : ℕ → ℕ → ℕ → ℕ → Call
  fd_allocate : ℕ → ℕ → ℕ → Call
  environ_sizes_get : ℕ → ℕ → Call
  environ_get : ℕ → ℕ → Call
  ftruncate64 : ℕ → ℕ → Call
  munmap_js : ℕ → ℕ → ℕ → ℕ → ℕ → ℕ → Call
  mmap_js : ℕ → ℕ → ℕ → ℕ → ℕ → ℕ → ℕ → Call
  mmap_js_i64 : ℕ → ℕ → ℕ → ℕ → ℕ → ℕ → ℕ → Call

-- The handler of each import. `fdadvise` and `fd_advise` are the synchronising calls, `lstat` is
-- `stat`, and `rmdir` is `unlinkat` with AT_REMOVEDIR.
unfoldable pub dispatch : Memalign → Plugin → Module → Call → Outcome
unfolding get_temp_ret0 mmap32 mmap64 munmap set_temp_ret0 syscall_chmod syscall_dup syscall_dup3
    syscall_faccessat syscall_fallocate syscall_fchmod syscall_fcntl syscall_fdatasync syscall_fstat
    syscall_ftruncate syscall_getcwd syscall_ioctl syscall_mkdirat syscall_newfstatat syscall_openat
    syscall_readlinkat syscall_renameat syscall_stat syscall_truncate syscall_unlinkat
    syscall_utimensat wasi_environ_get wasi_environ_sizes_get wasi_fd_allocate wasi_fd_close
    wasi_fd_pread wasi_fd_pwrite wasi_fd_read wasi_fd_seek wasi_fd_set_flags wasi_fd_set_size
    wasi_fd_stat_get wasi_fd_sync wasi_fd_write wasi_file_stat_get
dispatch memalign p m (store_temp_ret0 p0) = set_temp_ret0 p m p0
dispatch memalign p m load_temp_ret0 = get_temp_ret0 p m
dispatch memalign p m (openat p0 p1 p2 p3) = syscall_openat p m p1 p2
dispatch memalign p m (fcntl64 p0 p1 p2) = syscall_fcntl p m p0 p1 p2
dispatch memalign p m (dup3 p0 p1 p2) = syscall_dup3 p m p0 p1
dispatch memalign p m (dup p0) = syscall_dup p m p0
dispatch memalign p m (ioctl p0 p1 p2) = syscall_ioctl p m
dispatch memalign p m (fchmod p0 p1) = syscall_fchmod p m p0
dispatch memalign p m (fdatasync p0) = syscall_fdatasync p m p0
dispatch memalign p m (fadvise64 p0 p1 p2 p3) = syscall_fdatasync p m p0
dispatch memalign p m (chmod p0 p1) = syscall_chmod p m p0
dispatch memalign p m (readlinkat p0 p1 p2 p3) = syscall_readlinkat p m
dispatch memalign p m (faccessat p0 p1 p2 p3) = syscall_faccessat p m p1
dispatch memalign p m (mkdirat p0 p1 p2) = syscall_mkdirat p m p1
dispatch memalign p m (unlinkat p0 p1 p2) = syscall_unlinkat p m p1 p2
dispatch memalign p m (rmdir p0) = syscall_unlinkat p m p0 0x200
dispatch memalign p m (renameat p0 p1 p2 p3) = syscall_renameat p m p1 p3
dispatch memalign p m (getcwd p0 p1) = syscall_getcwd p m p0 p1
dispatch memalign p m (fstat64 p0 p1) = syscall_fstat p m p0 p1
dispatch memalign p m (stat64 p0 p1) = syscall_stat p m p0 p1
dispatch memalign p m (lstat64 p0 p1) = syscall_stat p m p0 p1
dispatch memalign p m (newfstatat p0 p1 p2 p3) = syscall_newfstatat p m p1 p2
dispatch memalign p m (fallocate p0 p1 p2 p3) = syscall_fallocate p m p0 p1 p2 p3
dispatch memalign p m (truncate64 p0 p1) = syscall_truncate p m p0 p1
dispatch memalign p m (utimensat p0 p1 p2 p3) = syscall_utimensat p m p1
dispatch memalign p m (fd_write p0 p1 p2 p3) = wasi_fd_write p m p0 p1 p2 p3
dispatch memalign p m (fd_read p0 p1 p2 p3) = wasi_fd_read p m p0 p1 p2 p3
dispatch memalign p m (fd_close p0) = wasi_fd_close p m p0
dispatch memalign p m (fd_seek p0 p1 p2 p3) = wasi_fd_seek p m p0 p1 p2 p3
dispatch memalign p m (fd_fdstat_get p0 p1) = wasi_fd_stat_get p m p0 p1
dispatch memalign p m (fd_filestat_get p0 p1) = wasi_file_stat_get p m p0 p1
dispatch memalign p m (fd_sync p0) = wasi_fd_sync p m p0
dispatch memalign p m (fd_datasync p0) = wasi_fd_sync p m p0
dispatch memalign p m (fd_fdstat_set_flags p0 p1) = wasi_fd_set_flags p m p0 p1
dispatch memalign p m (fd_filestat_set_size p0 p1) = wasi_fd_set_size p m p0 p1
dispatch memalign p m (fd_pread p0 p1 p2 p3 p4) = wasi_fd_pread p m p0 p1 p2 p3 p4
dispatch memalign p m (fd_pwrite p0 p1 p2 p3 p4) = wasi_fd_pwrite p m p0 p1 p2 p3 p4
dispatch memalign p m (fd_advise p0 p1 p2 p3) = wasi_fd_sync p m p0
dispatch memalign p m (fd_allocate p0 p1 p2) = wasi_fd_allocate p m p0 p1 p2
dispatch memalign p m (environ_sizes_get p0 p1) = wasi_environ_sizes_get p m p0 p1
dispatch memalign p m (environ_get p0 p1) = wasi_environ_get p m p0 p1
dispatch memalign p m (ftruncate64 p0 p1) = syscall_ftruncate p m p0 p1
dispatch memalign p m (munmap_js p0 p1 p2 p3 p4 p5) = munmap p m p0
dispatch memalign p m (mmap_js p0 p1 p2 p3 p4 p5 p6) = mmap32 memalign p m p0 p1 p2 p3 p4 p5 p6
dispatch memalign p m (mmap_js_i64 p0 p1 p2 p3 p4 p5 p6) = mmap64 memalign p m p0 p1 p2 p3 p4 p5 p6
