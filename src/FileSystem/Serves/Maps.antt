-- ===== src/FileSystem/Serves/Maps.antt =====
-- Mappings, the high half of a 64-bit result, and the calls with a fixed answer serve their caller.
use wago_emscripten.Common.{
  ℕ, ◌+◌, ◌||◌, refl, inl, inr, Bool-cases, length, ◌==◌, ltb, i64_lt, u32, u64, sign_extend,
}
use wago_emscripten.FileSystem.{FileSystem, err_bad_fd, err_inval, err_no_tty}
use wago_emscripten.FileSystem.Reply.{value, neg_errno, wasi_errno, answer, Limits, Plugin, Module}
use wago_emscripten.FileSystem.Names.{syscall_readlinkat, syscall_ioctl}
use wago_emscripten.FileSystem.Mappings.{
  Memalign, mmap_on, mmap, mmap32, mmap64, munmap_on, munmap, set_temp_ret0, get_temp_ret0,
}
use wago_emscripten.FileSystem.Invariant.{IsValid}
use wago_emscripten.FileSystem.Invariant.Maps.{mmap_on-IsValid, munmap_on-IsValid}
use wago_emscripten.FileSystem.Serves.{Serves, refuse-Serves, with_file_system-Serves}
use wago_emscripten.FileSystem.Serves.Data.{only_answers}

temp_ret0-IsValid :
    (l : Limits) (n : ℕ) (fs : FileSystem) → IsValid l fs → IsValid l (record fs { temp_ret0 = n })
temp_ret0-IsValid l n fs v = record {
  sound = v.sound;
  few = v.few;
  unique_files = v.unique_files;
  unique_dirs = v.unique_dirs;
  unique_fds = v.unique_fds;
  unique_mappings = v.unique_mappings;
}

module _ (p : Plugin) (m : Module) where
  mmap-Serves :
      (memalign : Memalign) (len prot flags fd offset allocated_ptr address_ptr : ℕ)
      → Serves p m (mmap memalign p m len prot flags fd offset allocated_ptr address_ptr)
  unfolding mmap
  mmap-Serves memalign len prot flags fd offset allocated_ptr address_ptr =
      elim (Bool-cases (
        len == 0
        || i64_lt p.limits.max_filesystem_bytes len
        || i64_lt offset 0
        || ltb (length m.memory) (allocated_ptr + 4)
        || ltb (length m.memory) (address_ptr + 4))) [
          | inl e ↦ rw e (refuse-Serves p m (wasi_errno err_inval))
          | inr e ↦ rw e (
              with_file_system-Serves p m (wasi_errno err_bad_fd)
                (mmap_on memalign len prot flags fd offset allocated_ptr address_ptr)
                (λ s.
                  mmap_on-IsValid p.limits s.limits_ok memalign len prot flags fd offset
                    allocated_ptr address_ptr))
        ]

  pub mmap32-Serves :
      (memalign : Memalign) (p0 p1 p2 p3 p4 p5 p6 : ℕ)
      → Serves p m (mmap32 memalign p m p0 p1 p2 p3 p4 p5 p6)
  unfolding mmap32
  mmap32-Serves memalign p0 p1 p2 p3 p4 p5 p6 =
      mmap-Serves memalign (u32 p0) (u32 p1) (u32 p2) (u32 p3) (sign_extend (u32 p4)) (u32 p5)
        (u32 p6)

  pub mmap64-Serves :
      (memalign : Memalign) (p0 p1 p2 p3 p4 p5 p6 : ℕ)
      → Serves p m (mmap64 memalign p m p0 p1 p2 p3 p4 p5 p6)
  unfolding mmap64
  mmap64-Serves memalign p0 p1 p2 p3 p4 p5 p6 =
      mmap-Serves memalign (u32 p0) (u32 p1) (u32 p2) (u32 p3) (u64 p4) (u32 p5) (u32 p6)

  pub munmap-Serves : (p0 : ℕ) → Serves p m (munmap p m p0)
  unfolding munmap
  munmap-Serves p0 =
      with_file_system-Serves p m (value 0) (munmap_on p.limits (u32 p0))
        (λ s. munmap_on-IsValid p.limits s.limits_ok (u32 p0))

  pub set_temp_ret0-Serves : (p0 : ℕ) → Serves p m (set_temp_ret0 p m p0)
  unfolding set_temp_ret0
  set_temp_ret0-Serves p0 =
      with_file_system-Serves p m (value 0)
        (λ mem fs. answer mem (record fs { temp_ret0 = u32 p0 }) (value 0))
        (λ s mem fs. temp_ret0-IsValid p.limits (u32 p0) fs)

  pub get_temp_ret0-Serves : Serves p m (get_temp_ret0 p m)
  unfolding get_temp_ret0
  get_temp_ret0-Serves =
      only_answers p m (value 0) (λ mem fs. answer mem fs (value fs.temp_ret0)) (λ mem fs. refl)

  pub syscall_readlinkat-Serves : Serves p m (syscall_readlinkat p m)
  unfolding syscall_readlinkat
  syscall_readlinkat-Serves = refuse-Serves p m (neg_errno err_inval)

  pub syscall_ioctl-Serves : Serves p m (syscall_ioctl p m)
  unfolding syscall_ioctl
  syscall_ioctl-Serves = refuse-Serves p m (neg_errno err_no_tty)
