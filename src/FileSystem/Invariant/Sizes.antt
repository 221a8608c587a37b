-- ===== src/FileSystem/Invariant/Sizes.antt =====
-- Changes of size and writes keep the invariant.
use wago_emscripten.Common.{
  ℕ, ◌+◌, ◌-◌, ◌≤◌, true, ◌≡◌, refl, inl, inr, List, length, length-append, length-take,
  length-replicate, replicate, set, Bool-cases, Option-cases, lookup, i64_add, i64_sub, i64_lt,
  nat_eq, bytes_key, arith,
}
use wago_emscripten.Memory.Words.{length-write_at}
use wago_emscripten.FileSystem.{FileSystem, deref, size_of}
use wago_emscripten.FileSystem.Reply.{Limits}
use wago_emscripten.FileSystem.Sizes.{resize_contents, resize, ftruncate_on, truncate_on}
use wago_emscripten.FileSystem.ReadWrite.{extend_to, store_bytes}
use wago_emscripten.FileSystem.Accounts.Moves.{contents-Sound, used_size-le}
use wago_emscripten.FileSystem.Invariant.{
  IsLimits, IsValid, names_of, holders_of, handle_used, name_used,
}

pub length-resize_contents : (size : ℕ) (xs : List ℕ) → length (resize_contents size xs) ≡ size
unfolding resize_contents
length-resize_contents size xs = ground (
  arith,
  length-take size xs,
  length-append xs (replicate (size - length xs) 0),
  length-replicate {A = ℕ} (size - length xs) 0,
)

module _ (l : Limits) (limits : IsLimits l) where
  -- A file in use takes new contents, with the quota moved by the difference.
  set_contents-IsValid :
      (p : ℕ) (contents : List ℕ) (bytes : ℕ) (fs : FileSystem)
      → IsValid l fs
      → 1 ≤ names_of fs p + holders_of fs p
      → bytes + size_of (deref fs.heap p) ≡ fs.bytes + length contents
      → bytes ≤ l.max_filesystem_bytes
      → IsValid l (record fs {
        heap = set fs.heap p (record (deref fs.heap p) { contents = contents });
        bytes = bytes;
      })
  set_contents-IsValid p contents bytes fs v used moved fits = record {
    sound = contents-Sound fs.heap _ _ p contents bytes v.sound used moved fits;
    few = v.few;
    unique_files = v.unique_files;
    unique_dirs = v.unique_dirs;
    unique_fds = v.unique_fds;
    unique_mappings = v.unique_mappings;
  }

  resize-IsValid :
      (p size : ℕ) (mem : List ℕ) (fs : FileSystem)
      → IsValid l fs
      → 1 ≤ names_of fs p + holders_of fs p
      → size ≤ l.max_filesystem_bytes
      → IsValid l (resize l p size mem fs).fs
  unfolding resize
  resize-IsValid p size mem fs v used small =
      elim (Bool-cases (
        i64_lt l.max_filesystem_bytes
          (i64_add fs.bytes (i64_sub size (size_of (deref fs.heap p)))))) [
            | inl e ↦ rw e v
            | inr e ↦ rw e (
                set_contents-IsValid p _ _ fs v used
                  (ground (
                    arith,
                    length-resize_contents size (deref fs.heap p).contents,
                    used_size-le p v.sound used,
                    v.sound.within,
                    limits.small,
                  ))
                  (ground (arith, used_size-le p v.sound used, v.sound.within, limits.small)))
          ]

  pub ftruncate_on-IsValid :
      (fd size : ℕ) (mem : List ℕ) (fs : FileSystem)
      → size ≤ l.max_filesystem_bytes
      → IsValid l fs
      → IsValid l (ftruncate_on l fd size mem fs).fs
  unfolding ftruncate_on
  ftruncate_on-IsValid fd size mem fs small v = elim (Option-cases (lookup fd fs.fds)) [
    | inl z ↦ rw (z, ftruncate_on) v
    | inr (h, z) ↦
        rw (z, ftruncate_on) (resize-IsValid h.file size mem fs v (handle_used fs fd h z) small)
  ]

  pub truncate_on-IsValid :
      (name : List ℕ) (size : ℕ) (mem : List ℕ) (fs : FileSystem)
      → size ≤ l.max_filesystem_bytes
      → IsValid l fs
      → IsValid l (truncate_on l name size mem fs).fs
  unfolding truncate_on
  truncate_on-IsValid name size mem fs small v = elim (Option-cases (lookup name fs.files)) [
    | inl z ↦ rw (z, truncate_on) v
    | inr (p, z) ↦
        rw (z, truncate_on) (resize-IsValid p size mem fs v (name_used fs name p z) small)
  ]

  -- Where the file has to grow, the new end and the grown total stay within the quota.
  pub extend_to-IsValid :
      (p end : ℕ) (fs : FileSystem)
      → IsValid l fs
      → 1 ≤ names_of fs p + holders_of fs p
      → (i64_lt (size_of (deref fs.heap p)) end ≡ true
          → (end ≤ l.max_filesystem_bytes)
            × (fs.bytes + end ≤ l.max_filesystem_bytes + size_of (deref fs.heap p)))
      → IsValid l (extend_to p end fs)
  unfolding extend_to
  extend_to-IsValid p end fs v used fits =
      elim (Bool-cases (i64_lt (size_of (deref fs.heap p)) end)) [
        | inr e ↦ rw e v
        | inl e ↦
            let (low, high) = fits e in
            let old = (deref fs.heap p).contents in
            rw e (
              set_contents-IsValid p _ _ fs v used
                (ground (
                  arith,
                  length-append old (replicate (end - length old) 0),
                  length-replicate {A = ℕ} (end - length old) 0,
                  used_size-le p v.sound used,
                  v.sound.within,
                  limits.small,
                ))
                (ground (arith, used_size-le p v.sound used, v.sound.within, limits.small)))
      ]

  -- Neither growing a file nor storing into it touches the tables.
  pub extend_to_used :
      (p q end : ℕ) (fs : FileSystem)
      → 1 ≤ names_of fs q + holders_of fs q
      → 1 ≤ names_of (extend_to p end fs) q + holders_of (extend_to p end fs) q
  unfolding extend_to
  extend_to_used p q end fs used = elim (Bool-cases (i64_lt (size_of (deref fs.heap p)) end)) [
    | inl e ↦ rw e used
    | inr e ↦ rw e used
  ]

  pub extend_to-fds : (p end : ℕ) (fs : FileSystem) → (extend_to p end fs).fds ≡ fs.fds
  unfolding extend_to
  extend_to-fds p end fs = elim (Bool-cases (i64_lt (size_of (deref fs.heap p)) end)) [
    | inl e ↦ rw e refl
    | inr e ↦ rw e refl
  ]

  pub store_bytes-IsValid :
      (p offset : ℕ) (bs : List ℕ) (fs : FileSystem)
      → IsValid l fs
      → 1 ≤ names_of fs p + holders_of fs p
      → IsValid l (store_bytes p offset bs fs)
  unfolding store_bytes
  store_bytes-IsValid p offset bs fs v used =
      set_contents-IsValid p _ fs.bytes fs v used
        (omega (arith, length-write_at (deref fs.heap p).contents offset bs)) v.sound.within

  pub extend_to-mappings :
      (p end : ℕ) (fs : FileSystem) → (extend_to p end fs).mappings ≡ fs.mappings
  unfolding extend_to
  extend_to-mappings p end fs = elim (Bool-cases (i64_lt (size_of (deref fs.heap p)) end)) [
    | inl e ↦ rw e refl
    | inr e ↦ rw e refl
  ]
