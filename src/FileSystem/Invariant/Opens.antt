-- ===== src/FileSystem/Invariant/Opens.antt =====
-- Opening a file keeps the invariant.
use wago_emscripten.Common.{
  ℕ, ◌+◌, ◌≤◌, false, ◌≡◌, inl, inr, none, List, [], length, Bool-cases, Option-cases, lookup,
  insert-UniqueKeys, sum_by-insert, ◌==◌, nat_eq, bytes_key, bit_and, arith,
}
use wago_emscripten.FileSystem.{FileSystem, is_dir, open_create, open_exclusive, open_truncate}
use wago_emscripten.Paths.{dir}
use wago_emscripten.FileSystem.Reply.{Limits}
use wago_emscripten.FileSystem.Descriptors.{
  truncate_file, new_handle, open_file, create_file, openat_on, table_full,
}
use wago_emscripten.FileSystem.Accounts.{points_to}
use wago_emscripten.FileSystem.Accounts.Moves.{contents-Sound, used_size-le, create-Sound}
use wago_emscripten.FileSystem.Invariant.{IsLimits, IsValid, names_of, holders_of, name_used}
use wago_emscripten.FileSystem.Invariant.Handles.{add_handle-IsValid}

module _ (l : Limits) (limits : IsLimits l) where
  truncate_file-IsValid :
      (p : ℕ) (fs : FileSystem)
      → IsValid l fs
      → 1 ≤ names_of fs p + holders_of fs p
      → IsValid l (truncate_file p fs)
  unfolding truncate_file
  truncate_file-IsValid p fs v used = record {
    sound =
        contents-Sound fs.heap _ _ p [] _ v.sound used
          (ground (arith, used_size-le p v.sound used, v.sound.within, limits.small))
          (ground (arith, used_size-le p v.sound used, v.sound.within, limits.small));
    few = v.few;
    unique_files = v.unique_files;
    unique_dirs = v.unique_dirs;
    unique_fds = v.unique_fds;
    unique_mappings = v.unique_mappings;
  }

  new_handle-IsValid :
      (p flags : ℕ) (fs : FileSystem)
      → IsValid l fs
      → 1 ≤ names_of fs p + holders_of fs p
      → table_full l fs ≡ false
      → IsValid l (new_handle p flags fs)
  unfolding new_handle
  new_handle-IsValid p flags fs v used room = add_handle-IsValid l limits _ _ _ fs v used room

  open_file-IsValid :
      (p flags : ℕ) (mem : List ℕ) (fs : FileSystem)
      → IsValid l fs
      → 1 ≤ names_of fs p + holders_of fs p
      → table_full l fs ≡ false
      → IsValid l (open_file p flags mem fs).fs
  unfolding open_file
  open_file-IsValid p flags mem fs v used room =
      elim (Bool-cases (bit_and flags open_truncate == 0)) [
        | inl e ↦ rw e (new_handle-IsValid p flags fs v used room)
        | inr e ↦ rw e (
            new_handle-IsValid p flags (truncate_file p fs) (truncate_file-IsValid p fs v used)
              (unfold truncate_file in used) (unfold truncate_file in room))
      ]

  create_file-IsValid :
      (name : List ℕ) (fs : FileSystem)
      → IsValid l fs
      → lookup name fs.files ≡ none
      → IsValid l (create_file name fs)
  unfolding create_file
  create_file-IsValid name fs v fresh = record {
    sound =
        create-Sound fs.heap _ _ _ v.sound
          (λ q. ground (arith, sum_by-insert (points_to q) name (length fs.heap) fs.files));
    few = v.few;
    unique_files = insert-UniqueKeys name (length fs.heap) fs.files v.unique_files;
    unique_dirs = v.unique_dirs;
    unique_fds = v.unique_fds;
    unique_mappings = v.unique_mappings;
  }

  created_used :
      (name : List ℕ) (fs : FileSystem)
      → lookup name fs.files ≡ none
      → 1
        ≤ names_of (create_file name fs) (length fs.heap)
          + holders_of (create_file name fs) (length fs.heap)
  unfolding create_file
  created_used name fs fresh =
      ground (arith, sum_by-insert (points_to (length fs.heap)) name (length fs.heap) fs.files)

  pub openat_on-IsValid :
      (name : List ℕ) (flags : ℕ) (mem : List ℕ) (fs : FileSystem)
      → IsValid l fs
      → IsValid l (openat_on l name flags mem fs).fs
  unfolding openat_on
  openat_on-IsValid name flags mem fs v = elim (Bool-cases (table_full l fs)) [
    | inl full ↦ rw full v
    | inr room ↦ rw room (elim (Option-cases (lookup name fs.files)) [
      | inl fresh ↦ rw fresh (elim (Bool-cases (bit_and flags open_create == 0)) [
        | inl e ↦ rw e v
        | inr e ↦ rw e (elim (Bool-cases (is_dir fs (dir name))) [
          | inl d ↦ rw d (
              open_file-IsValid (length fs.heap) flags mem (create_file name fs)
                (create_file-IsValid name fs v fresh) (created_used name fs fresh)
                (unfold create_file in room))
          | inr d ↦ rw d v
        ])
      ])
      | inr (p, found) ↦
          rw found
            (elim (Bool-cases
              (bit_and flags (open_create + open_exclusive) == open_create + open_exclusive)) [
                | inl e ↦ rw e v
                | inr e ↦ rw e (open_file-IsValid p flags mem fs v (name_used fs name p found) room)
              ])
    ])
  ]
