-- ===== src/FileSystem/Invariant/Names.antt =====
-- The calls on names keep the invariant.
use wago_emscripten.Common.{
  ℕ, Bool, true, not, ◌&&◌, ◌||◌, ◌≡◌, inl, inr, some, List, Bool-cases, Option-cases, Map,
  UniqueKeys, lookup, insert, erase, lookup-insert, insert-UniqueKeys, erase-UniqueKeys,
  sum_by-insert, sum_by-erase, bytes_key, arith,
}
use wago_emscripten.Paths.{dir}
use wago_emscripten.FileSystem.{FileSystem, is_dir, unlink}
use wago_emscripten.FileSystem.Reply.{Limits}
use wago_emscripten.FileSystem.Names.{
  has_file, access_on, mkdir_on, is_occupied, rmdir_on, unlink_on, rename_file, rename_on,
}
use wago_emscripten.FileSystem.Accounts.{points_to}
use wago_emscripten.FileSystem.Accounts.Moves.{unlink-Sound, Sound-fewer}
use wago_emscripten.FileSystem.Invariant.{IsLimits, IsValid}

module _ (l : Limits) (limits : IsLimits l) where
  pub access_on-IsValid :
      (name mem : List ℕ) (fs : FileSystem) → IsValid l fs → IsValid l (access_on name mem fs).fs
  unfolding access_on
  access_on-IsValid name mem fs v =
      elim (Bool-cases (not (has_file fs name) && not (is_dir fs name))) [
        | inl e ↦ rw e v
        | inr e ↦ rw e v
      ]

  -- Directories are outside the accounts.
  set_dirs-IsValid :
      (dirs : Map (List ℕ) Bool) (fs : FileSystem)
      → IsValid l fs
      → UniqueKeys dirs
      → IsValid l (record fs { dirs = dirs })
  set_dirs-IsValid dirs fs v u = record {
    sound = v.sound;
    few = v.few;
    unique_files = v.unique_files;
    unique_dirs = u;
    unique_fds = v.unique_fds;
    unique_mappings = v.unique_mappings;
  }

  pub mkdir_on-IsValid :
      (name mem : List ℕ) (fs : FileSystem) → IsValid l fs → IsValid l (mkdir_on name mem fs).fs
  unfolding mkdir_on
  mkdir_on-IsValid name mem fs v = elim (Bool-cases (has_file fs name || is_dir fs name)) [
    | inl e ↦ rw e v
    | inr e ↦ rw e (elim (Bool-cases (is_dir fs (dir name))) [
      | inl d ↦ rw d (set_dirs-IsValid _ fs v (insert-UniqueKeys name true fs.dirs v.unique_dirs))
      | inr d ↦ rw d v
    ])
  ]

  pub rmdir_on-IsValid :
      (name mem : List ℕ) (fs : FileSystem) → IsValid l fs → IsValid l (rmdir_on name mem fs).fs
  unfolding rmdir_on
  rmdir_on-IsValid name mem fs v = elim (Bool-cases (is_dir fs name)) [
    | inr e ↦ rw e v
    | inl e ↦ rw e (elim (Bool-cases (is_occupied fs name)) [
      | inl d ↦ rw d v
      | inr d ↦ rw d (set_dirs-IsValid _ fs v (erase-UniqueKeys name fs.dirs v.unique_dirs))
    ])
  ]

  pub unlink_on-IsValid :
      (name mem : List ℕ) (fs : FileSystem) → IsValid l fs → IsValid l (unlink_on name mem fs).fs
  unfolding unlink_on unlink
  unlink_on-IsValid name mem fs v = elim (Option-cases (lookup name fs.files)) [
    | inl z ↦ rw (z, unlink_on) v
    | inr (p, z) ↦
        rw (z, unlink_on)
          (record {
            sound =
                unlink-Sound fs _ _ p _ limits.small v.sound
                  (λ q. ground (arith, sum_by-erase (points_to q) name fs.files));
            few = v.few;
            unique_files = erase-UniqueKeys name fs.files v.unique_files;
            unique_dirs = v.unique_dirs;
            unique_fds = v.unique_fds;
            unique_mappings = v.unique_mappings;
          })
  ]

  -- After the insertion the old name still stands for the file, also where the names are the same.
  old_name_kept :
      (old_name new_name : List ℕ) (p : ℕ) (fs : FileSystem)
      → lookup old_name fs.files ≡ some p
      → lookup old_name (insert new_name p fs.files) ≡ some p
  old_name_kept old_name new_name p fs e =
      ground (arith, lookup-insert new_name old_name p fs.files)

  rename_file-IsValid :
      (old_name new_name : List ℕ) (p : ℕ) (fs : FileSystem)
      → IsValid l fs
      → lookup old_name fs.files ≡ some p
      → IsValid l (rename_file old_name new_name p fs)
  unfolding rename_file unlink
  rename_file-IsValid old_name new_name p fs v e = elim (Option-cases (lookup new_name fs.files)) [
    | inl z ↦
        rw (z, rename_file)
          (record {
            sound =
                Sound-fewer _ _ v.sound
                  (λ q. ground (
                    arith,
                    sum_by-insert (points_to q) new_name p fs.files,
                    sum_by-erase (points_to q) old_name (insert new_name p fs.files),
                    old_name_kept old_name new_name p fs e,
                  ))
                  (λ q. omega arith);
            few = v.few;
            unique_files = unique;
            unique_dirs = v.unique_dirs;
            unique_fds = v.unique_fds;
            unique_mappings = v.unique_mappings;
          })
    | inr (r, z) ↦
        rw (z, rename_file)
          (record {
            sound = unlink-Sound fs _ _ r _ limits.small v.sound (λ q. ground (
              arith,
              sum_by-insert (points_to q) new_name p fs.files,
              sum_by-erase (points_to q) old_name (insert new_name p fs.files),
              old_name_kept old_name new_name p fs e,
            ));
            few = v.few;
            unique_files = unique;
            unique_dirs = v.unique_dirs;
            unique_fds = v.unique_fds;
            unique_mappings = v.unique_mappings;
          })
  ]
    where
      unique : UniqueKeys (erase old_name (insert new_name p fs.files))
      unique = erase-UniqueKeys old_name _ (insert-UniqueKeys new_name p fs.files v.unique_files)

  pub rename_on-IsValid :
      (old_name new_name mem : List ℕ) (fs : FileSystem)
      → IsValid l fs
      → IsValid l (rename_on old_name new_name mem fs).fs
  unfolding rename_on
  rename_on-IsValid old_name new_name mem fs v = elim (Bool-cases (is_dir fs (dir new_name))) [
    | inr e ↦ rw e v
    | inl e ↦ rw e (elim (Option-cases (lookup old_name fs.files)) [
      | inr (p, z) ↦ rw z (rename_file-IsValid old_name new_name p fs v z)
      | inl z ↦ rw z (elim (Bool-cases (is_dir fs old_name)) [
        | inr d ↦ rw d v
        | inl d ↦ rw d (elim (Bool-cases (is_occupied fs old_name)) [
          | inl o ↦ rw o v
          | inr o ↦ rw o (
              set_dirs-IsValid _ fs v (
                erase-UniqueKeys old_name _
                  (insert-UniqueKeys new_name true fs.dirs v.unique_dirs)))
        ])
      ])
    ])
  ]
