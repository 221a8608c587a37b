-- ===== src/FileSystem/Invariant/Handles.antt =====
-- Duplicating, changing and closing descriptors keep the invariant.
use wago_emscripten.Common.{
  ℕ, suc, ◌+◌, ◌-◌, ◌≤◌, false, ◌≡◌, refl, inl, inr, some, List, length, Bool-cases, Option-cases,
  lookup, insert, erase, insert-UniqueKeys, erase-UniqueKeys, sum_by-insert, sum_by-erase,
  weight-le-sum_by, lookup-erase_ne, length-insert, length-erase, ◌==◌, if◌then◌else◌, i32_lt,
  nat_eq, bytes_key, arith,
}
use wago_emscripten.FileSystem.{FileSystem, OpenFile, release, retain}
use wago_emscripten.FileSystem.Reply.{Limits, Result}
use wago_emscripten.FileSystem.Descriptors.{
  find_free, table_full, dup_from, fcntl_on, dup3_on, close_on, set_flags_on, check_fd, set_handle,
}
use wago_emscripten.FileSystem.Accounts.{points_to}
use wago_emscripten.FileSystem.Accounts.Moves.{retain-Sound, release-Sound, Sound-fewer}
use wago_emscripten.FileSystem.Invariant.{
  IsLimits, IsValid, names_of, holders_of, fd_weight, handle_used,
}

module _ (l : Limits) (limits : IsLimits l) where
  -- A handle is added under any number: what it replaces, if anything, keeps its reference.
  pub add_handle-IsValid :
      (fd : ℕ) (h : OpenFile) (next : ℕ) (fs : FileSystem)
      → IsValid l fs
      → 1 ≤ names_of fs h.file + holders_of fs h.file
      → table_full l fs ≡ false
      → IsValid l (record (retain h.file fs) { fds = insert fd h fs.fds; next_fd = next })
  unfolding retain
  add_handle-IsValid fd h next fs v used room = record {
    sound =
        retain-Sound fs _ _ h.file _ v.sound used
          (λ q. ground (arith, sum_by-insert (fd_weight q) fd h fs.fds));
    few = ground (arith, length-insert fd h fs.fds);
    unique_files = v.unique_files;
    unique_dirs = v.unique_dirs;
    unique_fds = insert-UniqueKeys fd h fs.fds v.unique_fds;
    unique_mappings = v.unique_mappings;
  }

  -- A handle is changed in place, on the same file.
  pub set_handle-IsValid :
      (fd : ℕ) (old h : OpenFile) (fs : FileSystem)
      → IsValid l fs
      → lookup fd fs.fds ≡ some old
      → h.file ≡ old.file
      → IsValid l (set_handle fd h fs)
  set_handle-IsValid fd old h fs v e same = record {
    sound =
        Sound-fewer _ _ v.sound (λ q. refl)
          (λ q. ground (arith, sum_by-insert (fd_weight q) fd h fs.fds));
    few = ground (arith, length-insert fd h fs.fds, v.few);
    unique_files = v.unique_files;
    unique_dirs = v.unique_dirs;
    unique_fds = insert-UniqueKeys fd h fs.fds v.unique_fds;
    unique_mappings = v.unique_mappings;
  }

  dup_from-IsValid :
      (fd : ℕ) (h : OpenFile) (least : ℕ) (mem : List ℕ) (fs : FileSystem)
      → IsValid l fs
      → lookup fd fs.fds ≡ some h
      → IsValid l (dup_from l h least mem fs).fs
  unfolding dup_from
  dup_from-IsValid fd h least mem fs v e = elim (Bool-cases (table_full l fs)) [
    | inl full ↦ rw full v
    | inr room ↦
        rw room
          (elim (Option-cases
            (find_free (suc (length fs.fds)) (if i32_lt least 3 then 3 else least) fs.fds)) [
              | inl z ↦ rw z v
              | inr (free, z) ↦
                  rw z (add_handle-IsValid free h fs.next_fd fs v (handle_used fs fd h e) room)
            ])
  ]

  pub fcntl_on-IsValid :
      (fd command arg : ℕ) (mem : List ℕ) (fs : FileSystem)
      → IsValid l fs
      → IsValid l (fcntl_on l fd command arg mem fs).fs
  unfolding fcntl_on
  fcntl_on-IsValid fd command arg mem fs v = elim (Option-cases (lookup fd fs.fds)) [
    | inl z ↦ rw (z, fcntl_on) v
    | inr (h, z) ↦
        rw (z, fcntl_on)
          (grind (arith, dup_from-IsValid fd h arg mem fs v z, set_handle-IsValid fd h _ fs v z))
  ]

  pub close_on-IsValid :
      (fd : ℕ) (mem : List ℕ) (fs : FileSystem) → IsValid l fs → IsValid l (close_on fd mem fs).fs
  unfolding close_on release
  close_on-IsValid fd mem fs v = elim (Option-cases (lookup fd fs.fds)) [
    | inl z ↦ rw (z, close_on) v
    | inr (h, z) ↦
        rw (z, close_on)
          (record {
            sound =
                release-Sound fs _ _ h.file _ limits.small v.sound
                  (λ q. ground (arith, sum_by-erase (fd_weight q) fd fs.fds));
            few = ground (arith, length-erase fd fs.fds, v.few);
            unique_files = v.unique_files;
            unique_dirs = v.unique_dirs;
            unique_fds = erase-UniqueKeys fd fs.fds v.unique_fds;
            unique_mappings = v.unique_mappings;
          })
  ]

  pub set_flags_on-IsValid :
      (fd bits : ℕ) (mem : List ℕ) (fs : FileSystem)
      → IsValid l fs
      → IsValid l (set_flags_on fd bits mem fs).fs
  unfolding set_flags_on
  set_flags_on-IsValid fd bits mem fs v = elim (Option-cases (lookup fd fs.fds)) [
    | inl z ↦ rw (z, set_flags_on) v
    | inr (h, z) ↦ rw (z, set_flags_on) (set_handle-IsValid fd h _ fs v z refl)
  ]

  pub check_fd-IsValid :
      (bad : Result) (fd : ℕ) (mem : List ℕ) (fs : FileSystem)
      → IsValid l fs
      → IsValid l (check_fd bad fd mem fs).fs
  unfolding check_fd
  check_fd-IsValid bad fd mem fs v = elim (Option-cases (lookup fd fs.fds)) [
    | inl z ↦ rw (z, check_fd) v
    | inr (h, z) ↦ rw (z, check_fd) v
  ]

  -- The replaced handle lets its file go before the new one takes hold of its own.
  pub dup3_on-IsValid :
      (old_fd new_fd : ℕ) (mem : List ℕ) (fs : FileSystem)
      → (old_fd == new_fd) ≡ false
      → IsValid l fs
      → IsValid l (dup3_on l old_fd new_fd mem fs).fs
  unfolding dup3_on release retain
  dup3_on-IsValid old_fd new_fd mem fs differ v = elim (Option-cases (lookup old_fd fs.fds)) [
    | inl z ↦ rw (z, dup3_on) v
    | inr (h, z) ↦
        rw (z, dup3_on)
          (elim (Option-cases (lookup new_fd fs.fds)) [
            | inl fresh ↦ rw fresh (elim (Bool-cases (table_full l fs)) [
              | inl full ↦ rw full v
              | inr room ↦
                  rw room
                    (add_handle-IsValid new_fd h fs.next_fd fs v (handle_used fs old_fd h z) room)
            ])
            | inr (r, taken) ↦ rw taken (record {
              sound =
                  retain-Sound (release r.file fs) _ (λ q. holders_of fs q - points_to q r.file)
                    h.file _
                    (release-Sound fs _ _ r.file _ limits.small v.sound
                      (λ q. ground (arith, weight-le-sum_by (fd_weight q) new_fd fs.fds)))
                    (ground (
                      arith,
                      sum_by-erase (fd_weight h.file) new_fd fs.fds,
                      weight-le-sum_by (fd_weight h.file) old_fd (erase new_fd fs.fds),
                      lookup-erase_ne new_fd old_fd fs.fds,
                    ))
                    (λ q. ground (
                      arith,
                      weight-le-sum_by (fd_weight q) new_fd fs.fds,
                      sum_by-insert (fd_weight q) new_fd h fs.fds,
                    ));
              few = ground (arith, length-insert new_fd h fs.fds, v.few);
              unique_files = v.unique_files;
              unique_dirs = v.unique_dirs;
              unique_fds = insert-UniqueKeys new_fd h fs.fds v.unique_fds;
              unique_mappings = v.unique_mappings;
            })
          ])
  ]
