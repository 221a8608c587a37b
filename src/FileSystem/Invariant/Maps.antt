-- ===== src/FileSystem/Invariant/Maps.antt =====
-- Mapping and unmapping files keep the invariant.
use wago_emscripten.Common.{
  ℕ, ◌+◌, ◌≤◌, true, ◌&&◌, ◌≡◌, refl, inl, inr, some, List, length, Bool-cases, Option-cases,
  lookup, insert-UniqueKeys, erase-UniqueKeys, sum_by-insert, sum_by-erase, i64_add, i64_lt, ltb,
  nat_eq, arith, subst,
}
use wago_emscripten.Memory.{slice}
use wago_emscripten.FileSystem.{FileSystem, FileMapping, deref, size_of, release, retain}
use wago_emscripten.FileSystem.Reply.{Limits}
use wago_emscripten.FileSystem.ReadWrite.{extend_to, store_bytes}
use wago_emscripten.FileSystem.Mappings.{
  Memalign, map_file, mmap_on, fits, writes_back, write_back, munmap_on, drop_mapping,
}
use wago_emscripten.FileSystem.Accounts.Moves.{
  retain-Sound, release-Sound, used_size-le, Sound-fewer,
}
use wago_emscripten.FileSystem.Invariant.{
  IsLimits, IsValid, names_of, holders_of, map_weight, handle_used, mapping_used,
}
use wago_emscripten.FileSystem.Invariant.Sizes.{
  extend_to-IsValid, extend_to_used, extend_to-mappings, store_bytes-IsValid,
}

module _ (l : Limits) (limits : IsLimits l) where
  map_file-IsValid :
      (address : ℕ) (k : FileMapping) (mem : List ℕ) (fs : FileSystem)
      → IsValid l fs
      → 1 ≤ names_of fs k.file + holders_of fs k.file
      → IsValid l (map_file address k mem fs).fs
  unfolding map_file retain
  map_file-IsValid address k mem fs v used = record {
    sound =
        retain-Sound fs _ _ k.file _ v.sound used
          (λ q. ground (arith, sum_by-insert (map_weight q) address k fs.mappings));
    few = v.few;
    unique_files = v.unique_files;
    unique_dirs = v.unique_dirs;
    unique_fds = v.unique_fds;
    unique_mappings = insert-UniqueKeys address k fs.mappings v.unique_mappings;
  }

  pub mmap_on-IsValid :
      (memalign : Memalign) (len prot flags fd offset allocated_ptr address_ptr : ℕ) (mem : List ℕ)
      (fs : FileSystem)
      → IsValid l fs
      → IsValid l (mmap_on memalign len prot flags fd offset allocated_ptr address_ptr mem fs).fs
  unfolding mmap_on
  mmap_on-IsValid memalign len prot flags fd offset allocated_ptr address_ptr mem fs v =
      elim (Option-cases (lookup fd fs.fds)) [
        | inl z ↦ rw (z, mmap_on) v
        | inr (h, z) ↦
            rw (z, mmap_on)
              (elim (Option-cases (memalign mem len).0) [
                | inl y ↦ rw y v
                | inr (address, y) ↦
                    rw y (elim (Bool-cases (ltb (length (memalign mem len).1) (address + len))) [
                      | inl e ↦ rw e v
                      | inr e ↦ rw e (
                          map_file-IsValid address _ (memalign mem len).1 fs v
                            (handle_used fs fd h z))
                    ])
              ])
      ]

  -- A mapping is dropped with its hold on the file.
  drop_mapping-IsValid :
      (address : ℕ) (k : FileMapping) (fs : FileSystem)
      → IsValid l fs
      → lookup address fs.mappings ≡ some k
      → IsValid l (drop_mapping address (release k.file fs))
  unfolding release
  drop_mapping-IsValid address k fs v e = record {
    sound =
        release-Sound fs _ _ k.file _ limits.small v.sound
          (λ q. ground (arith, sum_by-erase (map_weight q) address fs.mappings));
    few = v.few;
    unique_files = v.unique_files;
    unique_dirs = v.unique_dirs;
    unique_fds = v.unique_fds;
    unique_mappings = erase-UniqueKeys address fs.mappings v.unique_mappings;
  }

  -- After a panic the mapping is gone, and its hold on the file is left.
  lose_mapping-IsValid :
      (address : ℕ) (fs : FileSystem) → IsValid l fs → IsValid l (drop_mapping address fs)
  lose_mapping-IsValid address fs v = record {
    sound =
        Sound-fewer _ _ v.sound (λ q. refl)
          (λ q. omega (arith, sum_by-erase (map_weight q) address fs.mappings));
    few = v.few;
    unique_files = v.unique_files;
    unique_dirs = v.unique_dirs;
    unique_fds = v.unique_fds;
    unique_mappings = erase-UniqueKeys address fs.mappings v.unique_mappings;
  }

  write_back_kept :
      (address : ℕ) (k : FileMapping) (mem : List ℕ) (fs fs' : FileSystem)
      → IsValid l (extend_to k.file (i64_add k.offset k.length) fs)
      → lookup address fs.mappings ≡ some k
      → 1 ≤ names_of fs k.file + holders_of fs k.file
      → write_back address k mem fs ≡ some fs'
      → IsValid l fs' × (lookup address fs'.mappings ≡ some k)
  unfolding write_back
  write_back_kept address k mem fs fs' v z used e =
      elim (Bool-cases (ltb (length mem) (address + k.length))) [
        | inl short ↦
            let same : extend_to k.file (i64_add k.offset k.length) fs ≡ fs' = ground arith in
            subst (λ t. IsValid l t × (lookup address t.mappings ≡ some k)) same (v, kept)
        | inr there ↦ elim (Bool-cases (i64_lt (i64_add k.offset k.length) 0)) [
          | inl bad ↦ absurd (ground arith)
          | inr fine ↦
              let same : store_bytes k.file k.offset (slice mem address k.length)
                    (extend_to k.file (i64_add k.offset k.length) fs)
                  ≡ fs' =
                ground arith in
              subst (λ t. IsValid l t × (lookup address t.mappings ≡ some k)) same
                (
                  store_bytes-IsValid l limits k.file k.offset _ _ v
                      (extend_to_used l limits k.file k.file _ fs used),
                  unfold store_bytes in kept,
                )
        ]
      ]
    where
      kept : lookup address (extend_to k.file (i64_add k.offset k.length) fs).mappings ≡ some k
      kept = rw (extend_to-mappings l limits k.file (i64_add k.offset k.length) fs) z

  fits_lem :
      (k : FileMapping) (fs : FileSystem)
      → IsValid l fs
      → 1 ≤ names_of fs k.file + holders_of fs k.file
      → fits l k fs ≡ true
      → i64_lt (size_of (deref fs.heap k.file)) (i64_add k.offset k.length) ≡ true
      → (i64_add k.offset k.length ≤ l.max_filesystem_bytes)
        × (fs.bytes + i64_add k.offset k.length
            ≤ l.max_filesystem_bytes + size_of (deref fs.heap k.file))
  unfolding fits
  fits_lem k fs v used ok grows =
      ground (arith, used_size-le k.file v.sound used, v.sound.within, limits.small)

  pub munmap_on-IsValid :
      (address : ℕ) (mem : List ℕ) (fs : FileSystem)
      → IsValid l fs
      → IsValid l (munmap_on l address mem fs).fs
  unfolding munmap_on
  munmap_on-IsValid address mem fs v = elim (Option-cases (lookup address fs.mappings)) [
    | inl z ↦ rw (z, munmap_on) v
    | inr (k, z) ↦
        rw (z, munmap_on)
          (elim (Bool-cases (writes_back k && fits l k fs)) [
            | inr e ↦ rw e (drop_mapping-IsValid address k fs v z)
            | inl e ↦ rw e (elim (Option-cases (write_back address k mem fs)) [
              | inl y ↦ rw y (lose_mapping-IsValid address _ (extended k z e))
              | inr (fs', y) ↦
                  rw y (drop_mapping-IsValid address k fs' (written k z e y).0 (written k z e y).1)
            ])
          ])
  ]
    where
      extended :
          (k : FileMapping)
          → lookup address fs.mappings ≡ some k
          → (writes_back k && fits l k fs) ≡ true
          → IsValid l (extend_to k.file (i64_add k.offset k.length) fs)
      extended k z e =
          extend_to-IsValid l limits k.file _ fs v (mapping_used fs address k z)
            (fits_lem k fs v (mapping_used fs address k z) (ground arith))

      written :
          (k : FileMapping)
          → lookup address fs.mappings ≡ some k
          → (writes_back k && fits l k fs) ≡ true
          → {fs' : FileSystem} → write_back address k mem fs ≡ some fs'
          → IsValid l fs' × (lookup address fs'.mappings ≡ some k)
      written k z e {fs'} y =
          write_back_kept address k mem fs fs' (extended k z e) z (mapping_used fs address k z) y
