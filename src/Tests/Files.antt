-- ===== src/Tests/Files.antt =====
-- A filesystem with the file `/a` of three bytes, open once as descriptor 3.
use wago_emscripten.Common.{
  ℕ, ◌+◌, ◌-◌, ◌≤◌, not, ◌&&◌, ◌≡◌, ◌≢◌, refl, none, some, List, [], ◌∷◌, get_elem?, lookup,
  if◌then◌else◌, ltb, leb, ◌==◌, bytes_eq, bytes_key, nat_eq, arith,
}
use wago_emscripten.Memory.{write_at}
use wago_emscripten.Paths.{root, dir, clean, clean_guest_path, split_slash, resolve, render, join}
use wago_emscripten.Paths.Canonical.{IsClean}
use wago_emscripten.Paths.Parents.{clean_guest_path-IsClean}
use wago_emscripten.FileSystem.{
  FileSystem, OpenFile, pos, deref, size_of, count_is_zero, err_bad_fd, err_inval,
}
use wago_emscripten.FileSystem.Invariant.{holders_of}
use wago_emscripten.FileSystem.Reply.{value, answer, wasi_errno, neg_errno}
use wago_emscripten.FileSystem.Descriptors.{close_on, dup_from, openat_on}
use wago_emscripten.FileSystem.Names.{unlink_on, rename_on}
use wago_emscripten.FileSystem.Sizes.{resize}
use wago_emscripten.FileSystem.ReadWrite.{
  Buffer, over_quota, write_from, write_loop, wrote, refused, crashed, extend_to, store_bytes,
  got_bytes,
}
use wago_emscripten.FileSystem.Behaviour.Gather.{write_loop-put_bytes}
use wago_emscripten.FileSystem.Behaviour.Gather.Puts.{put_bytes}
use wago_emscripten.FileSystem.Behaviour.Closing.{
  close_on-closes, unlink_on_lem, close_on-unlink_on,
}
use wago_emscripten.FileSystem.Behaviour.Duplicate.{dup_from_lem}
use wago_emscripten.FileSystem.Behaviour.Opening.{openat_on-dup_from}
use wago_emscripten.FileSystem.Behaviour.Renaming.{rename_on-files}
use wago_emscripten.FileSystem.Behaviour.Resizing.{resize_lem, resize-over}
use wago_emscripten.FileSystem.Behaviour.Transfer.{write_from_lem, got_bytes-write_from}
use wago_emscripten.Tests.Fixtures.{
  small_limits, small_limits-IsLimits, name_a, name_b, handle, demo, demo-IsValid, demo_open,
  demo_free, demo_named_a, demo_room, demo_used, demo-dir, tight_limits, tight_limits-IsLimits,
  full, full-IsValid, full_used, full_over,
}

-- Four bytes written at position 2 leave the first two as they were.
write_from-demo :
    elim (write_from small_limits 3 handle 2 (7 ∷ 8 ∷ 9 ∷ []) demo) [
      | wrote fs ↦ (deref fs.heap 0).contents
      | refused fs ↦ []
      | crashed fs ↦ []
    ]
    ≡ 1 ∷ 2 ∷ 7 ∷ 8 ∷ 9 ∷ []
unfolding write_from over_quota extend_to store_bytes deref write_at
write_from-demo = refl

write_from_lem_example :
    (fs' : FileSystem) × (write_from small_limits 3 handle 2 (7 ∷ 8 ∷ 9 ∷ []) demo ≡ wrote fs')
    × (lookup 3 fs'.fds ≡ some (record handle { offset = 5 }))
    × ((i : ℕ)
        → get_elem? (deref fs'.heap 0).contents i ≡ (
            if leb 2 i && ltb i 5
            then get_elem? (7 ∷ 8 ∷ 9 ∷ []) (i - 2)
            else if ltb i (size_of (deref demo.heap 0))
            then get_elem? (deref demo.heap 0).contents i
            else if ltb i 2
            then some 0
            else none))
write_from_lem_example =
    write_from_lem small_limits 3 handle 2 (7 ∷ 8 ∷ 9 ∷ []) demo small_limits-IsLimits demo-IsValid
      demo_open (omega arith) demo_room

abbrev two_bytes : Buffer
two_bytes = record { base = 0; size = 2 }

abbrev one_byte : Buffer
one_byte = record { base = 2; size = 1 }

gather_room : demo.bytes + (1 + 3) ≤ small_limits.max_filesystem_bytes + size_of (deref demo.heap 0)
unfolding deref
gather_room = omega arith

got_bytes-write_from_example :
    (fs' : FileSystem) × (write_from small_limits 3 handle 2 (7 ∷ 8 ∷ 9 ∷ []) demo ≡ wrote fs')
    × (got_bytes
          (deref fs'.heap 0).contents
          (record handle { offset = 2 })
          (record { base = 64; size = 3 })
        ≡ 7 ∷ 8 ∷ 9 ∷ [])
got_bytes-write_from_example =
    got_bytes-write_from small_limits 3 handle 2 (7 ∷ 8 ∷ 9 ∷ []) demo 64 small_limits-IsLimits
      demo-IsValid demo_open (omega arith) demo_room

write_loop-put_bytes_example :
    (fs' : FileSystem) × (count : ℕ) × (write_loop small_limits 3
        (7 ∷ 8 ∷ 9 ∷ [])
        (two_bytes ∷ one_byte ∷ [])
        0
        demo
      ≡ (wrote fs', count))
    × (lookup 3 fs'.fds ≡ some (record handle { offset = 4 }))
    × ((i : ℕ)
        → get_elem? (deref fs'.heap 0).contents i
          ≡ put_bytes 1 (7 ∷ 8 ∷ 9 ∷ []) (get_elem? (1 ∷ 2 ∷ 3 ∷ [])) i)
unfolding deref
write_loop-put_bytes_example =
    write_loop-put_bytes small_limits 3 (7 ∷ 8 ∷ 9 ∷ []) two_bytes (one_byte ∷ []) 0 demo handle
      small_limits-IsLimits demo-IsValid demo_open refl (omega arith) gather_room

unlink_on_lem_example :
    ((unlink_on name_a [] demo).result ≡ value 0)
    × (lookup name_a (unlink_on name_a [] demo).fs.files ≡ none)
    × ((unlink_on name_a [] demo).fs.fds ≡ demo.fds)
    × ((q : ℕ)
        → (deref (unlink_on name_a [] demo).fs.heap q).contents ≡ (deref demo.heap q).contents)
    × ((unlink_on name_a [] demo).fs.bytes ≡ (
        if ltb 0 (holders_of demo 0)
        then demo.bytes
        else if count_is_zero (deref demo.heap 0).refs
        then demo.bytes - size_of (deref demo.heap 0)
        else demo.bytes))
unlink_on_lem_example =
    unlink_on_lem small_limits name_a 0 [] demo small_limits-IsLimits demo-IsValid demo_named_a

close_on-closes_example :
    ((close_on 3 [] demo).result ≡ value 0)
    × ((j : ℕ)
        → lookup j (close_on 3 [] demo).fs.fds ≡ (if 3 == j then none else lookup j demo.fds))
    × (close_on 3 [] (close_on 3 [] demo).fs
        ≡ answer [] (close_on 3 [] demo).fs (wasi_errno err_bad_fd))
close_on-closes_example = close_on-closes small_limits 3 handle [] [] demo demo-IsValid demo_open

-- The descriptor is the only reference.
close_on-unlink_on_example :
    ((unlink_on name_a [] demo).fs.bytes ≡ 3)
    × ((deref (close_on 3 [] (unlink_on name_a [] demo).fs).fs.heap 0).refs ≡ pos 0)
    × ((close_on 3 [] (unlink_on name_a [] demo).fs).fs.bytes
        ≡ (if 0 == 0 then 3 - size_of (deref demo.heap 0) else 3))
unfolding deref
close_on-unlink_on_example =
    close_on-unlink_on small_limits name_a 3 0 handle [] [] demo small_limits-IsLimits demo-IsValid
      demo_named_a demo_open refl

dup_from_lem_example :
    (fd : ℕ) × ((dup_from small_limits handle 3 [] demo).result ≡ value fd)
    × (lookup fd demo.fds ≡ none)
    × ((j : ℕ)
        → lookup j (dup_from small_limits handle 3 [] demo).fs.fds
          ≡ (if fd == j then some handle else lookup j demo.fds))
dup_from_lem_example = dup_from_lem small_limits handle 3 [] demo (omega arith) (omega arith) refl

openat_on-dup_from_example :
    ((dup_from small_limits handle 4 [] demo).result ≡ value 4)
    × (lookup 4 (dup_from small_limits handle 4 [] demo).fs.fds ≡ some handle)
    × ((openat_on small_limits name_a 0 [] (dup_from small_limits handle 4 [] demo).fs).result
        ≡ value 4)
    × ((k : OpenFile) × (k.file ≡ 0)
        × (lookup 4
              (openat_on small_limits name_a 0 []
                (dup_from small_limits handle 4 [] demo).fs).fs.fds
            ≡ some k))
openat_on-dup_from_example =
    openat_on-dup_from small_limits handle name_a 0 0 [] demo (omega arith) (omega arith)
      (omega arith) demo_free demo_named_a refl

resize_lem_example :
    ((resize small_limits 0 5 [] demo).result ≡ value 0)
    × ((q i : ℕ)
        → get_elem? (deref (resize small_limits 0 5 [] demo).fs.heap q).contents i ≡ (
            if 0 == q && not (ltb i 5 && ltb i (size_of (deref demo.heap 0)))
            then if ltb i 5 then some 0 else none
            else get_elem? (deref demo.heap q).contents i))
    × ((resize small_limits 0 5 [] demo).fs.bytes + size_of (deref demo.heap 0) ≡ 3 + 5)
resize_lem_example =
    resize_lem small_limits 0 5 [] demo small_limits-IsLimits demo-IsValid demo_used (omega arith)
      (omega arith)

-- Two more bytes are refused where another file has the rest of the quota.
resize-over_example : resize tight_limits 1 3 [] full ≡ answer [] full (neg_errno err_inval)
resize-over_example =
    resize-over tight_limits 1 3 [] full tight_limits-IsLimits full-IsValid full_used (omega arith)
      full_over

rename_on-files_example :
    ((rename_on name_a name_b [] demo).result ≡ value 0)
    × ((name : List ℕ)
        → lookup name (rename_on name_a name_b [] demo).fs.files ≡ (
            if bytes_eq name_a name
            then none
            else if bytes_eq name_b name
            then some 0
            else lookup name demo.files))
unfolding dir bytes_eq
rename_on-files_example =
    rename_on-files small_limits name_a name_b 0 [] demo demo-IsValid (demo-dir name_b refl)
      demo_named_a

-- `a//../b/.` is `/b`.
clean_guest_path-IsClean_example : IsClean name_b × (name_b ≢ root)
unfolding clean_guest_path clean split_slash resolve render join bytes_eq
clean_guest_path-IsClean_example =
    clean_guest_path-IsClean (b'a' ∷ b'/' ∷ b'/' ∷ b'.' ∷ b'.' ∷ b'/' ∷ b'b' ∷ b'/' ∷ b'.' ∷ [])
      refl
