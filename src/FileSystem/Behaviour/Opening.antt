-- ===== src/FileSystem/Behaviour/Opening.antt =====
-- Opening files: the number that `syscallOpenat` hands out.
use wago_emscripten.Common.{
  ℕ, suc, ◌+◌, ◌^◌, ◌≤◌, ◌<◌, false, ◌≡◌, refl, inl, inr, none, some, List, length, Bool-cases,
  lookup, insert, lookup-insert_self, length-insert, ◌==◌, if◌then◌else◌, i32_lt, nat_eq, bytes_key,
  bit_and, arith,
}
use wago_emscripten.FileSystem.{
  FileSystem, OpenFile, retain, open_create, open_exclusive, open_truncate,
}
use wago_emscripten.FileSystem.Reply.{Limits, answer, value}
use wago_emscripten.FileSystem.Descriptors.{
  table_full, find_free, dup_from, truncate_file, new_handle, open_file, openat_on,
}

-- A handle opened on a file that exists, where the table has room.
openat_on-known :
    (l : Limits) (name : List ℕ) (flags p : ℕ) (mem : List ℕ) (fs : FileSystem)
    → table_full l fs ≡ false
    → lookup name fs.files ≡ some p
    → (bit_and flags (open_create + open_exclusive) == open_create + open_exclusive) ≡ false
    → openat_on l name flags mem fs ≡ open_file p flags mem fs
unfolding openat_on
openat_on-known l name flags p mem fs room known plain = rw room (rw known (rw plain))

open_file-number :
    (p flags : ℕ) (mem : List ℕ) (fs : FileSystem)
    → ((open_file p flags mem fs).result ≡ value fs.next_fd)
      × ((h : OpenFile) × (h.file ≡ p)
          × (lookup fs.next_fd (open_file p flags mem fs).fs.fds ≡ some h))
unfolding open_file new_handle retain truncate_file
open_file-number p flags mem fs = elim (Bool-cases (bit_and flags open_truncate == 0)) [
  | inl e ↦ rw e (refl, (_, refl, lookup-insert_self fs.next_fd _ fs.fds))
  | inr e ↦ rw e (refl, (_, refl, lookup-insert_self fs.next_fd _ fs.fds))
]

find_free-free :
    (n c : ℕ) (fds : List (ℕ × OpenFile)) → lookup c fds ≡ none → find_free (suc n) c fds ≡ some c
unfolding find_free
find_free-free n c fds e = ground arith

dup_from-next :
    (l : Limits) (h : OpenFile) (mem : List ℕ) (fs : FileSystem)
    → table_full l fs ≡ false
    → 3 ≤ fs.next_fd
    → fs.next_fd < 2 ^ 31
    → lookup fs.next_fd fs.fds ≡ none
    → dup_from l h fs.next_fd mem fs
      ≡ answer mem
          (record (retain h.file fs) { fds = insert fs.next_fd h fs.fds })
          (value fs.next_fd)
unfolding dup_from
dup_from-next l h mem fs room low high free =
    let start : i32_lt fs.next_fd 3 ≡ false = ground arith in
    let found : find_free (suc (length fs.fds)) (if i32_lt fs.next_fd 3 then 3 else fs.next_fd)
          fs.fds
        ≡ some fs.next_fd =
      rw start (find_free-free (length fs.fds) fs.next_fd fs.fds free) in
    rw room (rw (found, dup_from))

-- Duplicating to the next number that `openat` would use, and then opening a file that exists, answers
-- the same number twice: the second call replaces the handle that the first has made.
pub openat_on-dup_from :
    (l : Limits) (h : OpenFile) (name : List ℕ) (flags p : ℕ) (mem : List ℕ) (fs : FileSystem)
    → length fs.fds + 4 < l.max_open_files
    → 3 ≤ fs.next_fd
    → fs.next_fd < 2 ^ 31
    → lookup fs.next_fd fs.fds ≡ none
    → lookup name fs.files ≡ some p
    → (bit_and flags (open_create + open_exclusive) == open_create + open_exclusive) ≡ false
    → ((dup_from l h fs.next_fd mem fs).result ≡ value fs.next_fd)
      × (lookup fs.next_fd (dup_from l h fs.next_fd mem fs).fs.fds ≡ some h)
      × ((openat_on l name flags mem (dup_from l h fs.next_fd mem fs).fs).result ≡ value fs.next_fd)
      × ((k : OpenFile) × (k.file ≡ p)
          × (lookup fs.next_fd
                (openat_on l name flags mem (dup_from l h fs.next_fd mem fs).fs).fs.fds
              ≡ some k))
unfolding retain
openat_on-dup_from l h name flags p mem fs room low high free known plain =
    let now : table_full l fs ≡ false = ground arith in
    let fs' : FileSystem = record (retain h.file fs) { fds = insert fs.next_fd h fs.fds } in
    let later : table_full l fs' ≡ false = ground (arith, length-insert fs.next_fd h fs.fds) in
    let (number, (k, same, there)) = open_file-number p flags mem fs' in
    rw (dup_from-next l h mem fs now low high free) (
      rw (openat_on-known l name flags p mem fs' later known plain)
        (refl, lookup-insert_self fs.next_fd h fs.fds, number, (k, same, there)))
