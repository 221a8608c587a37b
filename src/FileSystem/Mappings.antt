-- ===== src/FileSystem/Mappings.antt =====
-- filesystem.go: file mappings, and the legalised high half of a 64-bit result.
use wago_emscripten.Common.{
  ℕ, ◌+◌, Bool, not, ◌&&◌, ◌||◌, Option, none, some, List, length, replicate, lookup, insert, erase,
  ltb, ◌==◌, if◌then◌else◌, i64_add, i64_sub, i64_lt, u32, u64, sign_extend, nat_eq, bit_and,
}
use wago_emscripten.Memory.{write_at, slice, put_u32}
use wago_emscripten.FileSystem.{
  FileSystem, FileMapping, deref, size_of, release, retain, err_bad_fd, err_fault, err_inval,
}
use wago_emscripten.FileSystem.Reply.{
  value, panic, wasi_errno, Reply, answer, Limits, Plugin, Module, Outcome, refuse,
  with_file_system,
}
use wago_emscripten.FileSystem.ReadWrite.{extend_to, store_bytes}

-- The guest's `emscripten_builtin_memalign(65536, length)`, called through the runtime: its address
-- (none for an error or a null answer), and the memory after it, which it may have grown. It is
-- taken to make no filesystem call itself.
abbrev pub Memalign : Type 0
Memalign = List ℕ → ℕ → Option ℕ × List ℕ

-- The file's bytes from `offset` on are copied over zeroed memory; the mapping holds the file.
unfoldable pub map_file : ℕ → FileMapping → List ℕ → FileSystem → Reply
unfolding write_at deref retain
map_file address k mem fs =
    let cleared = write_at mem address (replicate k.length 0) in
    let fs' = retain k.file fs in
    let contents = (deref fs.heap k.file).contents in
    answer
      (if i64_lt k.offset (length contents)
        then write_at cleared address (slice contents k.offset k.length)
        else cleared)
      (record fs' { mappings = insert address k fs.mappings }) (wasi_errno 0)

unfoldable pub mmap_on : Memalign → ℕ → ℕ → ℕ → ℕ → ℕ → ℕ → ℕ → List ℕ → FileSystem → Reply
unfolding map_file
mmap_on memalign len prot flags fd offset allocated_ptr address_ptr mem fs =
    elim (lookup fd fs.fds) [
      | none ↦ answer mem fs (wasi_errno err_bad_fd)
      | some h ↦
          let (allocation, grown) = memalign mem len in
          elim allocation [
            | none ↦ answer grown fs (wasi_errno err_inval)
            | some address ↦
                if ltb (length grown) (address + len)
                then answer grown fs (wasi_errno err_fault)
                else let k : FileMapping = record {
                  file = h.file;
                  offset = offset;
                  length = len;
                  prot = prot;
                  flags = flags;
                } in
                  let r = map_file address k grown fs in
                  answer (put_u32 (put_u32 r.memory allocated_ptr 1) address_ptr address) r.fs
                    r.result
          ]
    ]

unfoldable pub mmap : Memalign → Plugin → Module → ℕ → ℕ → ℕ → ℕ → ℕ → ℕ → ℕ → Outcome
unfolding mmap_on with_file_system
mmap memalign p m len prot flags fd offset allocated_ptr address_ptr =
    if len == 0
      || i64_lt p.limits.max_filesystem_bytes len
      || i64_lt offset 0
      || ltb (length m.memory) (allocated_ptr + 4)
      || ltb (length m.memory) (address_ptr + 4)
    then refuse p m (wasi_errno err_inval)
    else with_file_system p m (wasi_errno err_bad_fd)
        (mmap_on memalign len prot flags fd offset allocated_ptr address_ptr)

unfoldable pub mmap32 : Memalign → Plugin → Module → ℕ → ℕ → ℕ → ℕ → ℕ → ℕ → ℕ → Outcome
unfolding mmap
mmap32 memalign p m p0 p1 p2 p3 p4 p5 p6 =
    mmap memalign p m (u32 p0) (u32 p1) (u32 p2) (u32 p3) (sign_extend (u32 p4)) (u32 p5) (u32 p6)

unfoldable pub mmap64 : Memalign → Plugin → Module → ℕ → ℕ → ℕ → ℕ → ℕ → ℕ → ℕ → Outcome
unfolding mmap
mmap64 memalign p m p0 p1 p2 p3 p4 p5 p6 =
    mmap memalign p m (u32 p0) (u32 p1) (u32 p2) (u32 p3) (u64 p4) (u32 p5) (u32 p6)

-- Whether the write-back of a shared writable mapping stays within the quota.
unfoldable pub fits : Limits → FileMapping → FileSystem → Bool
unfolding deref
fits l k fs =
    let end = i64_add k.offset k.length in
    let growth = i64_sub end (size_of (deref fs.heap k.file)) in
    let growth' = if i64_lt growth 0 then 0 else growth in
    not (i64_lt l.max_filesystem_bytes end)
    && not (i64_lt l.max_filesystem_bytes (i64_add fs.bytes growth'))

-- `prot&2 != 0 && flags&2 == 0`: writable and not private.
abbrev pub writes_back : FileMapping → Bool
writes_back k = not (bit_and k.prot 2 == 0) && bit_and k.flags 2 == 0

-- The copy of the mapped memory into the file. An `end` that has wrapped below zero is a slice
-- bound out of range, where the memory is there to be copied.
unfoldable pub write_back : ℕ → FileMapping → List ℕ → FileSystem → Option FileSystem
unfolding extend_to store_bytes
write_back address k mem fs =
    let end = i64_add k.offset k.length in
    let fs' = extend_to k.file end fs in
    if ltb (length mem) (address + k.length)
    then some fs'
    else if i64_lt end 0
    then none
    else some (store_bytes k.file k.offset (slice mem address k.length) fs')

-- `delete(fs.mappings, address)`. The source deletes first; nothing in between reads the table.
abbrev pub drop_mapping : ℕ → FileSystem → FileSystem
drop_mapping address fs = record fs { mappings = erase address fs.mappings }

unfoldable pub munmap_on : Limits → ℕ → List ℕ → FileSystem → Reply
unfolding fits write_back release
munmap_on l address mem fs = elim (lookup address fs.mappings) [
  | none ↦ answer mem fs (value 0)
  | some k ↦
      if writes_back k && fits l k fs
      then elim (write_back address k mem fs) [
        | none ↦
            answer mem (drop_mapping address (extend_to k.file (i64_add k.offset k.length) fs))
              panic
        | some fs' ↦ answer mem (drop_mapping address (release k.file fs')) (value 0)
      ]
      else answer mem (drop_mapping address (release k.file fs)) (value 0)
]

unfoldable pub munmap : Plugin → Module → ℕ → Outcome
unfolding munmap_on with_file_system
munmap p m p0 = with_file_system p m (value 0) (munmap_on p.limits (u32 p0))

unfoldable pub set_temp_ret0 : Plugin → Module → ℕ → Outcome
unfolding with_file_system
set_temp_ret0 p m p0 =
    with_file_system p m (value 0)
      (λ mem fs. answer mem (record fs { temp_ret0 = u32 p0 }) (value 0))

unfoldable pub get_temp_ret0 : Plugin → Module → Outcome
unfolding with_file_system
get_temp_ret0 p m = with_file_system p m (value 0) (λ mem fs. answer mem fs (value fs.temp_ret0))
