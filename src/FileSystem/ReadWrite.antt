-- ===== src/FileSystem/ReadWrite.antt =====
-- filesystem.go: reading, writing and seeking, sequential and positioned.
use wago_emscripten.Common.{
  ℕ, zero, suc, ◌+◌, ◌*◌, ◌-◌, Bool, true, false, ◌&&◌, ◌||◌, Option, none, some, List, [], ◌∷◌,
  ◌++◌, length, set, replicate, lookup, ltb, ◌==◌, if◌then◌else◌, i64_add, i64_sub, i64_lt, u32,
  nat_eq, bit_and,
}
use wago_emscripten.Memory.{write_at, slice, put_u32, get_u32}
use wago_emscripten.FileSystem.{
  FileSystem, OpenFile, deref, size_of, err_bad_fd, err_inval, open_append, open_write,
}
use wago_emscripten.FileSystem.Reply.{panic, wasi_errno, Reply, answer, Limits}
use wago_emscripten.FileSystem.Descriptors.{set_handle}
use mathlib.Core.Option

-- A guest buffer `mem[base : base+size]`: its place, since reads write through it.
pub record Buffer : Type 0 where
  pub base : ℕ
  pub size : ℕ

-- The table entries from `at` on, `count` of them.
unfoldable pub iovec_loop : List ℕ → ℕ → ℕ → Option (List Buffer)
iovec_loop mem at zero = some []
iovec_loop mem at (suc count) =
    let base = get_u32 mem at in
    let size = get_u32 mem (at + 4) in
    let rest = iovec_loop mem (at + 8) count in
    if ltb (length mem) (base + size)
    then none
    else Option.map (λ bs. record { base = base; size = size } ∷ bs) rest

-- `guestIOVecs`. The table lies in memory, so that `ptr + i*8` does not wrap.
unfoldable pub guest_iovecs : List ℕ → ℕ → ℕ → Option (List Buffer)
unfolding iovec_loop
guest_iovecs mem ptr count =
    if ltb (length mem) (ptr + count * 8) then none else iovec_loop mem ptr count

-- The bytes of a buffer.
abbrev pub buffer_bytes : List ℕ → Buffer → List ℕ
buffer_bytes mem b = slice mem b.base b.size

-- One round of the loop of `wasiFDWrite` on a file: the filesystem after it, or how it stops.
pub data Written : Type 0 where
  wrote : FileSystem → Written
  refused : FileSystem → Written
  crashed : FileSystem → Written

-- Zeros are appended up to `end`, and `bytes` grows with them.
unfoldable pub extend_to : ℕ → ℕ → FileSystem → FileSystem
unfolding deref
extend_to p end fs =
    let f = deref fs.heap p in
    if i64_lt (size_of f) end
    then record fs {
      heap = set fs.heap p (record f { contents = f.contents ++ replicate (end - size_of f) 0 });
      bytes = i64_add fs.bytes (end - size_of f);
    }
    else fs

-- `copy(file.data[offset:], bs)`
unfoldable pub store_bytes : ℕ → ℕ → List ℕ → FileSystem → FileSystem
unfolding deref write_at
store_bytes p offset bs fs =
    let f = deref fs.heap p in
    record fs { heap = set fs.heap p (record f { contents = write_at f.contents offset bs }) }

-- Where a write begins: O_APPEND takes it to the end of the file first.
abbrev pub write_start : OpenFile → FileSystem → ℕ
write_start h fs =
    if bit_and h.flags open_append == 0 then h.offset else size_of (deref fs.heap h.file)

-- `end < 0 || end > max || fs.bytes+end-len(data) > max`
unfoldable pub over_quota : Limits → ℕ → ℕ → FileSystem → Bool
unfolding deref
over_quota l p end fs =
    i64_lt end 0
    || i64_lt l.max_filesystem_bytes end
    || i64_lt l.max_filesystem_bytes (i64_sub (i64_add fs.bytes end) (size_of (deref fs.heap p)))

-- A start below zero is a slice index out of range.
unfoldable pub write_from : Limits → ℕ → OpenFile → ℕ → List ℕ → FileSystem → Written
unfolding over_quota extend_to store_bytes
write_from l fd h start bs fs =
    let end = i64_add start (length bs) in
    let fs' = set_handle fd (record h { offset = start }) fs in
    if over_quota l h.file end fs
    then refused fs'
    else if i64_lt start 0
    then crashed (extend_to h.file end fs')
    else wrote (
        set_handle fd (record h { offset = end })
          (store_bytes h.file start bs (extend_to h.file end fs)))

unfoldable pub write_vector : Limits → ℕ → OpenFile → List ℕ → FileSystem → Written
unfolding write_from deref
write_vector l fd h bs fs = write_from l fd h (write_start h fs) bs fs

-- The vectors in turn; `total` is what has been written so far. The handle stays in the table, and
-- is looked up for its offset.
unfoldable pub write_loop : Limits → ℕ → List ℕ → List Buffer → ℕ → FileSystem → Written × ℕ
unfolding write_vector
write_loop l fd mem [] total fs = (wrote fs, total)
write_loop l fd mem (b ∷ bs) total fs = elim (lookup fd fs.fds) [
  | none ↦ (wrote fs, total)
  | some h ↦ elim (write_vector l fd h (buffer_bytes mem b) fs) [
    | wrote fs' ↦ write_loop l fd mem bs (u32 (total + b.size)) fs'
    | refused fs' ↦ (refused fs', total)
    | crashed fs' ↦ (crashed fs', total)
  ]
]

unfoldable pub finish_write : ℕ → List ℕ → Written × ℕ → Reply
finish_write written_ptr mem (wrote fs, total) =
    answer (put_u32 mem written_ptr total) fs (wasi_errno 0)
finish_write written_ptr mem (refused fs, total) = answer mem fs (wasi_errno err_inval)
finish_write written_ptr mem (crashed fs, total) = answer mem fs panic

-- The locked part of `wasiFDWrite`.
unfoldable pub write_on : Limits → ℕ → List Buffer → ℕ → List ℕ → FileSystem → Reply
unfolding write_loop finish_write
write_on l fd buffers written_ptr mem fs = elim (lookup fd fs.fds) [
  | none ↦ answer mem fs (wasi_errno err_bad_fd)
  | some h ↦
      if bit_and h.flags 3 == 0
      then answer mem fs (wasi_errno err_bad_fd)
      else finish_write written_ptr mem (write_loop l fd mem buffers 0 fs)
]

-- The loop of `wasiFDRead` on a file: the handle and memory after it, the count, or a crash.
-- It stops at the first vector that is not filled.
pub record ReadState : Type 0 where
  pub handle : OpenFile
  pub memory : List ℕ
  pub total : ℕ
  pub in_range : Bool

-- What one vector gets from the file: nothing at or behind its end.
unfoldable pub got_bytes : List ℕ → OpenFile → Buffer → List ℕ
got_bytes contents h b =
    if i64_lt h.offset (length contents) then slice contents h.offset b.size else []

unfoldable pub read_round : List ℕ → Buffer → ReadState → ReadState
unfolding got_bytes write_at
read_round contents b s =
    let h = s.handle in
    let got = got_bytes contents h b in
    record s {
      handle = record h { offset = i64_add h.offset (length got) };
      memory = write_at s.memory b.base got;
      total = u32 (s.total + length got);
    }

-- An offset below zero is a slice index out of range.
unfoldable pub read_loop : List ℕ → List Buffer → ReadState → ReadState
unfolding read_round
read_loop contents [] s = s
read_loop contents (b ∷ bs) s =
    let h = s.handle in
    let s' = read_round contents b s in
    let rest = read_loop contents bs s' in
    if i64_lt h.offset (length contents) && i64_lt h.offset 0
    then record s { in_range = false }
    else if ltb (length (got_bytes contents h b)) b.size
    then s'
    else rest

unfoldable pub read_on : ℕ → List Buffer → ℕ → List ℕ → FileSystem → Reply
unfolding read_loop deref
read_on fd buffers read_ptr mem fs = elim (lookup fd fs.fds) [
  | none ↦ answer mem fs (wasi_errno err_bad_fd)
  | some h ↦
      if bit_and h.flags 3 == open_write
      then answer mem fs (wasi_errno err_bad_fd)
      else let s =
          read_loop (deref fs.heap h.file).contents buffers
            (record { handle = h; memory = mem; total = 0; in_range = true }) in
        let fs' = set_handle fd s.handle fs in
        if s.in_range
        then answer (put_u32 s.memory read_ptr s.total) fs' (wasi_errno 0)
        else answer s.memory fs' panic
]
