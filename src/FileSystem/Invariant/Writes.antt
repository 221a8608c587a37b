-- ===== src/FileSystem/Invariant/Writes.antt =====
-- Reads, writes and seeks keep the invariant.
use wago_emscripten.Common.{
  ℕ, ◌+◌, ◌^◌, ◌≤◌, ◌<◌, true, false, ◌&&◌, ◌≡◌, refl, sym, subst, ◌∙◌, ◌⊎◌, inl, inr, some, List,
  [], ◌∷◌, length, Bool-cases, Option-cases, lookup, lookup-insert_self, i64_add, i64_sub, i64_lt,
  ltb, ◌==◌, bit_and, nat_eq, bytes_key, arith,
}
use wago_emscripten.FileSystem.{FileSystem, OpenFile, deref, size_of, open_write}
use wago_emscripten.FileSystem.Reply.{Limits}
use wago_emscripten.FileSystem.ReadWrite.{
  Buffer, extend_to, over_quota, write_from, write_vector, write_loop, finish_write, write_on,
  Written, wrote, refused, crashed, buffer_bytes, read_on, read_loop, read_round, got_bytes,
  ReadState,
}
use wago_emscripten.FileSystem.Descriptors.{set_handle}
use wago_emscripten.FileSystem.Accounts.Moves.{used_size-le}
use wago_emscripten.FileSystem.Invariant.{IsLimits, IsValid, names_of, holders_of, handle_used}
use wago_emscripten.FileSystem.Streams.{seek_base, seek_on, move_handle}
use wago_emscripten.FileSystem.Invariant.Handles.{set_handle-IsValid}
use wago_emscripten.FileSystem.Invariant.Sizes.{
  extend_to-IsValid, extend_to_used, extend_to-fds, store_bytes-IsValid,
}

-- What a round of the write loop leaves, however it ends.
abbrev pub left_by : Written → FileSystem
left_by (wrote fs) = fs
left_by (refused fs) = fs
left_by (crashed fs) = fs

module _ (l : Limits) (limits : IsLimits l) where
  -- What the quota test lets through may be grown to.
  over_quota-fits :
      (p end : ℕ) (fs : FileSystem)
      → IsValid l fs
      → 1 ≤ names_of fs p + holders_of fs p
      → end < 2 ^ 64
      → over_quota l p end fs ≡ false
      → i64_lt (size_of (deref fs.heap p)) end ≡ true
      → (end ≤ l.max_filesystem_bytes)
        × (fs.bytes + end ≤ l.max_filesystem_bytes + size_of (deref fs.heap p))
  unfolding over_quota
  over_quota-fits p end fs v used word ok grows =
      ground (arith, used_size-le p v.sound used, v.sound.within, limits.small)

  pub write_from-IsValid :
      (fd : ℕ) (h : OpenFile) (start : ℕ) (bs : List ℕ) (fs : FileSystem)
      → IsValid l fs
      → lookup fd fs.fds ≡ some h
      → IsValid l (left_by (write_from l fd h start bs fs))
  unfolding write_from
  write_from-IsValid fd h start bs fs v e = elim (Bool-cases (over_quota l h.file end fs)) [
    | inl over ↦ rw over moved
    | inr ok ↦ rw ok (elim (Bool-cases (i64_lt start 0)) [
      | inl bad ↦ rw bad (
          extend_to-IsValid l limits h.file end fs' moved
            (handle_used fs' fd (record h { offset = start }) (lookup-insert_self fd _ fs.fds))
            (over_quota-fits h.file end fs v used (omega arith) ok))
      | inr fine ↦ rw fine (
          set_handle-IsValid l limits fd h _ _
            (store_bytes-IsValid l limits h.file start bs _ (grown ok)
              (extend_to_used l limits h.file h.file end fs used))
            (subst (λ m. lookup fd m ≡ some h) (sym (extend_to-fds l limits h.file end fs)) e) refl)
    ])
  ]
    where
      end : ℕ
      end = i64_add start (length bs)

      fs' : FileSystem
      fs' = set_handle fd (record h { offset = start }) fs

      moved : IsValid l fs'
      moved = set_handle-IsValid l limits fd h _ fs v e refl

      used : 1 ≤ names_of fs h.file + holders_of fs h.file
      used = handle_used fs fd h e

      grown : over_quota l h.file end fs ≡ false → IsValid l (extend_to h.file end fs)
      grown ok =
          extend_to-IsValid l limits h.file end fs v used
            (over_quota-fits h.file end fs v used (omega arith) ok)

  write_vector-IsValid :
      (fd : ℕ) (h : OpenFile) (bs : List ℕ) (fs : FileSystem)
      → IsValid l fs
      → lookup fd fs.fds ≡ some h
      → IsValid l (left_by (write_vector l fd h bs fs))
  unfolding write_vector
  write_vector-IsValid fd h bs fs v e = write_from-IsValid fd h _ bs fs v e

  Written-cases :
      (w : Written)
      → ((fs : FileSystem) × (w ≡ wrote fs))
        ⊎ ((fs : FileSystem) × (w ≡ refused fs))
        ⊎ ((fs : FileSystem) × (w ≡ crashed fs))
  Written-cases (wrote fs) = inl (fs, refl)
  Written-cases (refused fs) = inr (inl (fs, refl))
  Written-cases (crashed fs) = inr (inr (fs, refl))

  write_loop-IsValid :
      (fd : ℕ) (mem : List ℕ) (buffers : List Buffer) (total : ℕ) (fs : FileSystem)
      → IsValid l fs
      → IsValid l (left_by (write_loop l fd mem buffers total fs).0)
  unfolding write_loop
  write_loop-IsValid fd mem [] total fs v = v
  write_loop-IsValid fd mem (b ∷ bs) total fs v = elim (Option-cases (lookup fd fs.fds)) [
    | inl z ↦ rw (z, left_by, write_loop) v
    | inr (h, z) ↦
        let kept = write_vector-IsValid fd h (buffer_bytes mem b) fs v z in
        rw (z, left_by, write_loop)
          (elim (Written-cases (write_vector l fd h (buffer_bytes mem b) fs)) [
            | inl (fs', w) ↦
                rw (w, left_by)
                  (write_loop-IsValid fd mem bs _ fs' (subst (λ w'. IsValid l (left_by w')) w kept))
            | inr (inl (fs', w)) ↦ rw (w, left_by) (subst (λ w'. IsValid l (left_by w')) w kept)
            | inr (inr (fs', w)) ↦ rw (w, left_by) (subst (λ w'. IsValid l (left_by w')) w kept)
          ])
  ]

  finish_write-IsValid :
      (written_ptr : ℕ) (mem : List ℕ) (w : Written) (total : ℕ)
      → IsValid l (left_by w)
      → IsValid l (finish_write written_ptr mem (w, total)).fs
  unfolding finish_write
  finish_write-IsValid written_ptr mem (wrote fs) total v = v
  finish_write-IsValid written_ptr mem (refused fs) total v = v
  finish_write-IsValid written_ptr mem (crashed fs) total v = v

  pub write_on-IsValid :
      (fd : ℕ) (buffers : List Buffer) (written_ptr : ℕ) (mem : List ℕ) (fs : FileSystem)
      → IsValid l fs
      → IsValid l (write_on l fd buffers written_ptr mem fs).fs
  unfolding write_on
  write_on-IsValid fd buffers written_ptr mem fs v = elim (Option-cases (lookup fd fs.fds)) [
    | inl z ↦ rw (z, write_on) v
    | inr (h, z) ↦
        rw (z, write_on)
          (elim (Bool-cases (bit_and h.flags 3 == 0)) [
            | inl e ↦ rw e v
            | inr e ↦ rw e (
                finish_write-IsValid written_ptr mem (write_loop l fd mem buffers 0 fs).0
                  (write_loop l fd mem buffers 0 fs).1 (write_loop-IsValid fd mem buffers 0 fs v))
          ])
  ]

  read_loop-file :
      (contents : List ℕ) (buffers : List Buffer) (s : ReadState)
      → (read_loop contents buffers s).handle.file ≡ s.handle.file
  unfolding read_loop
  read_loop-file contents [] s = refl
  read_loop-file contents (b ∷ bs) s =
      elim (Bool-cases (i64_lt s.handle.offset (length contents) && i64_lt s.handle.offset 0)) [
        | inl bad ↦ rw bad refl
        | inr fine ↦
            rw fine (elim (Bool-cases (ltb (length (got_bytes contents s.handle b)) b.size)) [
              | inl last ↦ rw last (unfold read_round in refl)
              | inr more ↦
                  rw more (
                    read_loop-file contents bs (read_round contents b s)
                    ∙ unfold read_round in refl)
            ])
      ]

  pub read_on-IsValid :
      (fd : ℕ) (buffers : List Buffer) (read_ptr : ℕ) (mem : List ℕ) (fs : FileSystem)
      → IsValid l fs
      → IsValid l (read_on fd buffers read_ptr mem fs).fs
  unfolding read_on
  read_on-IsValid fd buffers read_ptr mem fs v = elim (Option-cases (lookup fd fs.fds)) [
    | inl z ↦ rw (z, read_on) v
    | inr (h, z) ↦
        rw (z, read_on)
          (elim (Bool-cases (bit_and h.flags 3 == open_write)) [
            | inl e ↦ rw e v
            | inr e ↦
                let s0 : ReadState = record {
                  handle = h;
                  memory = mem;
                  total = 0;
                  in_range = true;
                } in
                let s = read_loop (deref fs.heap h.file).contents buffers s0 in
                let kept : IsValid l (set_handle fd s.handle fs) =
                  set_handle-IsValid l limits fd h s.handle fs v z
                    (read_loop-file (deref fs.heap h.file).contents buffers s0) in
                rw e (elim (Bool-cases s.in_range) [ inl r ↦ rw r kept | inr r ↦ rw r kept ])
          ])
  ]

  pub seek_on-IsValid :
      (fd delta whence result_ptr : ℕ) (mem : List ℕ) (fs : FileSystem)
      → IsValid l fs
      → IsValid l (seek_on fd delta whence result_ptr mem fs).fs
  unfolding seek_on
  seek_on-IsValid fd delta whence result_ptr mem fs v = elim (Option-cases (lookup fd fs.fds)) [
    | inl z ↦ rw (z, seek_on) v
    | inr (h, z) ↦
        rw (z, seek_on)
          (elim (Option-cases (seek_base whence h fs)) [
            | inl y ↦ rw y v
            | inr (base, y) ↦ rw y (elim (Bool-cases (i64_lt delta (i64_sub 0 base))) [
              | inl out ↦ rw out v
              | inr ok ↦ rw ok (set_handle-IsValid l limits fd h _ fs v z refl)
            ])
          ])
  ]

  pub move_handle-IsValid :
      (fd offset : ℕ) (fs : FileSystem) → IsValid l fs → IsValid l (move_handle fd offset fs)
  unfolding move_handle
  move_handle-IsValid fd offset fs v = elim (Option-cases (lookup fd fs.fds)) [
    | inl z ↦ rw (z, move_handle) v
    | inr (h, z) ↦ rw (z, move_handle) (set_handle-IsValid l limits fd h _ fs v z refl)
  ]
