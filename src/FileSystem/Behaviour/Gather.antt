-- ===== src/FileSystem/Behaviour/Gather.antt =====
-- Writing a list of buffers: the file afterwards, as a function from positions to bytes.
pub mod Puts
use wago_emscripten.Common.{
  ℕ, zero, suc, ◌+◌, ◌-◌, ◌^◌, ◌≤◌, ◌<◌, true, false, ◌&&◌, ◌≡◌, refl, sym, ap, subst, ◌∙◌, inl,
  inr, Option, none, some, List, [], ◌∷◌, ◌++◌, append_assoc, append-nil, length, length-append,
  length-replicate, get_elem?, get_elem?-lt, get_elem?-first, get_elem?-second, replicate,
  Bool-cases, Option-cases, lookup, ltb, leb, ◌==◌, ==_refl, if◌then◌else◌, if_true, if_false,
  nat_eq, u32, bit_and, arith,
}
use wago_emscripten.Memory.{write_at}
use wago_emscripten.Memory.Words.{length-write_at}
use wago_emscripten.FileSystem.{FileSystem, OpenFile, deref, size_of, open_append}
use wago_emscripten.FileSystem.Reply.{Limits}
use wago_emscripten.FileSystem.ReadWrite.{
  Buffer, buffer_bytes, Written, wrote, write_start, write_from, write_vector, write_loop,
}
use wago_emscripten.FileSystem.Invariant.{IsLimits, IsValid}
use wago_emscripten.FileSystem.Invariant.Writes.{left_by, write_from-IsValid}
use wago_emscripten.FileSystem.Behaviour.Contents.{padded}
use wago_emscripten.FileSystem.Behaviour.Transfer.{after_write, write_from_contents, write_from_lem}
use wago_emscripten.Wasm.Arguments.Layout.{get_elem?-append}
use wago_emscripten.FileSystem.Behaviour.Gather.Puts.{
  put_bytes, put_bytes-by_size, put_bytes-append, put_bytes-ext,
}

-- The buffers' bytes as one.
abbrev pub all_bytes : List ℕ → List Buffer → List ℕ
all_bytes mem [] = []
all_bytes mem (b ∷ bs) = buffer_bytes mem b ++ all_bytes mem bs

module _ (l : Limits) (fd : ℕ) (mem : List ℕ) where
  write_loop-round :
      (b : Buffer) (bs : List Buffer) (total : ℕ) (fs fs' : FileSystem) (h : OpenFile)
      → lookup fd fs.fds ≡ some h
      → (bit_and h.flags open_append == 0) ≡ true
      → write_from l fd h h.offset (buffer_bytes mem b) fs ≡ wrote fs'
      → write_loop l fd mem (b ∷ bs) total fs ≡ write_loop l fd mem bs (u32 (total + b.size)) fs'
  unfolding write_loop write_vector
  write_loop-round b bs total fs fs' h e plain w = rw (e, write_loop) (rw plain (rw w refl))

  write_loop-end :
      (total : ℕ) (fs : FileSystem) → write_loop l fd mem [] total fs ≡ (wrote fs, total)
  unfolding write_loop
  write_loop-end total fs = refl

  -- What one buffer leaves: a valid filesystem in which the account has moved with the file's size.
  buffer-put_bytes :
      (b : Buffer) (fs : FileSystem) (h : OpenFile)
      → IsLimits l
      → IsValid l fs
      → lookup fd fs.fds ≡ some h
      → h.offset + length (buffer_bytes mem b) ≤ l.max_filesystem_bytes
      → fs.bytes + (h.offset + length (buffer_bytes mem b))
        ≤ l.max_filesystem_bytes + size_of (deref fs.heap h.file)
      → (fs' : FileSystem) × (write_from l fd h h.offset (buffer_bytes mem b) fs ≡ wrote fs')
        × (lookup fd fs'.fds ≡ some (record h { offset = h.offset + length (buffer_bytes mem b) }))
        × IsValid l fs'
        × ((i : ℕ)
            → get_elem? (deref fs'.heap h.file).contents i
              ≡ put_bytes h.offset
                  (buffer_bytes mem b)
                  (get_elem? (deref fs.heap h.file).contents)
                  i)
        × (fs'.bytes + size_of (deref fs.heap h.file) ≡ fs.bytes + size_of (deref fs'.heap h.file))
  buffer-put_bytes b fs h small v e within quota =
      let bytes = buffer_bytes mem b in
      let (fs', done, stands, contents, account) =
        write_from_contents l fd h h.offset bytes fs small v e within quota in
      let (fs'', done', stands', bytes_are) =
        write_from_lem l fd h h.offset bytes fs small v e within quota in
      let same : fs'' ≡ fs' = ap left_by (sym done' ∙ done) in
      let old = (deref fs.heap h.file).contents in
      let mine : (deref fs'.heap h.file).contents
          ≡ write_at (padded old (h.offset + length bytes)) h.offset bytes =
        contents h.file ∙ if_true (h.file == h.file) _ _ (==_refl h.file) in
      let size : size_of (deref fs'.heap h.file)
          ≡ length old + (h.offset + length bytes - length old) =
        ap length mine
        ∙ omega (
          arith,
          length-write_at (padded old (h.offset + length bytes)) h.offset bytes,
          length-append old (replicate (h.offset + length bytes - length old) 0),
          length-replicate {A = ℕ} (h.offset + length bytes - length old) 0,
        ) in
      (
        fs',
        done,
        stands,
        subst (λ w. IsValid l (left_by w)) done
            (write_from-IsValid l small fd h h.offset bytes fs v e),
        λ i.
            ap (λ f. get_elem? (deref f.heap h.file).contents i) (sym same)
            ∙ bytes_are i
            ∙ put_bytes-by_size h.offset bytes old i,
        omega (arith, account, size),
      )

-- A write of one buffer or more through a handle without O_APPEND, of a valid filesystem, that keeps
-- the file and the sum of all files within the quota: as a function from positions to bytes the file
-- is what one write of all the buffers' bytes at the handle's offset makes of it, and the handle
-- stands behind them.
pub write_loop-put_bytes :
    (l : Limits) (fd : ℕ) (mem : List ℕ) (b : Buffer) (bs : List Buffer) (total : ℕ)
    (fs : FileSystem) (h : OpenFile)
    → IsLimits l
    → IsValid l fs
    → lookup fd fs.fds ≡ some h
    → (bit_and h.flags open_append == 0) ≡ true
    → h.offset + length (all_bytes mem (b ∷ bs)) ≤ l.max_filesystem_bytes
    → fs.bytes + (h.offset + length (all_bytes mem (b ∷ bs)))
      ≤ l.max_filesystem_bytes + size_of (deref fs.heap h.file)
    → (fs' : FileSystem) × (count : ℕ) × (write_loop l fd mem (b ∷ bs) total fs
        ≡ (wrote fs', count))
      × (lookup fd fs'.fds
          ≡ some (record h { offset = h.offset + length (all_bytes mem (b ∷ bs)) }))
      × ((i : ℕ)
          → get_elem? (deref fs'.heap h.file).contents i
            ≡ put_bytes h.offset
                (all_bytes mem (b ∷ bs))
                (get_elem? (deref fs.heap h.file).contents)
                i)
write_loop-put_bytes l fd mem b [] total fs h small v e plain within quota =
    let bytes = buffer_bytes mem b in
    let one : bytes ++ [] ≡ bytes = append-nil bytes in
    let size : length (bytes ++ []) ≡ length bytes = ap length one in
    let (fs', done, stands, v', is, account) =
      buffer-put_bytes l fd mem b fs h small v e (omega (arith, size, within))
        (omega (arith, size, quota)) in
    (
      fs',
      u32 (total + b.size),
      write_loop-round l fd mem b [] total fs fs' h e plain done ∙ write_loop-end l fd mem _ fs',
      stands ∙ ap (λ n. some (record h { offset = h.offset + n })) (sym size),
      λ i.
          is i
          ∙ ap (λ xs. put_bytes h.offset xs (get_elem? (deref fs.heap h.file).contents) i)
              (sym one),
    )
write_loop-put_bytes l fd mem b (c ∷ cs) total fs h small v e plain within quota =
    let bytes = buffer_bytes mem b in
    let rest = all_bytes mem (c ∷ cs) in
    let both : length (bytes ++ rest) ≡ length bytes + length rest = length-append bytes rest in
    let (fs1, done, stands, v', is, account) =
      buffer-put_bytes l fd mem b fs h small v e (omega (arith, both, within))
        (omega (arith, both, quota)) in
    let h1 : OpenFile = record h { offset = h.offset + length bytes } in
    let (fs', count, loop, stands', is') =
      write_loop-put_bytes l fd mem c cs (u32 (total + b.size)) fs1 h1 small v' stands plain
        (omega (arith, both, within)) (omega (arith, both, quota, account)) in
    let end : h.offset + length bytes + length rest ≡ h.offset + length (bytes ++ rest) =
      omega (arith, both) in
    (
      fs',
      count,
      write_loop-round l fd mem b (c ∷ cs) total fs fs1 h e plain done ∙ loop,
      stands' ∙ ap (λ n. some (record h { offset = n })) end,
      λ i.
          is' i
          ∙ put_bytes-ext (h.offset + length bytes) rest _ _ i (is i)
          ∙ put_bytes-append h.offset bytes rest (get_elem? (deref fs.heap h.file).contents) i,
    )
