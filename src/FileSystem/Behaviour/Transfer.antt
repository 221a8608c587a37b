-- ===== src/FileSystem/Behaviour/Transfer.antt =====
-- Writing and reading: which bytes a file holds after a write, and that a read gets them.
use wago_emscripten.Common.{
  ℕ, ◌+◌, ◌-◌, ◌^◌, ◌≤◌, ◌<◌, false, ◌&&◌, ◌≡◌, refl, ap, ◌∙◌, inl, inr, none, some, List, length,
  length-append, length-replicate, get_elem?, replicate, Bool-cases, lookup, lookup-insert_self,
  i64_add, i64_lt, ltb, leb, ◌==◌, ==_refl, if◌then◌else◌, if_true, if_false, nat_eq, arith,
}
use wago_emscripten.Memory.{write_at}
use wago_emscripten.FileSystem.{FileSystem, OpenFile, deref, size_of}
use wago_emscripten.FileSystem.Reply.{Limits}
use wago_emscripten.FileSystem.ReadWrite.{
  extend_to, store_bytes, over_quota, write_from, wrote, got_bytes,
}
use wago_emscripten.FileSystem.Accounts.Moves.{used_in_heap, used_size-le}
use wago_emscripten.FileSystem.Invariant.{IsLimits, IsValid, names_of, holders_of, handle_used}
use wago_emscripten.FileSystem.Behaviour.Resizing.{get_elem?-pad}
use wago_emscripten.FileSystem.Behaviour.Contents.{
  get_elem?-write_at, padded, length-padded, heap-extend_to, contents-extend_to,
  contents-store_bytes, read_back,
}

-- The contents of every file after a write of `bs` at `start`.
abbrev pub after_write : FileSystem → ℕ → ℕ → List ℕ → ℕ → List ℕ
after_write fs p start bs q =
    if p == q
    then write_at (padded (deref fs.heap p).contents (start + length bs)) start bs
    else (deref fs.heap q).contents

module _ (l : Limits) (fd : ℕ) (h : OpenFile) (start : ℕ) (bs : List ℕ) (fs : FileSystem) where
  not_over :
      IsLimits l
      → IsValid l fs
      → size_of (deref fs.heap h.file) ≤ fs.bytes
      → start + length bs ≤ l.max_filesystem_bytes
      → fs.bytes + (start + length bs) ≤ l.max_filesystem_bytes + size_of (deref fs.heap h.file)
      → i64_add start (length bs) ≡ start + length bs
      → over_quota l h.file (i64_add start (length bs)) fs ≡ false
  unfolding over_quota
  not_over small v held within room end = rw end (ground (arith, small.small, v.sound.within))

  written :
      IsLimits l
      → IsValid l fs
      → h.file < length fs.heap
      → size_of (deref fs.heap h.file) ≤ fs.bytes
      → start + length bs ≤ l.max_filesystem_bytes
      → (q : ℕ)
      → (deref
          (store_bytes h.file start bs (extend_to h.file (start + length bs) fs)).heap
          q).contents
        ≡ after_write fs h.file start bs q
  written small v inside held within q =
      let grown : (r : ℕ)
          → (deref (extend_to h.file (start + length bs) fs).heap r).contents ≡ (
              if h.file == r
              then padded (deref fs.heap h.file).contents (start + length bs)
              else (deref fs.heap r).contents) =
        λ r.
          contents-extend_to h.file (start + length bs) r fs inside (omega (arith, small.small))
            (omega (arith, small.small, v.sound.within)) in
      let there : h.file < length (extend_to h.file (start + length bs) fs).heap =
        rw (heap-extend_to h.file (start + length bs) fs) inside in
      let mine : (deref (extend_to h.file (start + length bs) fs).heap h.file).contents
          ≡ padded (deref fs.heap h.file).contents (start + length bs) =
        grown h.file ∙ if_true (h.file == h.file) _ _ (==_refl h.file) in
      rw (contents-store_bytes h.file start q bs (extend_to h.file (start + length bs) fs) there)
        (elim (Bool-cases (h.file == q)) [
          | inl z ↦ rw z (ap (λ xs. write_at xs start bs) mine)
          | inr z ↦ rw z (grown q ∙ if_false (h.file == q) _ _ z)
        ])

  extended :
      IsLimits l
      → size_of (deref fs.heap h.file) ≤ fs.bytes
      → start + length bs ≤ l.max_filesystem_bytes
      → fs.bytes ≤ l.max_filesystem_bytes
      → (extend_to h.file (start + length bs) fs).bytes
        ≡ fs.bytes + (start + length bs - size_of (deref fs.heap h.file))
  unfolding extend_to
  extended small held within all =
      elim (Bool-cases (i64_lt (size_of (deref fs.heap h.file)) (start + length bs))) [
        | inl z ↦ rw z (omega (arith, small.small))
        | inr z ↦ rw z (ground (arith, small.small))
      ]

  pub write_from_contents :
      IsLimits l
      → IsValid l fs
      → lookup fd fs.fds ≡ some h
      → start + length bs ≤ l.max_filesystem_bytes
      → fs.bytes + (start + length bs) ≤ l.max_filesystem_bytes + size_of (deref fs.heap h.file)
      → (fs' : FileSystem) × (write_from l fd h start bs fs ≡ wrote fs')
        × (lookup fd fs'.fds ≡ some (record h { offset = start + length bs }))
        × ((q : ℕ) → (deref fs'.heap q).contents ≡ after_write fs h.file start bs q)
        × (fs'.bytes ≡ fs.bytes + (start + length bs - size_of (deref fs.heap h.file)))
  unfolding write_from store_bytes
  write_from_contents small v e within room =
      let used : 1 ≤ names_of fs h.file + holders_of fs h.file = handle_used fs fd h e in
      let inside : h.file < length fs.heap = used_in_heap h.file v.sound used in
      let held : size_of (deref fs.heap h.file) ≤ fs.bytes = used_size-le h.file v.sound used in
      let end : i64_add start (length bs) ≡ start + length bs = omega (arith, small.small) in
      let ok : over_quota l h.file (i64_add start (length bs)) fs ≡ false =
        not_over small v held within room end in
      let fine : i64_lt start 0 ≡ false = ground (arith, small.small) in
      rw ok (
        rw fine (
          _,
          refl,
          rw end (lookup-insert_self fd (record h { offset = start + length bs }) _),
          λ q. contents_end end q ∙ written small v inside held within q,
          ap (λ n. (extend_to h.file n fs).bytes) end ∙ extended small held within v.sound.within,
        ))
    where
      contents_end :
          i64_add start (length bs) ≡ start + length bs
          → (q : ℕ)
          → (deref
              (store_bytes h.file start bs (extend_to h.file (i64_add start (length bs)) fs)).heap
              q).contents
            ≡ (deref
                (store_bytes h.file start bs (extend_to h.file (start + length bs) fs)).heap
                q).contents
      contents_end e q =
          ap (λ n. (deref (store_bytes h.file start bs (extend_to h.file n fs)).heap q).contents) e

  -- A write through an open handle of a valid filesystem that keeps the file and the sum of all
  -- files within the quota succeeds. The handle stands behind the bytes written; the file holds
  -- them from `start` on, zeros in a gap behind its old end, and its old bytes elsewhere.
  pub write_from_lem :
      IsLimits l
      → IsValid l fs
      → lookup fd fs.fds ≡ some h
      → start + length bs ≤ l.max_filesystem_bytes
      → fs.bytes + (start + length bs) ≤ l.max_filesystem_bytes + size_of (deref fs.heap h.file)
      → (fs' : FileSystem) × (write_from l fd h start bs fs ≡ wrote fs')
        × (lookup fd fs'.fds ≡ some (record h { offset = start + length bs }))
        × ((i : ℕ)
            → get_elem? (deref fs'.heap h.file).contents i ≡ (
                if leb start i && ltb i (start + length bs)
                then get_elem? bs (i - start)
                else if ltb i (size_of (deref fs.heap h.file))
                then get_elem? (deref fs.heap h.file).contents i
                else if ltb i start
                then some 0
                else none))
  write_from_lem small v e within room =
      let (fs', done, fds, contents, account) = write_from_contents small v e within room in
      let old = (deref fs.heap h.file).contents in
      let mine : (deref fs'.heap h.file).contents
          ≡ write_at (padded old (start + length bs)) start bs =
        contents h.file ∙ if_true (h.file == h.file) _ _ (==_refl h.file) in
      (
        fs',
        done,
        fds,
        λ i.
            ap (λ xs. get_elem? xs i) mine
            ∙ ground (
              arith,
              get_elem?-write_at (padded old (start + length bs)) start bs i
                  (length-padded old (start + length bs)),
              get_elem?-pad old (start + length bs - length old) i,
            ),
      )

  -- After such a write, a handle of the same file that stands at `start` reads the bytes written
  -- into a vector of their length.
  pub got_bytes-write_from :
      (base : ℕ)
      → IsLimits l
      → IsValid l fs
      → lookup fd fs.fds ≡ some h
      → start + length bs ≤ l.max_filesystem_bytes
      → fs.bytes + (start + length bs) ≤ l.max_filesystem_bytes + size_of (deref fs.heap h.file)
      → (fs' : FileSystem) × (write_from l fd h start bs fs ≡ wrote fs')
        × (got_bytes
              (deref fs'.heap h.file).contents
              (record h { offset = start })
              (record { base = base; size = length bs })
            ≡ bs)
  unfolding got_bytes
  got_bytes-write_from base small v e within room =
      let (fs', done, fds, contents, account) = write_from_contents small v e within room in
      let old = (deref fs.heap h.file).contents in
      let mine : (deref fs'.heap h.file).contents
          ≡ write_at (padded old (start + length bs)) start bs =
        contents h.file ∙ if_true (h.file == h.file) _ _ (==_refl h.file) in
      let held : size_of (deref fs.heap h.file) ≤ fs.bytes =
        used_size-le h.file v.sound (handle_used fs fd h e) in
      let short : length (padded old (start + length bs)) < 2 ^ 63 = omega (
        arith,
        small.small,
        v.sound.within,
        length-append old (replicate (start + length bs - length old) 0),
        length-replicate {A = ℕ} (start + length bs - length old) 0,
      ) in
      (
        fs',
        done,
        rw mine (
            read_back h start base (padded old (start + length bs)) bs
              (length-padded old (start + length bs)) short),
      )
