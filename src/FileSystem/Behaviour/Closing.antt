-- ===== src/FileSystem/Behaviour/Closing.antt =====
-- Closing descriptors, and files that lose their name while they are open.
use wago_emscripten.Common.{
  ℕ, ◌-◌, ◌≤◌, ◌<◌, ◌≡◌, refl, ap, ◌∙◌, inl, inr, none, some, List, length, Bool-cases, lookup,
  erase, lookup-erase_ne, lookup-erase_self, if◌then◌else◌, ◌==◌, ==→eq, nat_eq, bytes_key, set,
  length-set, ◌^◌, ◌&&◌, ltb, zero, suc, ==_refl, true, false, i64_sub, UniqueKeys, subst, arith,
}
use wago_emscripten.FileSystem.{
  Count, pos, negsuc, FileSystem, OpenFile, MemoryFile, deref, size_of, count_is_zero, count_dec,
  unlink, release, err_bad_fd,
}
use wago_emscripten.FileSystem.Reply.{Limits, answer, value, wasi_errno}
use wago_emscripten.FileSystem.Descriptors.{close_on}
use wago_emscripten.FileSystem.Names.{unlink_on}
use wago_emscripten.FileSystem.Accounts.{Covers, deref-set}
use wago_emscripten.FileSystem.Accounts.Moves.{used_in_heap, used_size-le}
use wago_emscripten.FileSystem.Invariant.{IsLimits, IsValid, holders_of, name_used}

lookup-erase_lem :
    (k j : ℕ) (fds : List (ℕ × OpenFile))
    → UniqueKeys fds
    → lookup j (erase k fds) ≡ (if k == j then none else lookup j fds)
lookup-erase_lem k j fds u = elim (Bool-cases (k == j)) [
  | inl e ↦
      let same : k ≡ j = ==→eq k j e in
      rw e (subst (λ t. lookup t (erase k fds) ≡ none) same (lookup-erase_self k fds u))
  | inr e ↦ rw e (lookup-erase_ne k j fds e)
]

closed_lem :
    (fd : ℕ) (mem : List ℕ) (fs : FileSystem)
    → lookup fd fs.fds ≡ none
    → close_on fd mem fs ≡ answer mem fs (wasi_errno err_bad_fd)
unfolding close_on
closed_lem fd mem fs e = rw (e, close_on)

close_on_fds :
    (fd : ℕ) (h : OpenFile) (mem : List ℕ) (fs : FileSystem)
    → lookup fd fs.fds ≡ some h
    → ((close_on fd mem fs).result ≡ value 0) × ((close_on fd mem fs).fs.fds ≡ erase fd fs.fds)
unfolding close_on
close_on_fds fd h mem fs e = rw (e, close_on) (refl, refl)

-- Closing an open descriptor of a valid filesystem answers 0 and frees that number and no other;
-- closing it again answers EBADF and changes nothing.
pub close_on-closes :
    (l : Limits) (fd : ℕ) (h : OpenFile) (mem mem' : List ℕ) (fs : FileSystem)
    → IsValid l fs
    → lookup fd fs.fds ≡ some h
    → ((close_on fd mem fs).result ≡ value 0)
      × ((j : ℕ)
          → lookup j (close_on fd mem fs).fs.fds ≡ (if fd == j then none else lookup j fs.fds))
      × (close_on fd mem' (close_on fd mem fs).fs
          ≡ answer mem' (close_on fd mem fs).fs (wasi_errno err_bad_fd))
close_on-closes l fd h mem mem' fs v e =
    let (done, fds) = close_on_fds fd h mem fs e in
    let gone : lookup fd (close_on fd mem fs).fs.fds ≡ none =
      ap (lookup fd) fds ∙ lookup-erase_self fd fs.fds v.unique_fds in
    (
      done,
      λ j. ap (lookup j) fds ∙ lookup-erase_lem fd j fs.fds v.unique_fds,
      closed_lem fd mem' (close_on fd mem fs).fs gone,
    )

contents_kept :
    (fs : FileSystem) (p q : ℕ) (f : MemoryFile)
    → p < length fs.heap
    → f.contents ≡ (deref fs.heap p).contents
    → (deref (set fs.heap p f) q).contents ≡ (deref fs.heap q).contents
contents_kept fs p q f h e = elim (Bool-cases (p == q)) [
  | inl z ↦
      let same : p ≡ q = ==→eq p q z in
      rw (deref-set fs.heap p q f h) (rw z (e ∙ ap (λ i. (deref fs.heap i).contents) same))
  | inr z ↦ rw (deref-set fs.heap p q f h) (rw z)
]

-- A file that something holds has a count above zero.
held_count :
    (n : ℕ) (refs : Count) (given kept : ℕ)
    → Covers n refs
    → (if count_is_zero refs then given else kept)
      ≡ (if ltb 0 n then kept else if count_is_zero refs then given else kept)
held_count zero refs given kept c = ground arith
held_count (suc n) (pos zero) given kept c = absurd (omega (arith, c))
held_count (suc n) (pos (suc r)) given kept c = ground arith
held_count (suc n) (negsuc r) given kept c = elim c [ ]

-- Removing the name of a file of a valid filesystem answers 0 and frees the name. The descriptors
-- are left alone and every file keeps its contents, so that a handle reads what it read before. The
-- quota gives no byte back while a descriptor or a mapping holds the file; where nothing holds it, its
-- bytes are given back if its stored count of references is zero.
pub unlink_on_lem :
    (l : Limits) (name : List ℕ) (p : ℕ) (mem : List ℕ) (fs : FileSystem)
    → IsLimits l
    → IsValid l fs
    → lookup name fs.files ≡ some p
    → ((unlink_on name mem fs).result ≡ value 0)
      × (lookup name (unlink_on name mem fs).fs.files ≡ none)
      × ((unlink_on name mem fs).fs.fds ≡ fs.fds)
      × ((q : ℕ) → (deref (unlink_on name mem fs).fs.heap q).contents ≡ (deref fs.heap q).contents)
      × ((unlink_on name mem fs).fs.bytes ≡ (
          if ltb 0 (holders_of fs p)
          then fs.bytes
          else if count_is_zero (deref fs.heap p).refs
          then fs.bytes - size_of (deref fs.heap p)
          else fs.bytes))
unfolding unlink_on unlink
unlink_on_lem l name p mem fs small v e =
    let held : size_of (deref fs.heap p) ≤ fs.bytes =
      used_size-le p v.sound (name_used fs name p e) in
    let given : i64_sub fs.bytes (size_of (deref fs.heap p))
        ≡ fs.bytes - size_of (deref fs.heap p) =
      omega (arith, held, v.sound.within, small.small) in
    rw (e, unlink_on)
      (
        refl,
        lookup-erase_self name fs.files v.unique_files,
        refl,
        λ q. contents_kept fs p q _ (used_in_heap p v.sound (name_used fs name p e)) refl,
        ap (λ b. if count_is_zero (deref fs.heap p).refs then b else fs.bytes) given
            ∙ held_count (holders_of fs p) (deref fs.heap p).refs
                (fs.bytes - size_of (deref fs.heap p)) fs.bytes (v.sound.held p),
      )

-- One reference less on a file without a name, of which `n` are left.
release_unlinked :
    (fs : FileSystem) (p n : ℕ)
    → p < length fs.heap
    → (deref fs.heap p).linked ≡ false
    → (deref fs.heap p).refs ≡ pos (suc n)
    → size_of (deref fs.heap p) ≤ fs.bytes
    → fs.bytes < 2 ^ 62
    → ((deref (release p fs).heap p).refs ≡ pos n)
      × ((release p fs).bytes ≡ (if n == 0 then fs.bytes - size_of (deref fs.heap p) else fs.bytes))
unfolding release
release_unlinked fs p n inside loose counts counted small =
    let f : MemoryFile = deref fs.heap p in
    let less : count_dec f.refs ≡ pos n = ap count_dec counts in
    let at_p = deref-set fs.heap p p (record f { refs = count_dec f.refs }) inside in
    (rw at_p (rw (==_refl p) less), rw loose (rw less (by_rest n)))
  where
    by_rest :
        (n : ℕ)
        → (if true && count_is_zero (pos n)
            then i64_sub fs.bytes (size_of (deref fs.heap p))
            else fs.bytes)
          ≡ (if n == 0 then fs.bytes - size_of (deref fs.heap p) else fs.bytes)
    by_rest zero = omega (arith, counted, small)
    by_rest (suc n) = ground arith

-- What is left when a file has lost its name while it has references.
unlinked_lem :
    (name : List ℕ) (p n : ℕ) (mem : List ℕ) (fs : FileSystem)
    → p < length fs.heap
    → lookup name fs.files ≡ some p
    → (deref fs.heap p).refs ≡ pos (suc n)
    → (deref (unlink_on name mem fs).fs.heap p ≡ record (deref fs.heap p) { linked = false })
      × (length (unlink_on name mem fs).fs.heap ≡ length fs.heap)
      × ((unlink_on name mem fs).fs.fds ≡ fs.fds)
      × ((unlink_on name mem fs).fs.bytes ≡ fs.bytes)
unfolding unlink_on unlink
unlinked_lem name p n mem fs inside named counts =
    let gone : MemoryFile = record (deref fs.heap p) { linked = false } in
    rw (named, unlink_on)
      (
        deref-set fs.heap p p gone inside ∙ rw (==_refl p) refl,
        length-set fs.heap p gone,
        refl,
        rw counts refl,
      )

-- A file loses its name and then one of its descriptors, while it has `n` references besides. It
-- counts against the quota between the two calls; the close takes its count to `n`, and gives its bytes
-- back where that is zero.
pub close_on-unlink_on :
    (l : Limits) (name : List ℕ) (fd n : ℕ) (h : OpenFile) (mem mem' : List ℕ) (fs : FileSystem)
    → IsLimits l
    → IsValid l fs
    → lookup name fs.files ≡ some h.file
    → lookup fd fs.fds ≡ some h
    → (deref fs.heap h.file).refs ≡ pos (suc n)
    → ((unlink_on name mem fs).fs.bytes ≡ fs.bytes)
      × ((deref (close_on fd mem' (unlink_on name mem fs).fs).fs.heap h.file).refs ≡ pos n)
      × ((close_on fd mem' (unlink_on name mem fs).fs).fs.bytes
          ≡ (if n == 0 then fs.bytes - size_of (deref fs.heap h.file) else fs.bytes))
unfolding close_on
close_on-unlink_on l name fd n h mem mem' fs small v named opened counts =
    let p : ℕ = h.file in
    let fs' : FileSystem = (unlink_on name mem fs).fs in
    let used = name_used fs name p named in
    let inside = used_in_heap p v.sound used in
    let (file, size, fds, bytes) = unlinked_lem name p n mem fs inside named counts in
    let long : size_of (deref fs'.heap p) ≡ size_of (deref fs.heap p) = ap size_of file in
    let held = used_size-le p v.sound used in
    let (count, given) =
      release_unlinked fs' p n (omega (arith, size, inside)) (ap (λ f. f.linked) file)
        (ap (λ f. f.refs) file ∙ counts) (omega (arith, long, held, bytes))
        (omega (arith, bytes, v.sound.within, small.small)) in
    let there : lookup fd fs'.fds ≡ some h = ap (lookup fd) fds ∙ opened in
    let closed : (close_on fd mem' fs').fs ≡ record (release p fs') { fds = erase fd fs'.fds } =
      rw (there, close_on) refl in
    (
      bytes,
      ap (λ g. (deref g.heap p).refs) closed ∙ count,
      ap (λ g. g.bytes) closed
          ∙ given
          ∙ ap (λ b. if n == 0 then b - size_of (deref fs'.heap p) else b) bytes
          ∙ ap (λ s. if n == 0 then fs.bytes - s else fs.bytes) long,
    )
