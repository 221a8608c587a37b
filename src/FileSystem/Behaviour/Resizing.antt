-- ===== src/FileSystem/Behaviour/Resizing.antt =====
-- Truncation and extension: what the file holds afterwards, and when the quota refuses.
use wago_emscripten.Common.{
  ℕ, zero, suc, ◌+◌, ◌-◌, ◌≤◌, ◌<◌, true, false, not, ◌&&◌, ◌≡◌, refl, ap, inl, inr, none, some,
  List, [], ◌∷◌, ◌++◌, length, set, get_elem?, take, replicate, Bool-cases, ltb, ◌==◌, ==→eq,
  if◌then◌else◌, i64_add, i64_sub, i64_lt, nat_eq, arith,
}
use wago_emscripten.FileSystem.{FileSystem, MemoryFile, deref, size_of, err_inval}
use wago_emscripten.FileSystem.Reply.{Limits, answer, value, neg_errno}
use wago_emscripten.FileSystem.Sizes.{resize_contents, resize}
use wago_emscripten.FileSystem.Accounts.{deref-set}
use wago_emscripten.FileSystem.Accounts.Moves.{used_in_heap, used_size-le}
use wago_emscripten.FileSystem.Invariant.{IsLimits, IsValid, names_of, holders_of}

get_elem?-replicate :
    (n i : ℕ) → get_elem? (replicate {A = ℕ} n 0) i ≡ (if ltb i n then some 0 else none)
get_elem?-replicate zero i = ground arith
get_elem?-replicate (suc n) zero = ground arith
get_elem?-replicate (suc n) (suc i) = ground (arith, get_elem?-replicate n i)

get_elem?-take :
    (xs : List ℕ) (n i : ℕ) → get_elem? (take n xs) i ≡ (if ltb i n then get_elem? xs i else none)
get_elem?-take xs zero i = ground arith
get_elem?-take [] (suc n) i = ground arith
get_elem?-take (x ∷ xs) (suc n) zero = ground arith
get_elem?-take (x ∷ xs) (suc n) (suc i) = ground (arith, get_elem?-take xs n i)

pub get_elem?-pad :
    (xs : List ℕ) (n i : ℕ)
    → get_elem? (xs ++ replicate n 0) i ≡ (
        if ltb i (length xs)
        then get_elem? xs i
        else if ltb i (length xs + n)
        then some 0
        else none)
get_elem?-pad [] n i = ground (arith, get_elem?-replicate n i)
get_elem?-pad (x ∷ xs) n zero = ground arith
get_elem?-pad (x ∷ xs) n (suc i) = ground (arith, get_elem?-pad xs n i)

-- A resized file has the bytes it had up to its new end, and zeros where it has grown.
get_elem?-resize_contents :
    (size i : ℕ) (xs : List ℕ)
    → get_elem? (resize_contents size xs) i
      ≡ (if ltb i size then if ltb i (length xs) then get_elem? xs i else some 0 else none)
unfolding resize_contents
get_elem?-resize_contents size i xs = elim (Bool-cases (ltb size (length xs))) [
  | inl e ↦ rw e (ground (arith, get_elem?-take xs size i))
  | inr e ↦ rw e (ground (arith, get_elem?-pad xs (size - length xs) i))
]

resized_lem :
    (heap : List MemoryFile) (p size q i : ℕ)
    → p < length heap
    → get_elem?
        (deref
          (set heap p
            (record (deref heap p) { contents = resize_contents size (deref heap p).contents }))
          q).contents
        i
      ≡ (if p == q && not (ltb i size && ltb i (size_of (deref heap p)))
          then if ltb i size then some 0 else none
          else get_elem? (deref heap q).contents i)
resized_lem heap p size q i h = elim (Bool-cases (p == q)) [
  | inl z ↦
      let same : get_elem? (deref heap p).contents i ≡ get_elem? (deref heap q).contents i =
        ap (λ j. get_elem? (deref heap j).contents i) (==→eq p q z) in
      rw (deref-set heap p q _ h)
        (rw z (ground (arith, same, get_elem?-resize_contents size i (deref heap p).contents)))
  | inr z ↦ rw (deref-set heap p q _ h) (rw z refl)
]

module _ (l : Limits) (p size : ℕ) (mem : List ℕ) (fs : FileSystem) where
  change_lem :
      IsLimits l
      → IsValid l fs
      → 1 ≤ names_of fs p + holders_of fs p
      → size ≤ l.max_filesystem_bytes
      → i64_add fs.bytes (i64_sub size (size_of (deref fs.heap p)))
        ≡ fs.bytes + size - size_of (deref fs.heap p)
  change_lem small v used within =
      omega (arith, small.small, v.sound.within, used_size-le p v.sound used)

  -- Resizing a file in use of a valid filesystem, to a size that keeps the sum of all files within
  -- the quota, answers 0. The file has its old bytes up to the new size and zeros behind its old
  -- end, no other file changes, and the account moves by exactly the change of size.
  pub resize_lem :
      IsLimits l
      → IsValid l fs
      → 1 ≤ names_of fs p + holders_of fs p
      → size ≤ l.max_filesystem_bytes
      → fs.bytes + size ≤ l.max_filesystem_bytes + size_of (deref fs.heap p)
      → ((resize l p size mem fs).result ≡ value 0)
        × ((q i : ℕ)
            → get_elem? (deref (resize l p size mem fs).fs.heap q).contents i ≡ (
                if p == q && not (ltb i size && ltb i (size_of (deref fs.heap p)))
                then if ltb i size then some 0 else none
                else get_elem? (deref fs.heap q).contents i))
        × ((resize l p size mem fs).fs.bytes + size_of (deref fs.heap p) ≡ fs.bytes + size)
  unfolding resize
  resize_lem small v used within room =
      let change : i64_add fs.bytes (i64_sub size (size_of (deref fs.heap p)))
          ≡ fs.bytes + size - size_of (deref fs.heap p) =
        change_lem small v used within in
      let held : size_of (deref fs.heap p) ≤ fs.bytes = used_size-le p v.sound used in
      let fits : i64_lt l.max_filesystem_bytes
            (i64_add fs.bytes (i64_sub size (size_of (deref fs.heap p))))
          ≡ false =
        ground (arith, small.small, change) in
      rw (fits, resize)
        (
          refl,
          λ q i. resized_lem fs.heap p size q i (used_in_heap p v.sound used),
          omega (arith, held, change),
        )

  -- A size that would take the sum of all files of a valid filesystem over the quota is refused with
  -- EINVAL, and nothing changes.
  pub resize-over :
      IsLimits l
      → IsValid l fs
      → 1 ≤ names_of fs p + holders_of fs p
      → size ≤ l.max_filesystem_bytes
      → l.max_filesystem_bytes + size_of (deref fs.heap p) < fs.bytes + size
      → resize l p size mem fs ≡ answer mem fs (neg_errno err_inval)
  unfolding resize
  resize-over small v used within over =
      let change : i64_add fs.bytes (i64_sub size (size_of (deref fs.heap p)))
          ≡ fs.bytes + size - size_of (deref fs.heap p) =
        change_lem small v used within in
      let full : i64_lt l.max_filesystem_bytes
            (i64_add fs.bytes (i64_sub size (size_of (deref fs.heap p))))
          ≡ true =
        ground (arith, small.small, v.sound.within, change) in
      rw (full, resize)
