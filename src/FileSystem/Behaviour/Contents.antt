-- ===== src/FileSystem/Behaviour/Contents.antt =====
-- The bytes of a file after it has been extended, written to, and read.
use wago_emscripten.Common.{
  ℕ, zero, suc, ◌+◌, ◌-◌, ◌^◌, ◌≤◌, ◌<◌, true, ◌&&◌, ◌≡◌, refl, sym, ap, inl, inr, List, [], ◌∷◌,
  ◌++◌, append-nil, length, length-append, length-replicate, length-set, get_elem?, replicate,
  Bool-cases, i64_lt, ltb, leb, ◌==◌, ==→eq, if◌then◌else◌, nat_eq, arith,
}
use wago_emscripten.Memory.{write_at}
use wago_emscripten.Memory.Words.{slice-write_at, length-write_at}
use wago_emscripten.FileSystem.{FileSystem, OpenFile, deref, size_of}
use wago_emscripten.FileSystem.ReadWrite.{extend_to, store_bytes, got_bytes}
use wago_emscripten.FileSystem.Accounts.{deref-set}

pub get_elem?-write_at :
    (xs : List ℕ) (i : ℕ) (bs : List ℕ) (j : ℕ)
    → i + length bs ≤ length xs
    → get_elem? (write_at xs i bs) j
      ≡ (if leb i j && ltb j (i + length bs) then get_elem? bs (j - i) else get_elem? xs j)
unfolding write_at
get_elem?-write_at xs i [] j h = ground arith
get_elem?-write_at [] i (b ∷ bs) j h = absurd (omega arith)
get_elem?-write_at (x ∷ xs) zero (b ∷ bs) zero h = ground arith
get_elem?-write_at (x ∷ xs) zero (b ∷ bs) (suc j) h =
    ground (arith, get_elem?-write_at xs zero bs j (omega arith))
get_elem?-write_at (x ∷ xs) (suc i) (b ∷ bs) zero h = ground arith
get_elem?-write_at (x ∷ xs) (suc i) (b ∷ bs) (suc j) h =
    ground (arith, get_elem?-write_at xs i (b ∷ bs) j (omega arith))

-- The contents of a file that reaches `end`.
abbrev pub padded : List ℕ → ℕ → List ℕ
padded xs end = xs ++ replicate (end - length xs) 0

pub length-padded : (xs : List ℕ) (end : ℕ) → end ≤ length (padded xs end)
length-padded xs end = omega (
  arith,
  length-append xs (replicate (end - length xs) 0),
  length-replicate {A = ℕ} (end - length xs) 0,
)

pub heap-extend_to :
    (p end : ℕ) (fs : FileSystem) → length (extend_to p end fs).heap ≡ length fs.heap
unfolding extend_to
heap-extend_to p end fs = elim (Bool-cases (i64_lt (size_of (deref fs.heap p)) end)) [
  | inl e ↦ rw e (length-set fs.heap p _)
  | inr e ↦ rw e
]

pub contents-extend_to :
    (p end q : ℕ) (fs : FileSystem)
    → p < length fs.heap
    → end < 2 ^ 63
    → size_of (deref fs.heap p) < 2 ^ 63
    → (deref (extend_to p end fs).heap q).contents
      ≡ (if p == q then padded (deref fs.heap p).contents end else (deref fs.heap q).contents)
unfolding extend_to
contents-extend_to p end q fs h he hs = elim (Bool-cases (i64_lt (size_of (deref fs.heap p)) end)) [
  | inl e ↦ rw e (rw (deref-set fs.heap p q _ h) (ground arith))
  | inr e ↦
      let none_more : end - length (deref fs.heap p).contents ≡ 0 = ground arith in
      let all : padded (deref fs.heap p).contents end ≡ (deref fs.heap p).contents =
        rw none_more (append-nil (deref fs.heap p).contents) in
      rw e (
        rw all (elim (Bool-cases (p == q)) [
          | inl z ↦ rw z (ap (λ j. (deref fs.heap j).contents) (sym (==→eq p q z)))
          | inr z ↦ rw z refl
        ]))
]

pub contents-store_bytes :
    (p offset q : ℕ) (bs : List ℕ) (fs : FileSystem)
    → p < length fs.heap
    → (deref (store_bytes p offset bs fs).heap q).contents ≡ (
        if p == q
        then write_at (deref fs.heap p).contents offset bs
        else (deref fs.heap q).contents)
unfolding store_bytes
contents-store_bytes p offset q bs fs h = rw (deref-set fs.heap p q _ h) (ground arith)

pub read_back :
    (h : OpenFile) (start base : ℕ) (xs bs : List ℕ)
    → start + length bs ≤ length xs
    → length xs < 2 ^ 63
    → got_bytes
        (write_at xs start bs)
        (record h { offset = start })
        (record { base = base; size = length bs })
      ≡ bs
unfolding got_bytes
read_back h start base xs [] fits short =
    elim (Bool-cases (i64_lt start (length (write_at xs start [])))) [
      | inl e ↦ rw e refl
      | inr e ↦ rw e refl
    ]
read_back h start base xs (b ∷ bs) fits short =
    let inside : i64_lt start (length (write_at xs start (b ∷ bs))) ≡ true =
      ground (arith, length-write_at xs start (b ∷ bs)) in
    rw inside (slice-write_at xs start (b ∷ bs) fits)
