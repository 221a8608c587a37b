-- ===== src/FileSystem/Accounts/Moves.antt =====
-- How `retain`, `release`, `unlink` and a change of contents move the accounts.
use wago_emscripten.Common.{
  ℕ, ◌+◌, ◌^◌, ◌≤◌, ◌<◌, false, ◌≡◌, refl, ◌⊎◌, inl, inr, List, [], ◌∷◌, ◌++◌, length, Bool-cases,
  set, ◌==◌, ==→eq, arith, subst, ◌∙◌,
}
use wago_emscripten.FileSystem.{
  Count, pos, negsuc, MemoryFile, FileSystem, deref, size_of, release, retain, unlink, empty_file,
}
use wago_emscripten.FileSystem.Accounts.{
  points_to, live_size, Covers, link_count, Sound, deref-set, deref-append_one, live_bytes-set,
  live_bytes-append_one, live_size-le, deref_outside,
}

-- What is named or held is in the heap.
pub named_in_heap :
    {quota : ℕ} {heap : List MemoryFile} {bytes : ℕ} {names holders : ℕ → ℕ} (p : ℕ)
    → Sound quota heap bytes names holders
    → 1 ≤ names p
    → p < length heap
named_in_heap {heap = heap} p s h = grind (arith, s.named p, deref_outside heap p)

pub held_in_heap :
    {quota : ℕ} {heap : List MemoryFile} {bytes : ℕ} {names holders : ℕ → ℕ} (p : ℕ)
    → Sound quota heap bytes names holders
    → 1 ≤ holders p
    → p < length heap
held_in_heap {heap = heap} {holders = holders} p s h = elim (below (length heap) p) [
  | inl lt ↦ lt
  | inr ge ↦
      let none_held : holders p ≤ 0 =
        subst (λ f. Covers (holders p) f.refs) (deref_outside heap p ge) (s.held p) in
      absurd (omega arith)
]
  where
    below : (n p : ℕ) → (p < n) ⊎ (n ≤ p)
    below n p = omega arith

Covers-mono : (m n : ℕ) (c : Count) → m ≤ n → Covers n c → Covers m c
Covers-mono m n (pos r) h k = omega arith
Covers-mono m n (negsuc r) h k = k

-- A file is put in place of another: the quota moves with its live size.
pub replace-Sound :
    {quota bytes : ℕ} {heap : List MemoryFile} {names holders : ℕ → ℕ} (p : ℕ) (f : MemoryFile)
    (bytes' : ℕ) (names' holders' : ℕ → ℕ)
    → Sound quota heap bytes names holders
    → p < length heap
    → bytes' + live_size (deref heap p) ≡ bytes + live_size f
    → bytes' ≤ quota
    → ((q : ℕ) → (p == q) ≡ false → names' q ≡ names q)
    → ((q : ℕ) → (p == q) ≡ false → holders' q ≤ holders q)
    → names' p ≡ link_count f
    → Covers (holders' p) f.refs
    → Sound quota (set heap p f) bytes' names' holders'
replace-Sound {heap = heap} p f bytes' names' holders' s inside moved fits ns hs np hp = record {
  accounted = omega (arith, s.accounted, live_bytes-set heap p f inside);
  within = fits;
  named = λ q. elim (Bool-cases (p == q)) [
    | inl e ↦
        rw (deref-set heap p q f inside, e) (subst (λ t. names' t ≡ link_count f) (==→eq p q e) np)
    | inr e ↦ rw (deref-set heap p q f inside, e) (ns q e ∙ s.named q)
  ];
  held = λ q. elim (Bool-cases (p == q)) [
    | inl e ↦
        rw (deref-set heap p q f inside, e)
          (subst (λ t. Covers (holders' t) f.refs) (==→eq p q e) hp)
    | inr e ↦ rw (deref-set heap p q f inside, e) (Covers-mono _ _ _ (hs q e) (s.held q))
  ];
}

-- A pointer that is named or held is in the heap.
pub used_in_heap :
    {quota : ℕ} {heap : List MemoryFile} {bytes : ℕ} {names holders : ℕ → ℕ} (p : ℕ)
    → Sound quota heap bytes names holders
    → 1 ≤ names p + holders p
    → p < length heap
used_in_heap {names = names} p s h = elim (one_of (names p)) [
  | inl n ↦ named_in_heap p s n
  | inr z ↦ held_in_heap p s (omega arith)
]
  where
    one_of : (n : ℕ) → (1 ≤ n) ⊎ (n ≡ 0)
    one_of n = omega arith

-- One holder more: `refs++`.
pub retain-Sound :
    {quota : ℕ} (fs : FileSystem) (names holders : ℕ → ℕ) (p : ℕ) (holders' : ℕ → ℕ)
    → Sound quota fs.heap fs.bytes names holders
    → 1 ≤ names p + holders p
    → ((q : ℕ) → holders' q ≤ holders q + points_to q p)
    → Sound quota (retain p fs).heap (retain p fs).bytes names holders'
unfolding retain
retain-Sound fs names holders p holders' s used hs =
    replace-Sound p _ fs.bytes names holders' s (used_in_heap p s used)
      (ground (arith, s.held p, s.named p)) s.within (λ q e. refl) (λ q e. ground (arith, hs q))
      (s.named p) (ground (arith, hs p, s.held p))

-- One holder less: `refs--`, with the quota given back at the last hold on an unlinked file.
pub release-Sound :
    {quota : ℕ} (fs : FileSystem) (names holders : ℕ → ℕ) (p : ℕ) (holders' : ℕ → ℕ)
    → quota < 2 ^ 62
    → Sound quota fs.heap fs.bytes names holders
    → ((q : ℕ) → holders' q + points_to q p ≤ holders q)
    → Sound quota (release p fs).heap (release p fs).bytes names holders'
unfolding release
release-Sound fs names holders p holders' small s hs =
    replace-Sound p _ _ names holders' s (held_in_heap p s (ground (arith, hs p)))
      (ground (arith, s.held p, hs p, s.accounted, s.within, live_size-le fs.heap p))
      (ground (arith, s.held p, hs p, s.accounted, s.within, live_size-le fs.heap p)) (λ q e. refl)
      (λ q e. ground (arith, hs q)) (s.named p) (ground (arith, hs p, s.held p))

-- One name less, with the quota given back if nothing holds the file open.
pub unlink-Sound :
    {quota : ℕ} (fs : FileSystem) (names holders : ℕ → ℕ) (p : ℕ) (names' : ℕ → ℕ)
    → quota < 2 ^ 62
    → Sound quota fs.heap fs.bytes names holders
    → ((q : ℕ) → names' q + points_to q p ≡ names q)
    → Sound quota (unlink p fs).heap (unlink p fs).bytes names' holders
unfolding unlink
unlink-Sound fs names holders p names' small s ns =
    replace-Sound p _ _ names' holders s (named_in_heap p s (ground (arith, ns p)))
      (ground (arith, s.named p, ns p, s.accounted, s.within, live_size-le fs.heap p))
      (ground (arith, s.named p, ns p, s.accounted, s.within, live_size-le fs.heap p))
      (λ q e. ground (arith, ns q)) (λ q e. omega arith) (ground (arith, ns p, s.named p))
      (s.held p)

-- New contents for a file in use, with the quota moved by the difference.
pub contents-Sound :
    {quota bytes : ℕ} (heap : List MemoryFile) (names holders : ℕ → ℕ) (p : ℕ) (contents' : List ℕ)
    (bytes' : ℕ)
    → Sound quota heap bytes names holders
    → 1 ≤ names p + holders p
    → bytes' + size_of (deref heap p) ≡ bytes + length contents'
    → bytes' ≤ quota
    → Sound quota (set heap p (record (deref heap p) { contents = contents' })) bytes' names holders
contents-Sound heap names holders p contents' bytes' s used moved fits =
    replace-Sound p _ bytes' names holders s (used_in_heap p s used)
      (ground (arith, s.held p, s.named p)) fits (λ q e. refl) (λ q e. omega arith) (s.named p)
      (s.held p)

-- The bytes of a file in use are counted.
pub used_size-le :
    {quota bytes : ℕ} {heap : List MemoryFile} {names holders : ℕ → ℕ} (p : ℕ)
    → Sound quota heap bytes names holders
    → 1 ≤ names p + holders p
    → size_of (deref heap p) ≤ bytes
used_size-le {heap = heap} p s used =
    ground (arith, s.held p, s.named p, s.accounted, live_size-le heap p)

-- A new file with one name.
pub create-Sound :
    {quota bytes : ℕ} (heap : List MemoryFile) (names holders : ℕ → ℕ) (names' : ℕ → ℕ)
    → Sound quota heap bytes names holders
    → ((q : ℕ) → names' q ≡ names q + points_to q (length heap))
    → Sound quota (heap ++ empty_file ∷ []) bytes names' holders
create-Sound heap names holders names' s ns = record {
  accounted = omega (arith, s.accounted, live_bytes-append_one heap empty_file);
  within = s.within;
  named = λ q. elim (Bool-cases (length heap == q)) [
    | inl e ↦
        rw (deref-append_one heap empty_file q, e)
          (ground (arith, ns q, s.named q, deref_outside heap q))
    | inr e ↦ rw (deref-append_one heap empty_file q, e) (ground (arith, ns q, s.named q))
  ];
  held = λ q. elim (Bool-cases (length heap == q)) [
    | inl e ↦
        rw (deref-append_one heap empty_file q, e)
          (subst (λ f. Covers (holders q) f.refs) (deref_outside heap q (ground arith)) (s.held q))
    | inr e ↦ rw (deref-append_one heap empty_file q, e) (s.held q)
  ];
}

-- Fewer holders are covered too.
pub Sound-fewer :
    {quota bytes : ℕ} {heap : List MemoryFile} {names holders : ℕ → ℕ} (names' holders' : ℕ → ℕ)
    → Sound quota heap bytes names holders
    → ((q : ℕ) → names' q ≡ names q)
    → ((q : ℕ) → holders' q ≤ holders q)
    → Sound quota heap bytes names' holders'
Sound-fewer names' holders' s ns hs = record {
  accounted = s.accounted;
  within = s.within;
  named = λ q. ns q ∙ s.named q;
  held = λ q. Covers-mono _ _ _ (hs q) (s.held q);
}
