-- ===== src/FileSystem/Accounts.antt =====
-- The accounts of the heap: the quota counts the bytes of the live files, a file is linked exactly
-- while one name points to it, and its reference count covers its holders.
pub mod Moves
use wago_emscripten.Common.{
  ℕ, zero, suc, ◌+◌, ◌-◌, ◌^◌, ◌≤◌, ◌<◌, Bool, true, false, ◌≡◌, refl, List, [], ◌∷◌, ◌++◌, length,
  set, get_elem?, get_elem?-set, get_elem?-append_one, length-set, ◌==◌, ==→eq, if◌then◌else◌,
  i64_sub, arith,
}
use wago_emscripten.FileSystem.{
  Count, pos, negsuc, MemoryFile, FileSystem, deref, size_of, is_live, release, retain, unlink,
  nil_file, empty_file,
}

-- One for a pointer that is `p`.
abbrev pub points_to : ℕ → ℕ → ℕ
points_to p q = if q == p then 1 else 0

abbrev pub live_size : MemoryFile → ℕ
live_size f = if is_live f then size_of f else 0

unfoldable pub live_bytes : List MemoryFile → ℕ
live_bytes [] = 0
live_bytes (f ∷ fs) = live_size f + live_bytes fs

-- At most as many holders as the reference count says.
abbrev pub Covers : ℕ → Count → Type 0
Covers n (pos r) = n ≤ r
Covers n (negsuc r) = ⊥

abbrev pub link_count : MemoryFile → ℕ
link_count f = if f.linked then 1 else 0

-- `names` and `holders` count, for each pointer, the names and the handles and mappings on it.
pub record Sound (quota : ℕ) (heap : List MemoryFile) (bytes : ℕ) (names holders : ℕ → ℕ)
    : Type 0 where
  pub accounted : bytes ≡ live_bytes heap
  pub within : bytes ≤ quota
  pub named : (p : ℕ) → names p ≡ link_count (deref heap p)
  pub held : (p : ℕ) → Covers (holders p) (deref heap p).refs

pub deref-set :
    (heap : List MemoryFile) (p q : ℕ) (f : MemoryFile)
    → p < length heap
    → deref (set heap p f) q ≡ (if p == q then f else deref heap q)
unfolding deref
deref-set heap p q f h = ground (arith, get_elem?-set heap p q f)

pub deref-append_one :
    (heap : List MemoryFile) (f : MemoryFile) (q : ℕ)
    → deref (heap ++ f ∷ []) q ≡ (if length heap == q then f else deref heap q)
unfolding deref
deref-append_one heap f q = ground (arith, get_elem?-append_one heap f q)

pub live_bytes-set :
    (heap : List MemoryFile) (p : ℕ) (f : MemoryFile)
    → p < length heap
    → live_bytes (set heap p f) + live_size (deref heap p) ≡ live_bytes heap + live_size f
unfolding live_bytes deref
live_bytes-set [] p f h = absurd (omega arith)
live_bytes-set (x ∷ xs) zero f h = omega arith
live_bytes-set (x ∷ xs) (suc p) f h = omega (arith, live_bytes-set xs p f (omega arith))

pub live_bytes-append_one :
    (heap : List MemoryFile) (f : MemoryFile)
    → live_bytes (heap ++ f ∷ []) ≡ live_bytes heap + live_size f
unfolding live_bytes
live_bytes-append_one [] f = omega arith
live_bytes-append_one (x ∷ xs) f = omega (arith, live_bytes-append_one xs f)

-- A live file is within the count.
pub live_size-le : (heap : List MemoryFile) (p : ℕ) → live_size (deref heap p) ≤ live_bytes heap
unfolding live_bytes deref
live_size-le [] p = omega arith
live_size-le (x ∷ xs) zero = omega arith
live_size-le (x ∷ xs) (suc p) = omega (arith, live_size-le xs p)

-- A pointer outside the heap gives the nil file.
pub deref_outside : (heap : List MemoryFile) (p : ℕ) → length heap ≤ p → deref heap p ≡ nil_file
unfolding deref
deref_outside [] p h = refl
deref_outside (x ∷ xs) zero h = absurd (omega arith)
deref_outside (x ∷ xs) (suc p) h = deref_outside xs p (omega arith)
