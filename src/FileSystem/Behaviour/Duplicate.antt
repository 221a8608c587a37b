-- ===== src/FileSystem/Behaviour/Duplicate.antt =====
-- Duplicating descriptors: the search for a free number ends, and what the new number holds.
use wago_emscripten.Common.{
  ℕ, zero, suc, ◌+◌, ◌-◌, ◌%◌, ◌^◌, ◌≤◌, ◌<◌, false, ◌≡◌, ◌≢◌, refl, subst, ◌∙◌, inl, inr, none,
  some, List, [], ◌∷◌, length, Option-cases, Map, lookup, erase, lookup-insert, lookup-erase_ne,
  i32_lt, if◌then◌else◌, ◌==◌, u32, nat_eq, arith,
}
use wago_emscripten.FileSystem.{FileSystem, OpenFile, retain}
use wago_emscripten.FileSystem.Reply.{Limits, value}
use wago_emscripten.FileSystem.Descriptors.{find_free, dup_from, table_full}

-- Dropping a number that the search does not reach changes nothing.
find_free-erase :
    (n c d k : ℕ) (fds : Map ℕ OpenFile)
    → c < 2 ^ 32
    → n ≤ d
    → d < 2 ^ 32
    → k ≡ (c + d) % 2 ^ 32
    → find_free n c (erase k fds) ≡ find_free n c fds
unfolding find_free
find_free-erase zero c d k fds hc hn hd e = refl
find_free-erase (suc n) c zero k fds hc hn hd e = absurd (omega arith)
find_free-erase (suc n) c (suc d) k fds hc hn hd e =
    let away : (k == c) ≡ false = ground arith in
    let next : find_free n (u32 (c + 1)) (erase k fds) ≡ find_free n (u32 (c + 1)) fds =
      find_free-erase n (u32 (c + 1)) d k fds (omega arith) (omega arith) (omega arith)
        (omega arith) in
    ground (arith, lookup-erase_ne k c fds away, next)

length-erase_hit :
    (k : ℕ) (h : OpenFile) (fds : Map ℕ OpenFile)
    → lookup k fds ≡ some h
    → length fds ≡ suc (length (erase k fds))
unfolding lookup erase
length-erase_hit k h [] e = absurd (ground arith)
length-erase_hit k h ((j, g) ∷ fds) e = ground (arith, length-erase_hit k h fds)

-- Among one number more than there are handles, one is free.
find_free-enough :
    (n c : ℕ) (fds : Map ℕ OpenFile)
    → c < 2 ^ 32
    → length fds < n
    → n < 2 ^ 32
    → find_free n c fds ≢ none
unfolding find_free
find_free-enough zero c fds hc hn hb e = omega arith
find_free-enough (suc n) c fds hc hn hb e = elim (Option-cases (lookup c fds)) [
  | inl z ↦ absurd (ground arith)
  | inr (h, z) ↦
      let rest : find_free n (u32 (c + 1)) fds ≡ none = ground arith in
      let same : find_free n (u32 (c + 1)) (erase c fds) ≡ find_free n (u32 (c + 1)) fds =
        find_free-erase n (u32 (c + 1)) (2 ^ 32 - 1) c fds (omega arith) (omega arith) (omega arith)
          (omega arith) in
      find_free-enough n (u32 (c + 1)) (erase c fds) (omega arith)
        (omega (arith, length-erase_hit c h fds z)) (omega arith) (same ∙ rest)
]

-- What the search finds is free.
find_free-IsFree :
    (n c : ℕ) (fds : Map ℕ OpenFile) {fd : ℕ} → find_free n c fds ≡ some fd → lookup fd fds ≡ none
unfolding find_free
find_free-IsFree zero c fds e = absurd (ground arith)
find_free-IsFree (suc n) c fds {fd} e = elim (Option-cases (lookup c fds)) [
  | inl z ↦ let same : c ≡ fd = ground arith in subst (λ t. lookup t fds ≡ none) same z
  | inr (h, z) ↦ find_free-IsFree n (u32 (c + 1)) fds (ground arith)
]

-- Duplicating an open handle, where the table is not full and has fewer than 2^32 - 1 handles: the
-- call never runs out of numbers. It answers a number that was free, which then holds an equal
-- handle on the same file, while every other number holds what it held.
pub dup_from_lem :
    (l : Limits) (h : OpenFile) (least : ℕ) (mem : List ℕ) (fs : FileSystem)
    → least < 2 ^ 32
    → suc (length fs.fds) < 2 ^ 32
    → table_full l fs ≡ false
    → (fd : ℕ) × ((dup_from l h least mem fs).result ≡ value fd)
      × (lookup fd fs.fds ≡ none)
      × ((j : ℕ)
          → lookup j (dup_from l h least mem fs).fs.fds
            ≡ (if fd == j then some h else lookup j fs.fds))
unfolding dup_from retain
dup_from_lem l h least mem fs hl hb room =
    let start : ℕ = if i32_lt least 3 then 3 else least in
    let small : start < 2 ^ 32 = ground arith in
    elim (Option-cases (find_free (suc (length fs.fds)) start fs.fds)) [
      | inl z ↦
          absurd (find_free-enough (suc (length fs.fds)) start fs.fds small (omega arith) hb z)
      | inr (fd, z) ↦
          rw (room, z, dup_from)
            (
              fd,
              refl,
              find_free-IsFree (suc (length fs.fds)) start fs.fds z,
              λ j. lookup-insert fd j h fs.fds,
            )
    ]
