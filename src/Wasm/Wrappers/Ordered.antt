-- ===== src/Wasm/Wrappers/Ordered.antt =====
-- transform.go: where a new section goes among the others.
use wago_emscripten.Common.{
  ℕ, ◌*◌, ◌<◌, false, not, ◌&&◌, ◌≡◌, ◌⊎◌, refl, subst, inl, inr, none, some, List, [], ◌∷◌, ◌++◌,
  ltb, ◌==◌, if◌then◌else◌, All, Bool-cases, Option-cases, arith,
}
use wago_emscripten.Wasm.{RawSection, append_u32, find_section}
use wago_emscripten.Wasm.Wrappers.{insert_in_order, define_imported_memory}

-- The place of a section in a module, by the WebAssembly format: the standard sections in the order of
-- their ids, but for the data count (12), which stands before the code (10).
abbrev pub rank : ℕ → ℕ
rank id = if id == 12 then 19 else 2 * id

-- Custom sections, of id 0, may stand anywhere.
abbrev pub Follows : RawSection → RawSection → Type 0
Follows s t = (s.id ≡ 0) ⊎ ((t.id ≡ 0) ⊎ (rank s.id < rank t.id))

abbrev pub IsOrdered : List RawSection → Type 0
IsOrdered [] = Unit
IsOrdered (s ∷ ss) = All (λ t. Follows s t) ss × IsOrdered ss

module _ (new : RawSection) (memory : new.id ≡ 5) where
  -- What follows the first section behind the new one also stands behind it.
  Follows-new :
      (t : RawSection) (ss : List RawSection)
      → (t.id == 0) ≡ false
      → rank 5 < rank t.id
      → All (λ u. Follows t u) ss
      → All (λ u. Follows new u) ss
  Follows-new t [] standard behind h = tt
  Follows-new t (u ∷ ss) standard behind (h, hs) =
      (ground (arith, h, memory), Follows-new t ss standard behind hs)

  -- A section that stood before all the others does so after the insertion.
  Follows-insert_in_order :
      (s : RawSection) (ss : List RawSection)
      → Follows s new
      → All (λ t. Follows s t) ss
      → All (λ t. Follows s t) (insert_in_order new ss)
  unfolding insert_in_order
  Follows-insert_in_order s [] h hs = (h, tt)
  Follows-insert_in_order s (t ∷ ss) h (k, ks) =
      elim (Bool-cases (not (t.id == 0) && ltb new.id t.id)) [
        | inl here ↦ rw here (h, (k, ks))
        | inr on ↦ rw on (k, Follows-insert_in_order s ss h ks)
      ]

  insert_in_order-IsOrdered :
      (ss : List RawSection)
      → find_section 5 ss ≡ none
      → IsOrdered ss
      → IsOrdered (insert_in_order new ss)
  unfolding insert_in_order find_section
  insert_in_order-IsOrdered [] fresh h = (tt, tt)
  insert_in_order-IsOrdered (t ∷ ss) fresh (first, rest) = elim (Bool-cases (t.id == 5)) [
    | inl same ↦ absurd (ground arith)
    | inr other ↦ elim (Bool-cases (not (t.id == 0) && ltb new.id t.id)) [
      | inl here ↦ rw here (
        (
          inr (inr (ground (arith, memory))),
          Follows-new t ss (ground arith) (ground (arith, memory)) first,
        ),
        (first, rest),
      )
      | inr on ↦ rw on (
        Follows-insert_in_order t ss (ground (arith, memory)) first,
        insert_in_order-IsOrdered ss (ground arith) rest,
      )
    ]
  ]

  find_section-insert_in_order :
      (ss : List RawSection) (j : ℕ)
      → find_section 5 ss ≡ none
      → find_section j (insert_in_order new ss) ≡ (if j == 5 then some new else find_section j ss)
  unfolding insert_in_order find_section
  find_section-insert_in_order [] j fresh = ground arith
  find_section-insert_in_order (t ∷ ss) j fresh = ground (arith, find_section-insert_in_order ss j)

-- The memory that a module imported becomes its own, in a memory section with one entry: the sections
-- stay in the order of the WebAssembly format, and every other section is found as before.
pub define_imported_memory_lem :
    (sections after : List RawSection) (descriptor : List ℕ)
    → IsOrdered sections
    → define_imported_memory sections descriptor ≡ some after
    → IsOrdered after
      × ((j : ℕ)
          → find_section j after ≡ (
              if j == 5
              then some (record { id = 5; payload = append_u32 [] 1 ++ descriptor })
              else find_section j sections))
unfolding define_imported_memory
define_imported_memory_lem sections after descriptor h e =
    elim (Option-cases (find_section 5 sections)) [
      | inr (s, z) ↦ absurd (ground arith)
      | inl z ↦
          let new : RawSection = record { id = 5; payload = append_u32 [] 1 ++ descriptor } in
          let same : insert_in_order new sections ≡ after = ground arith in
          subst
            (λ ss.
              IsOrdered ss
              × ((j : ℕ)
                  → find_section j ss ≡ (if j == 5 then some new else find_section j sections)))
            same
            (
              insert_in_order-IsOrdered new refl sections z h,
              λ j. find_section-insert_in_order new refl sections j z,
            )
    ]
