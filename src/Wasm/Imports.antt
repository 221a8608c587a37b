-- ===== src/Wasm/Imports.antt =====
-- transform.go: where the descriptor of an import ends.
pub mod Prefixes
pub mod Agreed
use wago_emscripten.Common.{
  ℕ, ◌+◌, ◌≤◌, ◌<◌, Bool, true, false, not, ◌&&◌, ◌≡◌, inl, inr, Option, none, some, List, length,
  drop, length-drop, Bool-cases, Option-cases, ltb, leb, ◌==◌, if◌then◌else◌, bit_and, arith,
}
use wago_emscripten.Wasm.{read_u32, read_u64}
use wago_emscripten.Wasm.Numbers.{read_u32-bounds, read_u64-bounds}

-- The position behind the number at `offset`. An offset behind the payload would be a slice bound out
-- of range; no caller has one.
unfoldable pub behind_u32 : List ℕ → ℕ → Option ℕ
unfolding read_u32
behind_u32 payload offset = elim (read_u32 (drop offset payload)) [
  | none ↦ none
  | some (v, n) ↦ some (offset + n)
]

unfoldable pub behind_u64 : List ℕ → ℕ → Option ℕ
unfolding read_u64
behind_u64 payload offset = elim (read_u64 (drop offset payload)) [
  | none ↦ none
  | some (v, n) ↦ some (offset + n)
]

-- A bound of a table or a memory: 64 bits wide only in a memory that says so.
unfoldable pub behind_bound : Bool → List ℕ → ℕ → Option ℕ
unfolding behind_u32 behind_u64
behind_bound is64 payload offset =
    if is64 then behind_u64 payload offset else behind_u32 payload offset

-- `limitsEnd`: the flags, the minimum, and the maximum where the flags say that there is one.
unfoldable pub limits_end : List ℕ → ℕ → Bool → Option ℕ
unfolding read_u32 behind_bound
limits_end payload offset memory = elim (read_u32 (drop offset payload)) [
  | none ↦ none
  | some (flags, n) ↦
      let is64 = memory && not (bit_and flags 4 == 0) in
      elim (behind_bound is64 payload (offset + n)) [
        | none ↦ none
        | some next ↦ if bit_and flags 1 == 0 then some next else behind_bound is64 payload next
      ]
]

-- `importDescriptorEnd`; every error is none.
unfoldable pub import_descriptor_end : List ℕ → ℕ → ℕ → Option ℕ
unfolding behind_u32 limits_end
import_descriptor_end payload offset kind =
    if kind == 0
    then behind_u32 payload offset
    else if kind == 1
    then if leb (length payload) offset then none else limits_end payload (offset + 1) false
    else if kind == 2
    then limits_end payload offset true
    else if kind == 3
    then if ltb (length payload) (offset + 2) then none else some (offset + 2)
    else if kind == 4
    then elim (behind_u32 payload offset) [ none ↦ none | some next ↦ behind_u32 payload next ]
    else none

-- An end lies behind its start and within the payload.
abbrev IsBehind : List ℕ → ℕ → ℕ → Type 0
IsBehind payload offset end = (offset < end) × (end ≤ length payload)

module _ (payload : List ℕ) where
  behind_u32-IsBehind :
      (offset : ℕ) {end : ℕ}
      → offset ≤ length payload
      → behind_u32 payload offset ≡ some end
      → IsBehind payload offset end
  unfolding behind_u32
  behind_u32-IsBehind offset {end} h e = elim (Option-cases (read_u32 (drop offset payload))) [
    | inl z ↦ absurd (ground arith)
    | inr ((v, n), z) ↦
        let same : offset + n ≡ end = ground arith in
        let (small, some_bytes, there, few) = read_u32-bounds (drop offset payload) z in
        (omega (arith, same), omega (arith, same, length-drop offset payload))
  ]

  behind_u64-IsBehind :
      (offset : ℕ) {end : ℕ}
      → offset ≤ length payload
      → behind_u64 payload offset ≡ some end
      → IsBehind payload offset end
  unfolding behind_u64
  behind_u64-IsBehind offset {end} h e = elim (Option-cases (read_u64 (drop offset payload))) [
    | inl z ↦ absurd (ground arith)
    | inr ((v, n), z) ↦
        let same : offset + n ≡ end = ground arith in
        let (small, some_bytes, there, few) = read_u64-bounds (drop offset payload) z in
        (omega (arith, same), omega (arith, same, length-drop offset payload))
  ]

  behind_bound-IsBehind :
      (is64 : Bool) (offset : ℕ) {end : ℕ}
      → offset ≤ length payload
      → behind_bound is64 payload offset ≡ some end
      → IsBehind payload offset end
  unfolding behind_bound
  behind_bound-IsBehind true offset h e = behind_u64-IsBehind offset h e
  behind_bound-IsBehind false offset h e = behind_u32-IsBehind offset h e

  limits_end-IsBehind :
      (offset : ℕ) (memory : Bool) {end : ℕ}
      → offset ≤ length payload
      → limits_end payload offset memory ≡ some end
      → IsBehind payload offset end
  unfolding limits_end
  limits_end-IsBehind offset memory {end} h e =
      elim (Option-cases (read_u32 (drop offset payload))) [
        | inl z ↦ absurd (ground arith)
        | inr ((flags, n), z) ↦
            let is64 : Bool = memory && not (bit_and flags 4 == 0) in
            let (small, some_bytes, there, few) = read_u32-bounds (drop offset payload) z in
            let inside : offset + n ≤ length payload = omega (arith, length-drop offset payload) in
            elim (Option-cases (behind_bound is64 payload (offset + n))) [
              | inl y ↦ absurd (ground arith)
              | inr (next, y) ↦
                  let (on, within) = behind_bound-IsBehind is64 (offset + n) inside y in
                  elim (Bool-cases (bit_and flags 1 == 0)) [
                    | inl x ↦
                        let same : next ≡ end = ground arith in
                        (omega (arith, same), omega (arith, same))
                    | inr x ↦
                        let last : behind_bound is64 payload next ≡ some end = ground arith in
                        let (on', within') = behind_bound-IsBehind is64 next within last in
                        (omega arith, within')
                  ]
            ]
      ]

  -- From an offset within the payload, the end of an import's descriptor, of whatever kind, lies
  -- behind the offset and not behind the payload.
  pub import_descriptor_end-bounds :
      (offset kind : ℕ) {end : ℕ}
      → offset ≤ length payload
      → import_descriptor_end payload offset kind ≡ some end
      → (offset < end) × (end ≤ length payload)
  unfolding import_descriptor_end
  import_descriptor_end-bounds offset kind {end} h e = elim (Bool-cases (kind == 0)) [
    | inl k0 ↦ behind_u32-IsBehind offset h (ground arith)
    | inr k0 ↦ elim (Bool-cases (kind == 1)) [
      | inl k1 ↦ elim (Bool-cases (leb (length payload) offset)) [
        | inl short ↦ absurd (ground arith)
        | inr long ↦
            let (on, within) =
              limits_end-IsBehind (offset + 1) false {end = end} (ground arith) (ground arith) in
            (omega arith, within)
      ]
      | inr k1 ↦ elim (Bool-cases (kind == 2)) [
        | inl k2 ↦ limits_end-IsBehind offset true h (ground arith)
        | inr k2 ↦ elim (Bool-cases (kind == 3)) [
          | inl k3 ↦ ground arith
          | inr k3 ↦ elim (Bool-cases (kind == 4)) [
            | inr k4 ↦ absurd (ground arith)
            | inl k4 ↦ elim (Option-cases (behind_u32 payload offset)) [
              | inl z ↦ absurd (ground arith)
              | inr (next, z) ↦
                  let (on, within) = behind_u32-IsBehind offset h z in
                  let last : behind_u32 payload next ≡ some end = ground arith in
                  let (on', within') = behind_u32-IsBehind next within last in
                  (omega arith, within')
            ]
          ]
        ]
      ]
    ]
  ]
