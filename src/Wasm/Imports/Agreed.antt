-- ===== src/Wasm/Imports/Agreed.antt =====
-- transform.go: where the descriptor of an import ends depends on its own bytes alone.
use wago_emscripten.Common.{
  drop-drop, drop-take, ℕ, ◌+◌, ◌-◌, ◌≤◌, Bool, true, false, not, ◌&&◌, ◌≡◌, sym, ap, ◌∙◌, inl, inr,
  some, List, length, take, drop, Bool-cases, Option-cases, leb, ◌==◌, bit_and, arith, length-drop,
  length-take,
}
use wago_emscripten.Wasm.Imports.{
  behind_u32, behind_u64, behind_bound, limits_end, import_descriptor_end,
}
use wago_emscripten.Wasm.{read_u32, read_u64}
use wago_emscripten.Wasm.Imports.Prefixes.{
  read_bytes_agreed, behind_u32-later, behind_bound-later, limits_end-later,
}

-- `m` bytes from one position are those from another.
module _ (a b : List ℕ) where
  unfoldable pub Agreed : ℕ → ℕ → ℕ → Type 0
  Agreed m oa ob = take m (drop oa a) ≡ take m (drop ob b)

  Agreed-behind : (m oa ob n : ℕ) → Agreed m oa ob → Agreed (m - n) (oa + n) (ob + n)
  unfolding Agreed
  Agreed-behind m oa ob n same =
      ap (take (m - n)) (sym (drop-drop n oa a))
      ∙ sym (drop-take n m (drop oa a))
      ∙ ap (drop n) same
      ∙ drop-take n m (drop ob b)
      ∙ ap (take (m - n)) (drop-drop n ob b)

  read_u32-Agreed :
      (m oa ob : ℕ) {v n : ℕ}
      → Agreed m oa ob
      → read_u32 (drop oa a) ≡ some (v, n)
      → n ≤ m
      → read_u32 (drop ob b) ≡ some (v, n)
  unfolding Agreed read_u32
  read_u32-Agreed m oa ob same e h =
      read_bytes_agreed _ 0 0 0 m (drop oa a) (drop ob b) same e (omega (arith, h))

  read_u64-Agreed :
      (m oa ob : ℕ) {v n : ℕ}
      → Agreed m oa ob
      → read_u64 (drop oa a) ≡ some (v, n)
      → n ≤ m
      → read_u64 (drop ob b) ≡ some (v, n)
  unfolding Agreed read_u64
  read_u64-Agreed m oa ob same e h =
      read_bytes_agreed _ 0 0 0 m (drop oa a) (drop ob b) same e (omega (arith, h))

  behind_u32-Agreed :
      (m oa ob d : ℕ)
      → Agreed m oa ob
      → behind_u32 a oa ≡ some (oa + d)
      → d ≤ m
      → behind_u32 b ob ≡ some (ob + d)
  unfolding behind_u32
  behind_u32-Agreed m oa ob d same e h = elim (Option-cases (read_u32 (drop oa a))) [
    | inl z ↦ absurd (ground arith)
    | inr ((v, n), z) ↦
        let n_is : oa + n ≡ oa + d = ground arith in
        ground (arith, read_u32-Agreed m oa ob same z (omega (arith, n_is, h)))
  ]

  behind_u64-Agreed :
      (m oa ob d : ℕ)
      → Agreed m oa ob
      → behind_u64 a oa ≡ some (oa + d)
      → d ≤ m
      → behind_u64 b ob ≡ some (ob + d)
  unfolding behind_u64
  behind_u64-Agreed m oa ob d same e h = elim (Option-cases (read_u64 (drop oa a))) [
    | inl z ↦ absurd (ground arith)
    | inr ((v, n), z) ↦
        let n_is : oa + n ≡ oa + d = ground arith in
        ground (arith, read_u64-Agreed m oa ob same z (omega (arith, n_is, h)))
  ]

  behind_bound-Agreed :
      (is64 : Bool) (m oa ob d : ℕ)
      → Agreed m oa ob
      → behind_bound is64 a oa ≡ some (oa + d)
      → d ≤ m
      → behind_bound is64 b ob ≡ some (ob + d)
  unfolding behind_bound
  behind_bound-Agreed true m oa ob d same e h = behind_u64-Agreed m oa ob d same e h
  behind_bound-Agreed false m oa ob d same e h = behind_u32-Agreed m oa ob d same e h

  -- The bound behind the `n` bytes of what comes before it.
  bound_behind-Agreed :
      (is64 : Bool) (m oa ob n : ℕ) {ea : ℕ}
      → Agreed m oa ob
      → behind_bound is64 a (oa + n) ≡ some ea
      → ea ≤ oa + m
      → behind_bound is64 b (ob + n) ≡ some (ob + (ea - oa))
  bound_behind-Agreed is64 m oa ob n {ea} same e h =
      let later = behind_bound-later a is64 (oa + n) e in
      let at_end : ea ≡ oa + n + (ea - (oa + n)) = omega (arith, later) in
      behind_bound-Agreed is64 (m - n) (oa + n) (ob + n) (ea - (oa + n))
        (Agreed-behind m oa ob n same) (e ∙ ap some at_end) (omega (arith, h, later))
      ∙ ap some (omega (arith, later))

  limits_end-Agreed :
      (memory : Bool) (m oa ob : ℕ) {ea : ℕ}
      → Agreed m oa ob
      → limits_end a oa memory ≡ some ea
      → ea ≤ oa + m
      → limits_end b ob memory ≡ some (ob + (ea - oa))
  unfolding limits_end
  limits_end-Agreed memory m oa ob {ea} same e h = elim (Option-cases (read_u32 (drop oa a))) [
    | inl z ↦ absurd (ground arith)
    | inr ((flags, n), z) ↦
        let is64 : Bool = memory && not (bit_and flags 4 == 0) in
        elim (Option-cases (behind_bound is64 a (oa + n))) [
          | inl y ↦ absurd (ground arith)
          | inr (next, y) ↦
              let on = behind_bound-later a is64 (oa + n) y in
              elim (Bool-cases (bit_and flags 1 == 0)) [
                | inl last ↦
                    let same_end : next ≡ ea = ground arith in
                    let flags_back =
                      read_u32-Agreed m oa ob same z (omega (arith, on, same_end, h)) in
                    let back =
                      bound_behind-Agreed is64 m oa ob n same y (omega (arith, same_end, h)) in
                    ground (arith, flags_back, back, same_end)
                | inr more ↦
                    let second : behind_bound is64 a next ≡ some ea = ground arith in
                    let later = behind_bound-later a is64 next second in
                    let flags_back = read_u32-Agreed m oa ob same z (omega (arith, on, later, h)) in
                    let back =
                      bound_behind-Agreed is64 m oa ob n same y (omega (arith, later, h)) in
                    let at_next : next ≡ oa + (next - oa) = omega (arith, on) in
                    let last =
                      bound_behind-Agreed is64 m oa ob (next - oa) same
                        (ap (behind_bound is64 a) (sym at_next) ∙ second) h in
                    ground (arith, flags_back, back, last)
              ]
        ]
  ]

  Agreed-length :
      (m oa ob d : ℕ) → Agreed m oa ob → oa + d ≤ length a → 1 ≤ d → d ≤ m → ob + d ≤ length b
  unfolding Agreed
  Agreed-length m oa ob d same inside some_bytes few =
      let there : length (take m (drop oa a)) ≡ length (take m (drop ob b)) = ap length same in
      ground (
        arith,
        there,
        length-take m (drop oa a),
        length-take m (drop ob b),
        length-drop oa a,
        length-drop ob b,
      )

  type_behind-Agreed :
      (m oa ob : ℕ) {ea : ℕ}
      → Agreed m oa ob
      → behind_u32 a oa ≡ some ea
      → ea ≤ oa + m
      → behind_u32 b ob ≡ some (ob + (ea - oa))
  type_behind-Agreed m oa ob {ea} same e h =
      let later = behind_u32-later a oa e in
      let at_end : ea ≡ oa + (ea - oa) = omega (arith, later) in
      behind_u32-Agreed m oa ob (ea - oa) same (e ∙ ap some at_end) (omega (arith, h))

  -- The end of a descriptor is as far behind its start in front of any other bytes.
  pub import_descriptor_end-Agreed :
      (kind m oa ob : ℕ) {ea : ℕ}
      → Agreed m oa ob
      → oa ≤ length a
      → import_descriptor_end a oa kind ≡ some ea
      → ea ≤ oa + m
      → import_descriptor_end b ob kind ≡ some (ob + (ea - oa))
  unfolding import_descriptor_end
  import_descriptor_end-Agreed kind m oa ob {ea} same inside e h = elim (Bool-cases (kind == 0)) [
    | inl k0 ↦
        let back = type_behind-Agreed m oa ob {ea = ea} same (ground arith) h in
        ground (arith, back)
    | inr k0 ↦ elim (Bool-cases (kind == 1)) [
      | inl k1 ↦ elim (Bool-cases (leb (length a) oa)) [
        | inl short ↦ absurd (ground arith)
        | inr long ↦
            let from = limits_end-later a (oa + 1) false {e = ea} (ground arith) in
            let back =
              limits_end-Agreed false (m - 1) (oa + 1) (ob + 1) {ea = ea}
                (Agreed-behind m oa ob 1 same) (ground arith) (omega (arith, h, from)) in
            let there =
              Agreed-length m oa ob 1 same (ground arith) (omega arith) (omega (arith, h, from)) in
            ground (arith, back, there, from)
      ]
      | inr k1 ↦ elim (Bool-cases (kind == 2)) [
        | inl k2 ↦
            let back = limits_end-Agreed true m oa ob {ea = ea} same (ground arith) h in
            ground (arith, back)
        | inr k2 ↦ elim (Bool-cases (kind == 3)) [
          | inl k3 ↦
              let at_end : oa + 2 ≡ ea = ground arith in
              let there =
                Agreed-length m oa ob 2 same (ground arith) (omega arith)
                  (omega (arith, h, at_end)) in
              ground (arith, there, at_end)
          | inr k3 ↦ elim (Bool-cases (kind == 4)) [
            | inr k4 ↦ absurd (ground arith)
            | inl k4 ↦ elim (Option-cases (behind_u32 a oa)) [
              | inl z ↦ absurd (ground arith)
              | inr (next, z) ↦
                  let second : behind_u32 a next ≡ some ea = ground arith in
                  let on = behind_u32-later a oa z in
                  let later = behind_u32-later a next second in
                  let first = type_behind-Agreed m oa ob same z (omega (arith, later, h)) in
                  let at_next : next ≡ oa + (next - oa) = omega (arith, on) in
                  let last =
                    bound_behind-Agreed false m oa ob (next - oa) {ea = ea} same
                      (ground (arith, at_next, second)) h in
                  ground (arith, first, last)
            ]
          ]
        ]
      ]
    ]
  ]
