-- ===== src/Wasm/Sections.antt =====
-- Sections and names: decoding what was encoded, and adding an item to a section's vector.
use wago_emscripten.Common.{
  ℕ, zero, suc, ◌+◌, ◌^◌, ◌≤◌, ◌<◌, false, ◌≡◌, refl, ap, ◌∙◌, inl, inr, Option, some, List, [],
  ◌∷◌, ◌++◌, append_assoc, length, take, drop, length-drop, length-append, take-append, drop-append,
  ltb, bytes_eq_refl, Bool-cases, Option-cases, ◌==◌, u32, All, arith,
}
use mathlib.Core.Option
use wago_emscripten.Wasm.{
  RawSection, read_u32, u32_bytes, append_u32, append_name, read_name, wasm_header, decode_loop,
  decode_sections, encode_loop, encode_sections, find_section, replace_payload, append_vector_item,
}
use wago_emscripten.Wasm.Numbers.{read_u32-u32_bytes, read_u32-append_u32}

-- The payloads have lengths that a 32-bit size can say.
abbrev IsSized : List RawSection → Type 0
IsSized ss = All (λ s. length s.payload < 2 ^ 32) ss

decode_loop-round :
    (fuel id size n : ℕ) (source : List ℕ)
    → read_u32 source ≡ some (size, n)
    → size ≤ length (drop n source)
    → decode_loop (suc fuel) (id ∷ source)
      ≡ Option.map
          (λ ss. record { id = id; payload = take size (drop n source) } ∷ ss)
          (decode_loop fuel (drop size (drop n source)))
unfolding decode_loop
decode_loop-round fuel id size n source e fits =
    let inside : ltb (length (drop n source)) size ≡ false = ground arith in
    rw (e, decode_loop) (rw inside refl)

decode_loop-section :
    (fuel : ℕ) (s : RawSection) (rest : List ℕ)
    → length s.payload < 2 ^ 32
    → decode_loop (suc fuel) (s.id ∷ u32_bytes 5 (u32 (length s.payload)) ++ (s.payload ++ rest))
      ≡ Option.map (λ ss. s ∷ ss) (decode_loop fuel rest)
decode_loop-section fuel s rest h =
    let size : u32 (length s.payload) ≡ length s.payload = omega arith in
    let bytes = u32_bytes 5 (length s.payload) in
    let behind : drop (length bytes) (bytes ++ (s.payload ++ rest)) ≡ s.payload ++ rest =
      drop-append bytes (s.payload ++ rest) in
    let fits : length s.payload ≤ length (drop (length bytes) (bytes ++ (s.payload ++ rest))) =
      rw behind (omega (arith, length-append s.payload rest)) in
    rw size (
      rw
        (decode_loop-round fuel s.id (length s.payload) (length bytes)
          (bytes ++ (s.payload ++ rest))
          (read_u32-u32_bytes (length s.payload) (s.payload ++ rest) h) fits)
        (rw behind (rw (take-append s.payload rest) (rw (drop-append s.payload rest)))))

decode_loop-encode_loop :
    (fuel : ℕ) (ss : List RawSection)
    → IsSized ss
    → length ss < fuel
    → decode_loop fuel (encode_loop ss) ≡ some ss
unfolding encode_loop
decode_loop-encode_loop zero ss h k = absurd (omega arith)
decode_loop-encode_loop (suc fuel) [] h k = unfold decode_loop in refl
decode_loop-encode_loop (suc fuel) (s ∷ ss) (h, hs) k =
    decode_loop-section fuel s (encode_loop ss) h
    ∙ ap (Option.map (λ ts. s ∷ ts)) (decode_loop-encode_loop fuel ss hs (omega arith))

length-encode_loop : (ss : List RawSection) → length ss ≤ length (encode_loop ss)
unfolding encode_loop
length-encode_loop [] = omega arith
length-encode_loop (s ∷ ss) = omega (
  arith,
  length-encode_loop ss,
  length-append (u32_bytes 5 (u32 (length s.payload))) (s.payload ++ encode_loop ss),
  length-append s.payload (encode_loop ss),
)

-- Decoding an encoded module gives its sections back, where every payload has a length below 2^32.
pub decode_sections-encode_sections :
    (ss : List RawSection)
    → All (λ s. length s.payload < 2 ^ 32) ss
    → decode_sections (encode_sections ss) ≡ some ss
unfolding decode_sections encode_sections
decode_sections-encode_sections ss h =
    let long : ltb (length (encode_sections ss)) 8 ≡ false = ground arith in
    let header : take 8 (encode_sections ss) ≡ wasm_header = refl in
    rw (bytes_eq_refl wasm_header) (
      ground (
        arith,
        decode_loop-encode_loop (suc (length (encode_sections ss))) ss h
            (omega (arith, length-encode_loop ss)),
      ))

-- Once the fuel exceeds the length of the source, more of it changes nothing: the loop ends by itself.
pub decode_loop-enough :
    (fuel fuel' : ℕ) (source : List ℕ)
    → length source < fuel
    → length source < fuel'
    → decode_loop fuel source ≡ decode_loop fuel' source
unfolding decode_loop
decode_loop-enough zero fuel' source h k = absurd (omega arith)
decode_loop-enough (suc fuel) zero source h k = absurd (omega arith)
decode_loop-enough (suc fuel) (suc fuel') [] h k = refl
decode_loop-enough (suc fuel) (suc fuel') (id ∷ source) h k =
    elim (Option-cases (read_u32 source)) [
      | inl z ↦ rw (z, decode_loop)
      | inr ((size, n), z) ↦
          let shorter : length (drop size (drop n source)) ≤ length source =
            omega (arith, length-drop size (drop n source), length-drop n source) in
          rw (z, decode_loop)
            (rw (
              decode_loop-enough fuel fuel' (drop size (drop n source)) (omega arith)
                (omega arith)))
    ]

read_name-parts :
    (out bytes name rest : List ℕ)
    → read_u32 (bytes ++ (name ++ rest)) ≡ some (length name, length bytes)
    → read_name (out ++ bytes ++ name ++ rest) (length out)
      ≡ some (name, length (out ++ bytes ++ name))
unfolding read_name
read_name-parts out bytes name rest e =
    let payload : List ℕ = out ++ bytes ++ name ++ rest in
    let behind_size : payload ≡ out ++ bytes ++ (name ++ rest) =
      append_assoc (out ++ bytes) name rest in
    let behind_out : payload ≡ out ++ (bytes ++ (name ++ rest)) =
      behind_size ∙ append_assoc out bytes (name ++ rest) in
    let at_size : drop (length out) payload ≡ bytes ++ (name ++ rest) =
      rw behind_out (drop-append out (bytes ++ (name ++ rest))) in
    let start : length out + length bytes ≡ length (out ++ bytes) =
      omega (arith, length-append out bytes) in
    let at_name : drop (length out + length bytes) payload ≡ name ++ rest =
      rw start (rw behind_size (drop-append (out ++ bytes) (name ++ rest))) in
    let all : length out + length bytes + length name ≡ length (out ++ bytes ++ name) =
      omega (arith, length-append out bytes, length-append (out ++ bytes) name) in
    let inside : ltb (length payload) (length out) ≡ false =
      ground (arith, length-append (out ++ bytes ++ name) rest, all) in
    let fits : ltb (length payload) (length out + length bytes + length name) ≡ false =
      ground (arith, length-append (out ++ bytes ++ name) rest, all) in
    let size : read_u32 (drop (length out) payload) ≡ some (length name, length bytes) =
      rw at_size e in
    rw (inside, read_name)
      (rw (size, read_name) (rw fits (rw at_name (rw (take-append name rest) (rw all refl)))))

-- A name that was appended behind some bytes is read at their end, and the reading ends where the
-- name does.
pub read_name-append_name :
    (out name rest : List ℕ)
    → length name < 2 ^ 32
    → read_name (append_name out name ++ rest) (length out)
      ≡ some (name, length (append_name out name))
unfolding append_name append_u32
read_name-append_name out name rest h =
    let size : u32 (length name) ≡ length name = omega arith in
    rw size (
      read_name-parts out (u32_bytes 5 (length name)) name rest
        (read_u32-u32_bytes (length name) (name ++ rest) h))

pub find_section-replace_payload :
    (id : ℕ) (payload : List ℕ) (ss : List RawSection) {s : RawSection}
    → find_section id ss ≡ some s
    → find_section id (replace_payload id payload ss) ≡ some (record s { payload = payload })
unfolding find_section replace_payload
find_section-replace_payload id payload [] e = absurd (ground arith)
find_section-replace_payload id payload (t ∷ ss) {s} e = elim (Bool-cases (t.id == id)) [
  | inl z ↦ let same : t ≡ s = ground arith in rw z (rw z (ap renamed same))
  | inr z ↦
      let deeper : find_section id ss ≡ some s = ground arith in
      rw z (rw z (find_section-replace_payload id payload ss deeper))
]
  where
    renamed : RawSection → Option RawSection
    renamed u = some (record u { payload = payload })

append_vector_item-found :
    (sections : List RawSection) (id : ℕ) (item : List ℕ) (s : RawSection) (count n : ℕ)
    → find_section id sections ≡ some s
    → read_u32 s.payload ≡ some (count, n)
    → append_vector_item sections id item
      ≡ some (
        replace_payload id (append_u32 [] (u32 (count + 1)) ++ drop n s.payload ++ item) sections,
        count,
      )
unfolding append_vector_item
append_vector_item-found sections id item s count n e r = rw (e, append_vector_item) (rw r refl)

-- Adding an item to the vector of a section that is there: the item gets the old count as its index.
-- The section then says one item more, and has its old items followed by the new one.
pub append_vector_item_lem :
    (sections : List RawSection) (id : ℕ) (item : List ℕ) (s : RawSection) (count n : ℕ)
    → find_section id sections ≡ some s
    → read_u32 s.payload ≡ some (count, n)
    → count + 1 < 2 ^ 32
    → (after : List RawSection) × (t : RawSection) × (m : ℕ) × (append_vector_item sections id item
        ≡ some (after, count))
      × (find_section id after ≡ some t)
      × (t.id ≡ s.id)
      × (read_u32 t.payload ≡ some (count + 1, m))
      × (drop m t.payload ≡ drop n s.payload ++ item)
append_vector_item_lem sections id item s count n e r small =
    let size : u32 (count + 1) ≡ count + 1 = omega arith in
    let bytes : List ℕ = append_u32 [] (count + 1) in
    let payload : List ℕ = append_u32 [] (u32 (count + 1)) ++ drop n s.payload ++ item in
    let flat : payload ≡ bytes ++ (drop n s.payload ++ item) =
      rw size (append_assoc (append_u32 [] (count + 1)) (drop n s.payload) item) in
    (
      replace_payload id payload sections,
      record s { payload = payload },
      length bytes,
      append_vector_item-found sections id item s count n e r,
      find_section-replace_payload id payload sections e,
      refl,
      rw flat (read_u32-append_u32 (count + 1) (drop n s.payload ++ item) small),
      rw flat (drop-append bytes (drop n s.payload ++ item)),
    )
