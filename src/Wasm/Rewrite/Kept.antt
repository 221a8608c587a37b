-- ===== src/Wasm/Rewrite/Kept.antt =====
-- transform.go: the imported functions keep their places when the import section is rewritten.
use wago_emscripten.Common.{
  ℕ, zero, suc, ◌+◌, ◌≤◌, ◌≡◌, refl, inl, inr, some, List, [], ◌∷◌, ◌++◌, length, drop, drop-append,
  ◌<◌, ◌^◌, Option-cases, u32, append_assoc, append-nil, >>=-some, subst, ◌∙◌, some_inj, ap, sym,
  arith,
}
use wago_emscripten.Wasm.{RawSection, read_u32, append_u32, find_section}
use wago_emscripten.Wasm.Numbers.{read_u32-append_u32, read_u32-bounds}
use wago_emscripten.Wasm.Sections.{find_section-replace_payload}
use wago_emscripten.Wasm.Rewrite.{
  ModuleKind, Import, ImportRewrite, read_import, append_import, rewrite_import, imports_loop,
  no_imports, put_entries, rewrite_imports, concat,
}
use wago_emscripten.Wasm.Rewrite.ShortNames.{IsShort, read_import-IsShort}
use wago_emscripten.Wasm.Rewrite.Reading.{read_import-append_import}
use wago_emscripten.Wasm.Rewrite.Steps.{
  read_imports, functions, counted, written, Step, rewrite_import-Step, counted-small,
  counted-functions, functions-other, functions-same,
}

-- What the rounds from `r` to `r'` have done to the imports `is`.
record Rewritten (count : ℕ) (source : List ℕ) (r r' : ImportRewrite) : Type 0 where
  before : List Import
  after : List Import
  reads : read_imports count source ≡ some before
  entries : r'.entries ≡ r.entries ++ written after
  again : read_imports (length after) (concat (written after)) ≡ some after
  fewer : length after ≤ count
  kept : functions after ≡ functions before
  total : r'.function_count ≡ u32 (r.function_count + length (functions before))

-- The first of the written imports is read again, and then the others.
again_cons :
    (j : Import) (js : List Import)
    → read_import (append_import j ++ concat (written js)) ≡ some (j, concat (written js))
    → read_imports (length js) (concat (written js)) ≡ some js
    → read_imports (length (j ∷ js)) (concat (written (j ∷ js))) ≡ some (j ∷ js)
unfolding read_imports written concat
again_cons j js first others = ground (arith, first, others)

written_again :
    (source : List ℕ) (i j : Import) (rest : List ℕ) (js : List Import)
    → read_import source ≡ some (i, rest)
    → j.kind ≡ i.kind
    → j.descriptor ≡ i.descriptor
    → (IsShort i → IsShort j)
    → read_import (append_import j ++ concat (written js)) ≡ some (j, concat (written js))
written_again source i j rest js z kinds types short =
    let (module_short, name_short) = short (read_import-IsShort source z) in
    read_import-append_import source i j (concat (written js)) z kinds types module_short name_short

module _ {count : ℕ} {source rest : List ℕ} {i : Import} {r noted r' : ImportRewrite} where
  Step-Rewritten :
      read_import source ≡ some (i, rest)
      → noted.function_count ≡ counted i.kind r.function_count
      → Step i r.entries noted.entries
      → Rewritten count rest noted r'
      → Rewritten (suc count) source r r'
  unfolding Step read_imports written
  Step-Rewritten z counts (inl (other, same)) w = record {
    before = i ∷ w.before;
    after = w.after;
    reads = ground (arith, z, w.reads);
    entries = w.entries ∙ ap (λ es. es ++ written w.after) same;
    again = w.again;
    fewer = omega (arith, w.fewer);
    kept = w.kept ∙ sym (functions-other i w.before other);
    total =
        w.total
        ∙ ap (λ n. u32 (n + length (functions w.before))) counts
        ∙ counted-functions i w.before r.function_count;
  }
  Step-Rewritten z counts (inr (j, kinds, types, short, added)) w = record {
    before = i ∷ w.before;
    after = j ∷ w.after;
    reads = ground (arith, z, w.reads);
    entries =
        w.entries
        ∙ ap (λ es. es ++ written w.after) added
        ∙ append_assoc r.entries (append_import j ∷ []) (written w.after);
    again =
        again_cons j w.after (written_again source i j rest w.after z kinds types short) w.again;
    fewer = omega (arith, w.fewer);
    kept = functions-same i j w.before w.after kinds types w.kept;
    total =
        w.total
        ∙ ap (λ n. u32 (n + length (functions w.before))) counts
        ∙ counted-functions i w.before r.function_count;
  }

module _ (sections : List RawSection) (kind : ModuleKind) where
  imports_loop-Rewritten :
      (count : ℕ) (source : List ℕ) (r : ImportRewrite) {r' : ImportRewrite}
      → u32 r.function_count ≡ r.function_count
      → imports_loop sections kind count source r ≡ some r'
      → Rewritten count source r r'
  unfolding imports_loop read_imports functions written concat
  imports_loop-Rewritten zero [] r {r'} small e =
      let same : r ≡ r' = some_inj e in
      record {
        before = [];
        after = [];
        reads = refl;
        entries = ap (λ s. s.entries) (sym same) ∙ sym (append-nil r.entries);
        again = refl;
        fewer = omega arith;
        kept = refl;
        total = ap (λ s. s.function_count) (sym same) ∙ sym small ∙ ground arith;
      }
  imports_loop-Rewritten zero (b ∷ bs) r small e = absurd (ground (arith, e))
  imports_loop-Rewritten (suc count) source r {r'} small e =
      elim (Option-cases (read_import source)) [
        | inl z ↦ absurd (ground arith)
        | inr ((i, rest), z) ↦ elim (Option-cases (rewrite_import sections kind i r)) [
          | inl y ↦ absurd (ground arith)
          | inr (noted, y) ↦
              let (counts, step) = rewrite_import-Step sections kind i r y in
              let on : imports_loop sections kind count rest noted ≡ some r' = ground arith in
              let small' =
                subst (λ n. u32 n ≡ n) (sym counts) (counted-small i.kind r.function_count small) in
              Step-Rewritten z counts step (imports_loop-Rewritten count rest noted small' on)
        ]
      ]

length-written : (is : List Import) → length (written is) ≡ length is
unfolding written
length-written [] = refl
length-written (i ∷ is) = ap suc (length-written is)

-- What the result's sections have of an import section that was read, and what was noted of it.
module _ (sections : List RawSection) (s : RawSection) where
  put_entries-section :
      (after : List Import)
      → find_section 2 sections ≡ some s
      → find_section 2 (put_entries (written after) sections)
        ≡ some (record s { payload = append_u32 [] (u32 (length after)) ++ concat (written after) })
  unfolding put_entries
  put_entries-section after found =
      find_section-replace_payload 2
        (append_u32 [] (u32 (length (written after))) ++ concat (written after)) sections found
      ∙ ap (λ n. some (record s { payload = append_u32 [] (u32 n) ++ concat (written after) }))
          (length-written after)

-- The section that is written is read as the imports of which it was made.
new_section :
    (after : List Import)
    → length after < 2 ^ 32
    → read_imports (length after) (concat (written after)) ≡ some after
    → (n : ℕ) × (read_u32 (append_u32 [] (u32 (length after)) ++ concat (written after))
        ≡ some (length after, n))
      × (read_imports
            (length after)
            (drop n (append_u32 [] (u32 (length after)) ++ concat (written after)))
          ≡ some after)
new_section after small again =
    let front : List ℕ = append_u32 [] (u32 (length after)) in
    let behind : List ℕ = concat (written after) in
    let same : u32 (length after) ≡ length after = omega (arith, small) in
    (
      length front,
      read_u32-append_u32 (u32 (length after)) behind (omega arith)
          ∙ ap (λ v. some (v, length front)) same,
      ap (read_imports (length after)) (drop-append front behind) ∙ again,
    )

-- Where the import section with `count` entries is rewritten, its entries read as a list of imports,
-- the section that takes its place reads as a list of imports too, and both lists have the same
-- descriptors of functions in the same order, whose number, as 32 bits, is the offset from which the
-- transformer counts the module's own functions.
pub rewrite_imports-functions :
    (sections : List RawSection) (kind : ModuleKind) (s : RawSection) (count n : ℕ)
    (sections' : List RawSection) (r : ImportRewrite)
    → find_section 2 sections ≡ some s
    → read_u32 s.payload ≡ some (count, n)
    → rewrite_imports sections kind ≡ some (sections', r)
    → (before after : List Import) × (payload : List ℕ) × (n' : ℕ) × (read_imports count
          (drop n s.payload)
        ≡ some before)
      × (find_section 2 sections' ≡ some (record s { payload = payload }))
      × (read_u32 payload ≡ some (length after, n'))
      × (read_imports (length after) (drop n' payload) ≡ some after)
      × (functions after ≡ functions before)
      × (r.function_count ≡ u32 (length (functions before)))
unfolding rewrite_imports
rewrite_imports-functions sections kind s count n sections' r found counts e =
    let source = drop n s.payload in
    let (r', loops, built) =
      >>=-some {B = List RawSection × ImportRewrite}
        (imports_loop sections kind count source no_imports)
        (λ r. some (put_entries r.entries sections, r)) {b = (sections', r)}
        (ground (arith, e, found, counts)) in
    let same : r' ≡ r = ap (λ p. p.1) (some_inj built) in
    let section : put_entries r'.entries sections ≡ sections' = ap (λ p. p.0) (some_inj built) in
    let w = imports_loop-Rewritten sections kind count source no_imports refl loops in
    let (small, some_bytes, there, few) = read_u32-bounds s.payload counts in
    let (n', front, again) = new_section w.after (omega (arith, w.fewer, small)) w.again in
    (
      w.before,
      w.after,
      append_u32 [] (u32 (length w.after)) ++ concat (written w.after),
      n',
      w.reads,
      ap (find_section 2) (sym section ∙ ap (λ es. put_entries es sections) w.entries)
          ∙ put_entries-section sections s w.after found,
      front,
      again,
      w.kept,
      ap (λ q. q.function_count) (sym same) ∙ w.total ∙ ap u32 (ground arith),
    )
