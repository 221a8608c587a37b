-- ===== src/Host/Reentry.antt =====
-- emscripten.go: calls that re-enter the guest, for callbacks under setjmp and for growing the heap.
use wago_emscripten.Common.{
  ℕ, ◌≡◌, refl, ap, ◌∙◌, List, [], ◌∷◌, ◌++◌, length, take, drop, replicate,
}
use wago_emscripten.Host.{Ended, returned, trapped}

-- How a call of a guest export through the runtime ends: with results, with the longjmp that the guest
-- raised by `_emscripten_throw_longjmp`, or with another error.
pub data Called : Type 0 where
  answered : List ℕ → Called
  longjmp : Called
  failed : Called

-- The runtime's caller invoker: the export's name and its parameters, and the guest before and after.
abbrev pub Invoker : Type 0 → Type 0
Invoker World = List ℕ → List ℕ → World → Called × World

abbrev pub stack_get_current : List ℕ
stack_get_current =
    b'e' ∷ b'm' ∷ b's' ∷ b'c' ∷ b'r' ∷ b'i' ∷ b'p' ∷ b't' ∷ b'e' ∷ b'n' ∷ b'_' ∷ b's' ∷ b't' ∷ b'a'
    ∷ b'c' ∷ b'k' ∷ b'_' ∷ b'g' ∷ b'e' ∷ b't' ∷ b'_' ∷ b'c' ∷ b'u' ∷ b'r' ∷ b'r' ∷ b'e' ∷ b'n'
    ∷ b't' ∷ []

abbrev pub stack_restore : List ℕ
stack_restore =
    b'_' ∷ b'e' ∷ b'm' ∷ b's' ∷ b'c' ∷ b'r' ∷ b'i' ∷ b'p' ∷ b't' ∷ b'e' ∷ b'n' ∷ b'_' ∷ b's' ∷ b't'
    ∷ b'a' ∷ b'c' ∷ b'k' ∷ b'_' ∷ b'r' ∷ b'e' ∷ b's' ∷ b't' ∷ b'o' ∷ b'r' ∷ b'e' ∷ []

abbrev pub set_threw : List ℕ
set_threw = b's' ∷ b'e' ∷ b't' ∷ b'T' ∷ b'h' ∷ b'r' ∷ b'e' ∷ b'w' ∷ []

abbrev pub wrapper_prefix : List ℕ
wrapper_prefix = b'_' ∷ b'_' ∷ b'w' ∷ b'a' ∷ b'g' ∷ b'o' ∷ b'_' ∷ []

abbrev pub resize_heap_export : List ℕ
resize_heap_export =
    b'_' ∷ b'_' ∷ b'w' ∷ b'a' ∷ b'g' ∷ b'o' ∷ b'_' ∷ b'r' ∷ b'e' ∷ b's' ∷ b'i' ∷ b'z' ∷ b'e' ∷ b'_'
    ∷ b'h' ∷ b'e' ∷ b'a' ∷ b'p' ∷ []

-- `copy(results, got)`
abbrev pub copy_results : List ℕ → List ℕ → List ℕ
copy_results results got = take (length results) got ++ drop (length got) results

module _ {World : Type 0} (invoke_guest : Invoker World) where
  -- `setThrew(1, 0)`, and the results cleared.
  unfoldable pub record_longjmp : List ℕ → World → Ended × World
  record_longjmp results world =
      let (threw, world') = invoke_guest set_threw (1 ∷ 0 ∷ []) world in
      elim threw [
        | answered got ↦ (returned (replicate (length results) 0), world')
        | longjmp ↦ (trapped, world')
        | failed ↦ (trapped, world')
      ]

  -- What follows a longjmp out of the callback: the stack pointer that was read is put back.
  unfoldable pub unwind : Called → List ℕ → World → Ended × World
  unfolding record_longjmp
  unwind (answered (pointer ∷ [])) results world =
      let (restored, world') = invoke_guest stack_restore (pointer ∷ []) world in
      elim restored [
        | answered got ↦ record_longjmp results world'
        | longjmp ↦ (trapped, world')
        | failed ↦ (trapped, world')
      ]
  unwind (answered []) results world = record_longjmp results world
  unwind (answered (a ∷ b ∷ bs)) results world = record_longjmp results world
  unwind longjmp results world = record_longjmp results world
  unwind failed results world = record_longjmp results world

  -- What follows the call of the wrapper.
  unfoldable pub after_call : Called → List ℕ → Called × World → Ended × World
  unfolding unwind
  after_call stack results (answered got, world) = (returned (copy_results results got), world)
  after_call stack results (longjmp, world) = unwind stack results world
  after_call stack results (failed, world) = (trapped, world)

  -- The host function of the import `name`.
  unfoldable pub invoke : List ℕ → List ℕ → List ℕ → World → Ended × World
  unfolding after_call
  invoke name params results world =
      let (stack, world') = invoke_guest stack_get_current [] world in
      after_call stack results (invoke_guest (wrapper_prefix ++ name) params world')

  unfoldable pub resize_heap : List ℕ → List ℕ → World → Ended × World
  resize_heap params results world =
      let (got, world') = invoke_guest resize_heap_export params world in
      elim got [
        | answered (grown ∷ []) ↦ (returned (grown ∷ drop 1 results), world')
        | answered [] ↦ (returned (0 ∷ drop 1 results), world')
        | answered (a ∷ b ∷ bs) ↦ (returned (0 ∷ drop 1 results), world')
        | longjmp ↦ (trapped, world')
        | failed ↦ (trapped, world')
      ]

  unwind_lem :
      (n : ℕ) (results : List ℕ) (world world' world'' : World)
      → invoke_guest stack_restore (n ∷ []) world ≡ (answered [], world')
      → invoke_guest set_threw (1 ∷ 0 ∷ []) world' ≡ (answered [], world'')
      → unwind (answered (n ∷ [])) results world
        ≡ (returned (replicate (length results) 0), world'')
  unfolding unwind record_longjmp
  unwind_lem n results world world' world'' e f =
      rw (e, unwind) (rw e (rw (f, record_longjmp) (rw f refl)))

  invoke-longjmp :
      (name params results : List ℕ) (world jumped : World) (stack : Called)
      → invoke_guest stack_get_current [] world ≡ (stack, world)
      → invoke_guest (wrapper_prefix ++ name) params world ≡ (longjmp, jumped)
      → invoke name params results world ≡ unwind stack results jumped
  unfolding invoke after_call
  invoke-longjmp name params results world jumped stack e f =
      ap (λ s. after_call s.0 results (invoke_guest (wrapper_prefix ++ name) params s.1)) e
      ∙ ap (after_call stack results) f

  -- The guest's stack pointer as its exports know it.
  module _ (pointer : World → ℕ) where
    -- A callback that leaves by longjmp, wherever it has left the stack pointer, is unwound: the call
    -- returns zeros to the guest, and the stack pointer is the one from before the call. This is for
    -- exports that read and set the stack pointer, and a `setThrew` that leaves it alone.
    pub invoke-unwinds :
        (name params results : List ℕ) (world jumped : World)
        → ((w : World) → invoke_guest stack_get_current [] w ≡ (answered (pointer w ∷ []), w))
        → ((n : ℕ) (w : World)
            → (w' : World) × (invoke_guest stack_restore (n ∷ []) w ≡ (answered [], w'))
              × (pointer w' ≡ n))
        → ((w : World)
            → (w' : World) × (invoke_guest set_threw (1 ∷ 0 ∷ []) w ≡ (answered [], w'))
              × (pointer w' ≡ pointer w))
        → invoke_guest (wrapper_prefix ++ name) params world ≡ (longjmp, jumped)
        → ((invoke name params results world).0 ≡ returned (replicate (length results) 0))
          × (pointer (invoke name params results world).1 ≡ pointer world)
    invoke-unwinds name params results world jumped reads restores threw jumps =
        let (w', restored, there) = restores (pointer world) jumped in
        let (w'', thrown, kept) = threw w' in
        let done : invoke name params results world
            ≡ (returned (replicate (length results) 0), w'') =
          invoke-longjmp name params results world jumped (answered (pointer world ∷ []))
            (reads world) jumps
          ∙ unwind_lem (pointer world) results jumped w' w'' restored thrown in
        (ap (λ e. e.0) done, ap (λ e. pointer e.1) done ∙ kept ∙ there)
