-- ===== src/GoJs/Ready/Copying.antt =====
-- gojs.go: byte copies and transfers keep a table ready.
use wago_emscripten.Common.{
  ℕ, ◌-◌, Bool, true, false, not, ◌&&◌, ◌≡◌, refl, sym, ap, subst, ◌∙◌, inl, inr, Option, none,
  some, List, length, get_elem?, leb, if◌then◌else◌, Bool-cases, Option-cases, bytes_key, nat_eq,
  some_inj, arith,
}
use wago_emscripten.FileSystem.Reply.{Stdio}
use wago_emscripten.GoJs.{Ref, JsValue, bytes, GoState, value_at, load_value}
use wago_emscripten.GoJs.Floats.{Machine}
use wago_emscripten.GoJs.Access.{is_nonneg, go_bytes, argument, bytes_of}
use wago_emscripten.GoJs.Calls.{Values, behind, copy_out, read_or_zero}
use wago_emscripten.GoJs.Copies.{
  Copied, copy_to_go, copy_to_js, report_copy, copy_bytes, go_copy_bytes,
}
use wago_emscripten.GoJs.Resume.{int_argument, transfer, try_transfer}
use wago_emscripten.GoJs.Ready.{Grows, Grows-refl, Grows-set, Grows-load_value}
use wago_emscripten.GoJs.Ready.Calling.{Grows-both}

-- What is read as bytes stands in the heap as bytes.
bytes-at :
    (st : GoState) (r : Ref) {bs : List ℕ}
    → bytes_of (value_at st r) ≡ some bs
    → (a : ℕ) × (r ≡ some a) × (get_elem? st.heap a ≡ some (bytes bs))
unfolding value_at
bytes-at st none e = absurd (ground (arith, e))
bytes-at st (some a) {bs} e = (a, refl, by_kind (get_elem? st.heap a) refl e)
  where
    by_kind :
        (o : Option JsValue)
        → get_elem? st.heap a ≡ o
        → bytes_of (get_elem? st.heap a) ≡ some bs
        → get_elem? st.heap a ≡ some (bytes bs)
    by_kind none f g = absurd (ground (arith, ap bytes_of f, g))
    by_kind (some (bytes cs)) f g =
        f ∙ ap (λ t. some (bytes t)) (some_inj (sym (ap bytes_of f) ∙ g))
    by_kind (some _) f g = absurd (ground (arith, ap bytes_of f, g))

Grows-copy_to_js :
    (w : Values) (ptr len a : ℕ) (bs : List ℕ)
    → get_elem? w.state.heap a ≡ some (bytes bs)
    → Grows 0 w.state (copy_to_js w ptr len (some a) bs).world.state
unfolding copy_to_js
Grows-copy_to_js w ptr len a bs e = elim (Option-cases (go_bytes w.memory ptr len)) [
  | inl z ↦ rw (z, copy_to_js) (Grows-refl w.state)
  | inr (guest, z) ↦ rw (z, copy_to_js) (Grows-set w.state a (bytes bs) _ e refl)
]

Grows-copy_to_go :
    (w : Values) (ptr len : ℕ) (bs : List ℕ) → Grows 0 w.state (copy_to_go w ptr len bs).world.state
unfolding copy_to_go
Grows-copy_to_go w ptr len bs = elim (Option-cases (copy_out w.memory ptr len bs)) [
  | inl z ↦ rw (z, copy_to_go) (Grows-refl w.state)
  | inr (memory', z) ↦ rw (z, copy_to_go) (Grows-refl w.state)
]

Grows-copy_bytes :
    (to_go : Bool) (w : Values) (host : Ref) (ptr len : ℕ)
    → Grows 0 w.state (copy_bytes to_go w host ptr len).world.state
unfolding copy_bytes
Grows-copy_bytes to_go w host ptr len = elim (Option-cases (bytes_of (value_at w.state host))) [
  | inl z ↦ rw (z, copy_bytes) (Grows-refl w.state)
  | inr (bs, z) ↦
      let (a, there, is) = bytes-at w.state host z in
      elim (Bool-cases (not (is_nonneg ptr && is_nonneg len))) [
        | inl y ↦ rw (z, copy_bytes) (rw y (Grows-refl w.state))
        | inr y ↦ elim (Bool-cases to_go) [
          | inl x ↦ rw (z, copy_bytes) (rw y (rw x (Grows-copy_to_go w ptr len bs)))
          | inr x ↦ rw (z, copy_bytes) (rw y (rw x (rw there (Grows-copy_to_js w ptr len a bs is))))
        ]
      ]
]

report_copy-state : (sp : ℕ) (c : Copied) → (report_copy sp c).state ≡ c.world.state
unfolding report_copy
report_copy-state sp c = elim (Option-cases (c.count)) [
  | inl z ↦ rw (z, report_copy) refl
  | inr (n, z) ↦ rw (z, report_copy) refl
]

pub Grows-go_copy_bytes :
    (to_go : Bool) (sp : ℕ) (w : Values) → Grows 0 w.state (go_copy_bytes to_go sp w).state
unfolding go_copy_bytes
Grows-go_copy_bytes to_go sp w =
    let host = load_value w.state w.memory (if to_go then behind sp 32 else behind sp 8) in
    let ptr = read_or_zero w.memory (if to_go then behind sp 8 else behind sp 16) in
    let len = read_or_zero w.memory (if to_go then behind sp 16 else behind sp 24) in
    let copied = copy_bytes to_go (record { state = host.1; memory = w.memory }) host.0 ptr len in
    subst (λ st. Grows 0 w.state st) (sym (report_copy-state sp copied))
      (Grows-both w.state host.1 _
        (Grows-load_value w.state w.memory (if to_go then behind sp 32 else behind sp 8))
        (Grows-copy_bytes to_go (record { state = host.1; memory = w.memory }) host.0 ptr len))

Grows-transfer :
    (k : Machine) (reads : Bool) (st : GoState) (io : Stdio) (args : List Ref) (a : ℕ) (bs : List ℕ)
    (offset len : ℕ)
    → get_elem? st.heap a ≡ some (bytes bs)
    → Grows 0 st (transfer k reads st io args a bs offset len).1
unfolding transfer
Grows-transfer k true st io args a bs offset len e = Grows-set st a (bytes bs) _ e refl
Grows-transfer k false st io args a bs offset len e = Grows-refl st

pub Grows-try_transfer :
    (k : Machine) (reads : Bool) (st : GoState) (io : Stdio) (args : List Ref)
    → Grows 0 st (try_transfer k reads st io args).1
unfolding try_transfer
Grows-try_transfer k reads st io args = elim (Option-cases (argument args 1)) [
  | inl z ↦ rw (z, try_transfer) (Grows-refl st)
  | inr (a, z) ↦ elim (Option-cases (bytes_of (value_at st (some a)))) [
    | inl y ↦ rw (z, try_transfer) (rw (y, try_transfer) (Grows-refl st))
    | inr (bs, y) ↦
        let (b, there, is) = bytes-at st (some a) y in
        let at_a : get_elem? st.heap a ≡ some (bytes bs) =
          ap (get_elem? st.heap) (some_inj there) ∙ is in
        let offset = int_argument k st args 2 0 in
        let len = int_argument k st args 3 (length bs) in
        elim (Bool-cases (
          leb 4 (length args)
          && is_nonneg offset
          && is_nonneg len
          && leb offset (length bs)
          && leb len (length bs - offset))) [
            | inl x ↦
                rw (z, try_transfer)
                  (rw (y, try_transfer)
                    (rw x (Grows-transfer k reads st io args a bs offset len at_a)))
            | inr x ↦ rw (z, try_transfer) (rw (y, try_transfer) (rw x (Grows-refl st)))
          ]
  ]
]
