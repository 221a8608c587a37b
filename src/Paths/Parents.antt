-- ===== src/Paths/Parents.antt =====
-- path.Dir on cleaned paths: it drops the last piece, and the path begins with its parent.
use wago_emscripten.Common.{
  ℕ, true, false, ◌≡◌, ◌≢◌, refl, ap, subst, ◌∙◌, sym, ◌⊎◌, inl, inr, List, [], ◌∷◌, ◌++◌,
  append_assoc, append-nil, some, All, bytes_eq, bytes_eq_refl, has_prefix, has_prefix-append,
  arith,
}
use wago_emscripten.Paths.{
  root, split_slash, join, render, clean, has_byte, dir_part, dir, clean_guest_path,
}
use wago_emscripten.Paths.Canonical.{
  IsName, IsClean, clean-IsClean, clean-join, snoc-cases, render-join, All-append, resolve_empty,
}

has_slash_behind : (xs w : List ℕ) → has_byte b'/' (xs ++ b'/' ∷ w) ≡ true
has_slash_behind [] w = refl
has_slash_behind (x ∷ xs) w = ground (arith, has_slash_behind xs w)

dir_part_word : (xs w : List ℕ) → has_byte b'/' w ≡ false → dir_part (xs ++ b'/' ∷ w) ≡ xs ++ root
unfolding dir_part
dir_part_word [] w h = rw h
dir_part_word (x ∷ xs) w h = rw (has_slash_behind xs w) (ap (λ t. x ∷ t) (dir_part_word xs w h))

join-append_one : (ws : List (List ℕ)) (w : List ℕ) → join (ws ++ w ∷ []) ≡ join ws ++ b'/' ∷ w
unfolding join
join-append_one [] w = rw append-nil
join-append_one (v ∷ ws) w = simp (join-append_one ws w, append_assoc)

snoc-ne-nil : (ws : List (List ℕ)) (w : List ℕ) → ws ++ w ∷ [] ≢ []
snoc-ne-nil [] w e = cc
snoc-ne-nil (v ∷ ws) w e = cc

render-append_one : (ws : List (List ℕ)) (w : List ℕ) → render (ws ++ w ∷ []) ≡ join ws ++ b'/' ∷ w
render-append_one ws w = render-join (ws ++ w ∷ []) (snoc-ne-nil ws w) ∙ join-append_one ws w

-- path.Dir drops the last piece.
pub dir-render :
    (ws : List (List ℕ)) (w : List ℕ)
    → All IsName ws
    → IsName w
    → dir (render (ws ++ w ∷ [])) ≡ render ws
unfolding dir split_slash
dir-render ws w h k =
    ap dir (render-append_one ws w)
    ∙ ap clean (dir_part_word (join ws) w k.0)
    ∙ clean-join ws root ([] ∷ []) h refl (resolve_empty ws)

-- The parent of a canonical path below the root: it is canonical, and unless it is the root the
-- path begins with it and a slash.
pub record HasParent (p : List ℕ) : Type 0 where
  pub parent_clean : IsClean (dir p)
  pub below : (dir p ≡ root) ⊎ (has_prefix p (dir p ++ root) ≡ true)

clean_snoc :
    (p : List ℕ) (ws : List (List ℕ)) (w : List ℕ)
    → p ≡ render (ws ++ w ∷ [])
    → All IsName ws
    → IsName w
    → HasParent p
clean_snoc p ws w e h k = record {
  parent_clean = record { pieces = ws; named = h; rendered = parent };
  below = elim (snoc-cases ws) [
    | inl none_left ↦ inl (parent ∙ ap render none_left ∙ unfold render in refl)
    | inr (vs, v, more) ↦ inr (
        subst (λ t. has_prefix p (t ++ root) ≡ true)
          (sym (parent ∙ render-join ws (λ z. snoc-ne-nil vs v (sym more ∙ z))))
          (subst (λ t. has_prefix t (join ws ++ root) ≡ true)
            (append_assoc (join ws) root w ∙ sym (e ∙ render-append_one ws w))
            (has_prefix-append (join ws ++ root) w)))
  ];
}
  where
    parent : dir p ≡ render ws
    parent = ap dir e ∙ dir-render ws w h k

pub clean-HasParent : (p : List ℕ) → IsClean p → p ≢ root → HasParent p
clean-HasParent p c ne = elim (snoc-cases c.pieces) [
  | inl e ↦ absurd (ne (c.rendered ∙ ap render e ∙ unfold render in refl))
  | inr (ws, w, e) ↦
      let (h, k) = All-append IsName ws (w ∷ []) (subst (All IsName) e c.named) in
      clean_snoc p ws w (c.rendered ∙ ap render e) h k.0
]

-- What `cleanGuestPath` hands on is canonical and is not the root.
pub clean_guest_path-IsClean :
    (value : List ℕ) {name : List ℕ}
    → clean_guest_path value ≡ some name
    → IsClean name × (name ≢ root)
unfolding clean_guest_path
clean_guest_path-IsClean value {name} e = (
  subst IsClean (cleaned.0) (clean-IsClean (b'/' ∷ value)),
  λ z. cc (cleaned.1, ap (λ t. bytes_eq t root) (cleaned.0 ∙ z), bytes_eq_refl root),
)
  where
    cleaned : (clean (b'/' ∷ value) ≡ name) × (bytes_eq (clean (b'/' ∷ value)) root ≡ false)
    cleaned = ground arith
