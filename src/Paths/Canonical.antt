-- ===== src/Paths/Canonical.antt =====
-- Cleaned paths: what they look like, their parents, and that no piece of them leads upwards.
use wago_emscripten.Common.{
  ℕ, false, ◌≡◌, ◌≢◌, refl, ap, ◌∙◌, sym, ◌⊎◌, inl, inr, List, [], ◌∷◌, ◌++◌, append_assoc,
  append-nil, All, ◌==◌, bytes_eq, Bool-cases, arith,
}
use wago_emscripten.Paths.{
  push_front, split_slash, is_skipped, is_parent, init, resolve, join, render, clean, has_byte,
}

-- A piece that path.Clean keeps: a text without a slash that is not empty, `.` or `..`.
abbrev pub IsName : List ℕ → Type 0
IsName w = (has_byte b'/' w ≡ false) × (is_skipped w ≡ false) × (is_parent w ≡ false)

-- The canonical form of a rooted path: its pieces.
pub record IsClean (p : List ℕ) : Type 0 where
  pub pieces : List (List ℕ)
  pub named : All IsName pieces
  pub rendered : p ≡ render pieces

push_front_free :
    (c : ℕ) (ws : List (List ℕ))
    → (c == b'/') ≡ false
    → All (λ w. has_byte b'/' w ≡ false) ws
    → All (λ w. has_byte b'/' w ≡ false) (push_front c ws)
push_front_free c [] e h = ground arith
push_front_free c (w ∷ ws) e h = ground arith

-- The pieces of a text hold no slash.
split_slash_free : (p : List ℕ) → All (λ w. has_byte b'/' w ≡ false) (split_slash p)
unfolding split_slash
split_slash_free [] = (refl, tt)
split_slash_free (c ∷ cs) = elim (Bool-cases (c == b'/')) [
  | inl e ↦ rw e (refl, split_slash_free cs)
  | inr e ↦ rw (e, split_slash) (push_front_free c (split_slash cs) e (split_slash_free cs))
]

All-append_one {ℓ κ} :
    {A : Type ℓ} (P : A → Type κ) (xs : List A) (x : A) → All P xs → P x → All P (xs ++ x ∷ [])
All-append_one P [] x h p = (p, tt)
All-append_one P (y ∷ ys) x h p = (h.0, All-append_one P ys x h.1 p)

All-init : (ws : List (List ℕ)) → All IsName ws → All IsName (init ws)
unfolding init
All-init [] h = tt
All-init (w ∷ []) h = tt
All-init (w ∷ v ∷ ws) h = (h.0, All-init (v ∷ ws) h.1)

resolve-IsName :
    (done ws : List (List ℕ))
    → All IsName done
    → All (λ w. has_byte b'/' w ≡ false) ws
    → All IsName (resolve done ws)
unfolding resolve
resolve-IsName done [] h k = h
resolve-IsName done (w ∷ ws) h k = elim (Bool-cases (is_skipped w)) [
  | inl e ↦ rw e (resolve-IsName done ws h k.1)
  | inr e ↦ rw e (elim (Bool-cases (is_parent w)) [
    | inl d ↦ rw d (resolve-IsName (init done) ws (All-init done h) k.1)
    | inr d ↦
        rw d (resolve-IsName (done ++ w ∷ []) ws (All-append_one IsName done w h (k.0, e, d)) k.1)
  ])
]

split_slash_word :
    (w rest v : List ℕ) (vs : List (List ℕ))
    → has_byte b'/' w ≡ false
    → split_slash rest ≡ v ∷ vs
    → split_slash (w ++ rest) ≡ (w ++ v) ∷ vs
unfolding split_slash
split_slash_word [] rest v vs h e = e
split_slash_word (c ∷ w) rest v vs h e = ground (arith, split_slash_word w rest v vs)

split_slash-join :
    (ws : List (List ℕ)) (rest : List ℕ) (vs : List (List ℕ))
    → All IsName ws
    → split_slash rest ≡ [] ∷ vs
    → split_slash (join ws ++ rest) ≡ [] ∷ (ws ++ vs)
unfolding split_slash join
split_slash-join [] rest vs h e = e
split_slash-join (w ∷ ws) rest vs h e =
    ap (λ t. [] ∷ t)
      (rw append_assoc (
        split_slash_word w (join ws ++ rest) [] (ws ++ vs) h.0.0 (split_slash-join ws rest vs h.1 e)
        ∙ rw append-nil))

resolve_name :
    (done ws : List (List ℕ)) (w : List ℕ)
    → IsName w
    → resolve done (w ∷ ws) ≡ resolve (done ++ w ∷ []) ws
unfolding resolve
resolve_name done ws w h = ap (λ t. resolve t ws) (rw (h.1, h.2))

resolve-append :
    (done ws vs : List (List ℕ)) → All IsName ws → resolve done (ws ++ vs) ≡ resolve (done ++ ws) vs
unfolding resolve
resolve-append done [] vs h = ap (λ t. resolve t vs) (sym (append-nil done))
resolve-append done (w ∷ ws) vs h =
    resolve_name done (ws ++ vs) w h.0
    ∙ resolve-append (done ++ w ∷ []) ws vs h.1
    ∙ ap (λ t. resolve t vs) (append_assoc done (w ∷ []) ws)

-- Cleaning a canonical path that has been extended by nothing or by a slash gives it back.
pub clean-join :
    (ws : List (List ℕ)) (rest : List ℕ) (vs : List (List ℕ))
    → All IsName ws
    → split_slash rest ≡ [] ∷ vs
    → (resolve ws vs ≡ ws)
    → clean (join ws ++ rest) ≡ render ws
unfolding clean bytes_eq
clean-join ws rest vs h e r =
    ap (λ t. render (resolve [] t)) (split_slash-join ws rest vs h e)
    ∙ ap render (resolve-append [] ws vs h ∙ r)

pub snoc-cases :
    (ws : List (List ℕ)) → (ws ≡ []) ⊎ ((vs : List (List ℕ)) × (w : List ℕ) × (ws ≡ vs ++ w ∷ []))
snoc-cases [] = inl refl
snoc-cases (w ∷ ws) = elim (snoc-cases ws) [
  | inl e ↦ inr ([], w, ap (λ t. w ∷ t) e)
  | inr (vs, v, e) ↦ inr (w ∷ vs, v, ap (λ t. w ∷ t) e)
]

pub All-append {ℓ κ} :
    {A : Type ℓ} (P : A → Type κ) (xs ys : List A) → All P (xs ++ ys) → All P xs × All P ys
All-append P [] ys h = (tt, h)
All-append P (x ∷ xs) ys h = let (a, b) = All-append P xs ys h.1 in ((h.0, a), b)

pub render-join : (ws : List (List ℕ)) → ws ≢ [] → render ws ≡ join ws
unfolding render
render-join [] h = absurd (h refl)
render-join (w ∷ ws) h = refl

resolve_nothing : (ws : List (List ℕ)) → resolve ws [] ≡ ws
unfolding resolve
resolve_nothing ws = refl

pub resolve_empty : (ws : List (List ℕ)) → resolve ws ([] ∷ []) ≡ ws
unfolding resolve bytes_eq
resolve_empty ws = refl

-- A canonical path is left alone by path.Clean.
pub clean-render : (ws : List (List ℕ)) → All IsName ws → clean (render ws) ≡ render ws
unfolding split_slash
clean-render [] h = unfold clean bytes_eq in refl
clean-render (w ∷ ws) h =
    ap clean (render-join (w ∷ ws) (λ e. cc) ∙ sym (append-nil (join (w ∷ ws))))
    ∙ clean-join (w ∷ ws) [] [] h refl (resolve_nothing (w ∷ ws))

pub clean-IsClean : (p : List ℕ) → IsClean (clean p)
unfolding clean
clean-IsClean p = record {
  pieces = resolve [] (split_slash p);
  named = resolve-IsName [] (split_slash p) tt (split_slash_free p);
  rendered = refl;
}

-- Cleaning a path that has been cleaned changes nothing.
pub clean_idem : (p : List ℕ) → clean (clean p) ≡ clean p
clean_idem p =
    let c = clean-IsClean p in ap clean c.rendered ∙ clean-render c.pieces c.named ∙ sym c.rendered
