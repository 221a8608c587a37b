-- ===== src/Paths.antt =====
-- Guest paths: `cleanGuestPath` of filesystem.go, over the documented behaviour of path.Clean and
-- path.Dir on rooted paths. A path is the list of its bytes.
pub mod Canonical
pub mod Parents
use wago_emscripten.Common.{
  ℕ, Bool, true, false, not, ◌&&◌, ◌||◌, ◌≡◌, List, [], ◌∷◌, ◌++◌, Option, none, some, All, ◌==◌,
  bytes_eq, if◌then◌else◌,
}

abbrev pub root : List ℕ
root = b'/' ∷ []

abbrev push_front : ℕ → List (List ℕ) → List (List ℕ)
push_front c [] = (c ∷ []) ∷ []
push_front c (w ∷ ws) = (c ∷ w) ∷ ws

-- The text between slashes, empty pieces included.
unfoldable pub split_slash : List ℕ → List (List ℕ)
split_slash [] = [] ∷ []
split_slash (c ∷ cs) = if c == b'/' then [] ∷ split_slash cs else push_front c (split_slash cs)

-- Pieces that path.Clean drops, and the one that goes up a directory.
abbrev pub is_skipped : List ℕ → Bool
is_skipped w = bytes_eq w [] || bytes_eq w (b'.' ∷ [])

abbrev pub is_parent : List ℕ → Bool
is_parent w = bytes_eq w (b'.' ∷ b'.' ∷ [])

-- All but the last piece.
unfoldable pub init : List (List ℕ) → List (List ℕ)
init [] = []
init (w ∷ []) = []
init (w ∷ v ∷ ws) = w ∷ init (v ∷ ws)

-- `..` at the root stays at the root.
unfoldable pub resolve : List (List ℕ) → List (List ℕ) → List (List ℕ)
unfolding init
resolve done [] = done
resolve done (w ∷ ws) =
    resolve (if is_skipped w then done else if is_parent w then init done else done ++ w ∷ []) ws

unfoldable pub join : List (List ℕ) → List ℕ
join [] = []
join (w ∷ ws) = b'/' ∷ (w ++ join ws)

unfoldable pub render : List (List ℕ) → List ℕ
unfolding join
render [] = root
render (w ∷ ws) = join (w ∷ ws)

-- path.Clean on a path that begins with a slash.
unfoldable pub clean : List ℕ → List ℕ
unfolding render resolve split_slash
clean p = render (resolve [] (split_slash p))

abbrev pub has_byte : ℕ → List ℕ → Bool
has_byte b [] = false
has_byte b (c ∷ cs) = c == b || has_byte b cs

-- path.Split's first part: the path up to its last slash, with the slash.
unfoldable pub dir_part : List ℕ → List ℕ
dir_part [] = []
dir_part (c ∷ cs) = if has_byte b'/' cs then c ∷ dir_part cs else if c == b'/' then c ∷ [] else []

-- path.Dir on a path that begins with a slash.
unfoldable pub dir : List ℕ → List ℕ
unfolding clean dir_part
dir p = clean (dir_part p)

-- The cleaned path and whether it names something below the root; none for the two inputs that
-- `cleanGuestPath` answers with an empty text.
unfoldable pub clean_guest_path : List ℕ → Option (List ℕ)
unfolding clean
clean_guest_path value =
    if bytes_eq value [] || has_byte 0 value
    then none
    else let name = clean (b'/' ∷ value) in if bytes_eq name root then none else some name
