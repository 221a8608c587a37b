-- ===== src/Lifecycle.antt =====
-- plugin.go: the configuration, and the life of the plugin between its registration and its stop.
pub mod Runs
use wago_emscripten.Common.{
  ℕ, ◌+◌, ◌*◌, ◌^◌, Bool, true, false, not, ◌&&◌, ◌||◌, Option, none, some, List, [], ◌∷◌, length,
  ltb, leb, bytes_eq, ◌==◌, if◌then◌else◌, erase, nat_eq,
}
use wago_emscripten.Paths.{has_byte}
use wago_emscripten.FileSystem.Reply.{Plugin, Limits, Module}
use wago_emscripten.FileSystem.Mappings.{Memalign}
use wago_emscripten.FileSystem.Calls.{Call, dispatch}

pub record Config : Type 0 where
  pub stdin : List ℕ
  pub stdout : List ℕ
  pub stderr : List ℕ
  pub env : List (List ℕ)
  pub max_filesystem_bytes : ℕ
  pub max_open_files : ℕ

-- encoding/json on the raw text: the keys of an object, and the fields of a configuration.
pub record Json : Type 0 where
  pub keys : List ℕ → Option (List (List ℕ))
  pub config : List ℕ → Option Config

abbrev word_inherit : List ℕ
word_inherit = b'i' ∷ b'n' ∷ b'h' ∷ b'e' ∷ b'r' ∷ b'i' ∷ b't' ∷ []

abbrev word_eof : List ℕ
word_eof = b'e' ∷ b'o' ∷ b'f' ∷ []

abbrev word_discard : List ℕ
word_discard = b'd' ∷ b'i' ∷ b's' ∷ b'c' ∷ b'a' ∷ b'r' ∷ b'd' ∷ []

abbrev field_names : List (List ℕ)
field_names =
    (b's' ∷ b't' ∷ b'd' ∷ b'i' ∷ b'n' ∷ [])
    ∷ (b's' ∷ b't' ∷ b'd' ∷ b'o' ∷ b'u' ∷ b't' ∷ [])
    ∷ (b's' ∷ b't' ∷ b'd' ∷ b'e' ∷ b'r' ∷ b'r' ∷ [])
    ∷ (b'e' ∷ b'n' ∷ b'v' ∷ [])
    ∷ (b'm' ∷ b'a' ∷ b'x' ∷ b'F' ∷ b'i' ∷ b'l' ∷ b'e' ∷ b's' ∷ b'y' ∷ b's' ∷ b't' ∷ b'e' ∷ b'm'
        ∷ b'B' ∷ b'y' ∷ b't' ∷ b'e' ∷ b's' ∷ [])
    ∷ (b'm' ∷ b'a' ∷ b'x' ∷ b'O' ∷ b'p' ∷ b'e' ∷ b'n' ∷ b'F' ∷ b'i' ∷ b'l' ∷ b'e' ∷ b's' ∷ [])
    ∷ []

abbrev pub is_one_of : List ℕ → List (List ℕ) → Bool
is_one_of x [] = false
is_one_of x (y ∷ ys) = bytes_eq x y || is_one_of x ys

unfoldable pub known_keys : List (List ℕ) → Bool
known_keys [] = true
known_keys (k ∷ ks) = is_one_of k field_names && known_keys ks

-- `len(entry) > 4096 || NUL in it || IndexByte '=' <= 0`: an entry has its `=` behind a name.
unfoldable pub bad_entry : List ℕ → Bool
bad_entry [] = true
bad_entry (c ∷ cs) =
    ltb 4096 (length (c ∷ cs)) || has_byte 0 (c ∷ cs) || c == b'=' || not (has_byte b'=' cs)

unfoldable pub has_bad_entry : List (List ℕ) → Bool
unfolding bad_entry
has_bad_entry [] = false
has_bad_entry (e ∷ es) = bad_entry e || has_bad_entry es

-- The checks on the fields, in the source's order.
unfoldable pub is_accepted : Config → Bool
unfolding has_bad_entry
is_accepted c =
    is_one_of c.stdin ([] ∷ word_inherit ∷ word_eof ∷ [])
    && is_one_of c.stdout ([] ∷ word_inherit ∷ word_discard ∷ [])
    && is_one_of c.stderr ([] ∷ word_inherit ∷ word_discard ∷ [])
    && leb (length c.env) 256
    && not (has_bad_entry c.env)
    && (c.max_filesystem_bytes == 0
        || leb 65536 c.max_filesystem_bytes && leb c.max_filesystem_bytes (256 * 2 ^ 20))
    && (c.max_open_files == 0 || leb 3 c.max_open_files && leb c.max_open_files 65536)

-- `decodeConfig`; every error is none. An empty text stands for `{}`.
unfoldable pub decode_config : Json → List ℕ → Option Config
unfolding known_keys is_accepted
decode_config json raw =
    let text = if length raw == 0 then b'{' ∷ b'}' ∷ [] else raw in
    if ltb 65536 (length text) then none else elim (json.keys text) [
      | none ↦ none
      | some keys ↦
          if known_keys keys
          then elim (json.config text) [
            | none ↦ none
            | some c ↦ if is_accepted c then some c else none
          ]
          else none
    ]

-- The limits after `Register`: the defaults of `newPlugin`, where the configuration says 0.
abbrev pub limits_of : Config → Limits
limits_of c = record {
  max_filesystem_bytes =
      if c.max_filesystem_bytes == 0 then 32 * 2 ^ 20 else c.max_filesystem_bytes;
  max_open_files = if c.max_open_files == 0 then 1024 else c.max_open_files;
}

-- What reaches the plugin while it is registered: calls of its host imports, the end of an instance
-- (`closed.After`), and `stop`.
pub data Event : Type 0 where
  called : Module → Call → Event
  closed : ℕ → Event
  stopped : Event

-- One event, under the plugin's mutex.
unfoldable pub step : Memalign → Plugin → Event → Plugin
unfolding dispatch
step memalign p (called m call) = (dispatch memalign p m call).plugin
step memalign p (closed id) = record p { files = erase id p.files }
step memalign p stopped = record p { files = [] }

unfoldable pub run : Memalign → Plugin → List Event → Plugin
unfolding step
run memalign p [] = p
run memalign p (event ∷ events) = run memalign (step memalign p event) events
