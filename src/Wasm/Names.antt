-- ===== src/Wasm/Names.antt =====
-- transform.go: the names that the transformer compares, renames and searches for, as bytes.
use wago_emscripten.Common.{ℕ, List, [], ◌∷◌}

abbrev pub env_module : List ℕ
env_module = b'e' ∷ b'n' ∷ b'v' ∷ []

abbrev pub memory_name : List ℕ
memory_name = b'm' ∷ b'e' ∷ b'm' ∷ b'o' ∷ b'r' ∷ b'y' ∷ []

abbrev pub invoke_name_prefix : List ℕ
invoke_name_prefix = b'i' ∷ b'n' ∷ b'v' ∷ b'o' ∷ b'k' ∷ b'e' ∷ b'_' ∷ []

abbrev pub localtime_js : List ℕ
localtime_js =
    b'_' ∷ b'l' ∷ b'o' ∷ b'c' ∷ b'a' ∷ b'l' ∷ b't' ∷ b'i' ∷ b'm' ∷ b'e' ∷ b'_' ∷ b'j' ∷ b's' ∷ []

abbrev pub gmtime_js : List ℕ
gmtime_js = b'_' ∷ b'g' ∷ b'm' ∷ b't' ∷ b'i' ∷ b'm' ∷ b'e' ∷ b'_' ∷ b'j' ∷ b's' ∷ []

abbrev pub tzset_js : List ℕ
tzset_js = b'_' ∷ b't' ∷ b'z' ∷ b's' ∷ b'e' ∷ b't' ∷ b'_' ∷ b'j' ∷ b's' ∷ []

abbrev pub munmap_import : List ℕ
munmap_import = b'_' ∷ b'm' ∷ b'u' ∷ b'n' ∷ b'm' ∷ b'a' ∷ b'p' ∷ b'_' ∷ b'j' ∷ b's' ∷ []

abbrev pub mmap_import : List ℕ
mmap_import = b'_' ∷ b'm' ∷ b'm' ∷ b'a' ∷ b'p' ∷ b'_' ∷ b'j' ∷ b's' ∷ []

abbrev pub wago_localtime_js_i64 : List ℕ
wago_localtime_js_i64 =
    b'_' ∷ b'_' ∷ b'w' ∷ b'a' ∷ b'g' ∷ b'o' ∷ b'_' ∷ b'l' ∷ b'o' ∷ b'c' ∷ b'a' ∷ b'l' ∷ b't' ∷ b'i'
    ∷ b'm' ∷ b'e' ∷ b'_' ∷ b'j' ∷ b's' ∷ b'_' ∷ b'i' ∷ b'6' ∷ b'4' ∷ []

abbrev pub wago_gmtime_js_i64 : List ℕ
wago_gmtime_js_i64 =
    b'_' ∷ b'_' ∷ b'w' ∷ b'a' ∷ b'g' ∷ b'o' ∷ b'_' ∷ b'g' ∷ b'm' ∷ b't' ∷ b'i' ∷ b'm' ∷ b'e' ∷ b'_'
    ∷ b'j' ∷ b's' ∷ b'_' ∷ b'i' ∷ b'6' ∷ b'4' ∷ []

abbrev pub wago_tzset_js_4 : List ℕ
wago_tzset_js_4 =
    b'_' ∷ b'_' ∷ b'w' ∷ b'a' ∷ b'g' ∷ b'o' ∷ b'_' ∷ b't' ∷ b'z' ∷ b's' ∷ b'e' ∷ b't' ∷ b'_' ∷ b'j'
    ∷ b's' ∷ b'_' ∷ b'4' ∷ []

abbrev pub i64_suffix : List ℕ
i64_suffix = b'_' ∷ b'i' ∷ b'6' ∷ b'4' ∷ []

abbrev pub wago_prefix : List ℕ
wago_prefix = b'_' ∷ b'_' ∷ b'w' ∷ b'a' ∷ b'g' ∷ b'o' ∷ []

abbrev pub wasi_unstable : List ℕ
wasi_unstable =
    b'w' ∷ b'a' ∷ b's' ∷ b'i' ∷ b'_' ∷ b'u' ∷ b'n' ∷ b's' ∷ b't' ∷ b'a' ∷ b'b' ∷ b'l' ∷ b'e' ∷ []

abbrev pub wasi_preview1 : List ℕ
wasi_preview1 =
    b'w' ∷ b'a' ∷ b's' ∷ b'i' ∷ b'_' ∷ b's' ∷ b'n' ∷ b'a' ∷ b'p' ∷ b's' ∷ b'h' ∷ b'o' ∷ b't' ∷ b'_'
    ∷ b'p' ∷ b'r' ∷ b'e' ∷ b'v' ∷ b'i' ∷ b'e' ∷ b'w' ∷ b'1' ∷ []

abbrev pub wago_wasi_prefix : List ℕ
wago_wasi_prefix =
    b'_' ∷ b'_' ∷ b'w' ∷ b'a' ∷ b'g' ∷ b'o' ∷ b'_' ∷ b'w' ∷ b'a' ∷ b's' ∷ b'i' ∷ b'_' ∷ []

abbrev pub resize_heap_import : List ℕ
resize_heap_import =
    b'e' ∷ b'n' ∷ b'v' ∷ b'.' ∷ b'e' ∷ b'm' ∷ b's' ∷ b'c' ∷ b'r' ∷ b'i' ∷ b'p' ∷ b't' ∷ b'e' ∷ b'n'
    ∷ b'_' ∷ b'r' ∷ b'e' ∷ b's' ∷ b'i' ∷ b'z' ∷ b'e' ∷ b'_' ∷ b'h' ∷ b'e' ∷ b'a' ∷ b'p' ∷ []

abbrev pub wago_resize_heap : List ℕ
wago_resize_heap =
    b'_' ∷ b'_' ∷ b'w' ∷ b'a' ∷ b'g' ∷ b'o' ∷ b'_' ∷ b'r' ∷ b'e' ∷ b's' ∷ b'i' ∷ b'z' ∷ b'e' ∷ b'_'
    ∷ b'h' ∷ b'e' ∷ b'a' ∷ b'p' ∷ []

abbrev pub start_name : List ℕ
start_name = b'_' ∷ b's' ∷ b't' ∷ b'a' ∷ b'r' ∷ b't' ∷ []

abbrev pub call_ctors : List ℕ
call_ctors =
    b'_' ∷ b'_' ∷ b'w' ∷ b'a' ∷ b's' ∷ b'm' ∷ b'_' ∷ b'c' ∷ b'a' ∷ b'l' ∷ b'l' ∷ b'_' ∷ b'c' ∷ b't'
    ∷ b'o' ∷ b'r' ∷ b's' ∷ []

abbrev pub main_argc_argv : List ℕ
main_argc_argv =
    b'_' ∷ b'_' ∷ b'm' ∷ b'a' ∷ b'i' ∷ b'n' ∷ b'_' ∷ b'a' ∷ b'r' ∷ b'g' ∷ b'c' ∷ b'_' ∷ b'a' ∷ b'r'
    ∷ b'g' ∷ b'v' ∷ []

abbrev pub plain_main : List ℕ
plain_main = b'm' ∷ b'a' ∷ b'i' ∷ b'n' ∷ []

abbrev pub underscore_main : List ℕ
underscore_main = b'_' ∷ b'm' ∷ b'a' ∷ b'i' ∷ b'n' ∷ []

abbrev pub get_current_export : List ℕ
get_current_export =
    b'e' ∷ b'm' ∷ b's' ∷ b'c' ∷ b'r' ∷ b'i' ∷ b'p' ∷ b't' ∷ b'e' ∷ b'n' ∷ b'_' ∷ b's' ∷ b't' ∷ b'a'
    ∷ b'c' ∷ b'k' ∷ b'_' ∷ b'g' ∷ b'e' ∷ b't' ∷ b'_' ∷ b'c' ∷ b'u' ∷ b'r' ∷ b'r' ∷ b'e' ∷ b'n'
    ∷ b't' ∷ []

abbrev pub stack_alloc : List ℕ
stack_alloc =
    b'_' ∷ b'e' ∷ b'm' ∷ b's' ∷ b'c' ∷ b'r' ∷ b'i' ∷ b'p' ∷ b't' ∷ b'e' ∷ b'n' ∷ b'_' ∷ b's' ∷ b't'
    ∷ b'a' ∷ b'c' ∷ b'k' ∷ b'_' ∷ b'a' ∷ b'l' ∷ b'l' ∷ b'o' ∷ b'c' ∷ []

abbrev pub stack_restore_export : List ℕ
stack_restore_export =
    b'_' ∷ b'e' ∷ b'm' ∷ b's' ∷ b'c' ∷ b'r' ∷ b'i' ∷ b'p' ∷ b't' ∷ b'e' ∷ b'n' ∷ b'_' ∷ b's' ∷ b't'
    ∷ b'a' ∷ b'c' ∷ b'k' ∷ b'_' ∷ b'r' ∷ b'e' ∷ b's' ∷ b't' ∷ b'o' ∷ b'r' ∷ b'e' ∷ []

abbrev pub initialize : List ℕ
initialize = b'_' ∷ b'i' ∷ b'n' ∷ b'i' ∷ b't' ∷ b'i' ∷ b'a' ∷ b'l' ∷ b'i' ∷ b'z' ∷ b'e' ∷ []

abbrev pub ruby_show_version : List ℕ
ruby_show_version =
    b'r' ∷ b'u' ∷ b'b' ∷ b'y' ∷ b'-' ∷ b's' ∷ b'h' ∷ b'o' ∷ b'w' ∷ b'-' ∷ b'v' ∷ b'e' ∷ b'r' ∷ b's'
    ∷ b'i' ∷ b'o' ∷ b'n' ∷ b':' ∷ b' ' ∷ b'f' ∷ b'u' ∷ b'n' ∷ b'c' ∷ b'(' ∷ b')' ∷ b' ' ∷ b'-'
    ∷ b'>' ∷ b' ' ∷ b'(' ∷ b')' ∷ []

abbrev pub run_name : List ℕ
run_name = b'r' ∷ b'u' ∷ b'n' ∷ []

abbrev pub go_program : List ℕ
go_program = b'w' ∷ b'a' ∷ b's' ∷ b'm' ∷ []

abbrev pub ruby_host : List ℕ
ruby_host =
    b'r' ∷ b'b' ∷ b'-' ∷ b'j' ∷ b's' ∷ b'-' ∷ b'a' ∷ b'b' ∷ b'i' ∷ b'-' ∷ b'h' ∷ b'o' ∷ b's' ∷ b't'
    ∷ []

abbrev pub ruby_version_marker : List ℕ
ruby_version_marker =
    b'r' ∷ b'u' ∷ b'b' ∷ b'y' ∷ b'-' ∷ b's' ∷ b'h' ∷ b'o' ∷ b'w' ∷ b'-' ∷ b'v' ∷ b'e' ∷ b'r' ∷ b's'
    ∷ b'i' ∷ b'o' ∷ b'n' ∷ []

abbrev pub go_exit_marker : List ℕ
go_exit_marker =
    b'r' ∷ b'u' ∷ b'n' ∷ b't' ∷ b'i' ∷ b'm' ∷ b'e' ∷ b'.' ∷ b'w' ∷ b'a' ∷ b's' ∷ b'm' ∷ b'E' ∷ b'x'
    ∷ b'i' ∷ b't' ∷ []

abbrev pub value_get_marker : List ℕ
value_get_marker =
    b's' ∷ b'y' ∷ b's' ∷ b'c' ∷ b'a' ∷ b'l' ∷ b'l' ∷ b'/' ∷ b'j' ∷ b's' ∷ b'.' ∷ b'v' ∷ b'a' ∷ b'l'
    ∷ b'u' ∷ b'e' ∷ b'G' ∷ b'e' ∷ b't' ∷ []

abbrev pub sqlite_marker : List ℕ
sqlite_marker =
    b's' ∷ b'q' ∷ b'l' ∷ b'i' ∷ b't' ∷ b'e' ∷ b'3' ∷ b'_' ∷ b'i' ∷ b'n' ∷ b'i' ∷ b't' ∷ b'i' ∷ b'a'
    ∷ b'l' ∷ b'i' ∷ b'z' ∷ b'e' ∷ []

abbrev pub resize_heap_marker : List ℕ
resize_heap_marker =
    b'e' ∷ b'm' ∷ b's' ∷ b'c' ∷ b'r' ∷ b'i' ∷ b'p' ∷ b't' ∷ b'e' ∷ b'n' ∷ b'_' ∷ b'r' ∷ b'e' ∷ b's'
    ∷ b'i' ∷ b'z' ∷ b'e' ∷ b'_' ∷ b'h' ∷ b'e' ∷ b'a' ∷ b'p' ∷ []

abbrev pub lua_marker : List ℕ
lua_marker =
    b'l' ∷ b'u' ∷ b'a' ∷ b'L' ∷ b'_' ∷ b'n' ∷ b'e' ∷ b'w' ∷ b's' ∷ b't' ∷ b'a' ∷ b't' ∷ b'e' ∷ []

abbrev pub invoke_vii_marker : List ℕ
invoke_vii_marker = b'i' ∷ b'n' ∷ b'v' ∷ b'o' ∷ b'k' ∷ b'e' ∷ b'_' ∷ b'v' ∷ b'i' ∷ b'i' ∷ []

-- The calls of `wasi_snapshot_preview1` that the plugin serves itself.
abbrev pub wasi_names : List (List ℕ)
wasi_names =
    (b'f' ∷ b'd' ∷ b'_' ∷ b'r' ∷ b'e' ∷ b'a' ∷ b'd' ∷ [])
    ∷ (b'f' ∷ b'd' ∷ b'_' ∷ b'w' ∷ b'r' ∷ b'i' ∷ b't' ∷ b'e' ∷ [])
    ∷ (b'f' ∷ b'd' ∷ b'_' ∷ b'c' ∷ b'l' ∷ b'o' ∷ b's' ∷ b'e' ∷ [])
    ∷ (b'f' ∷ b'd' ∷ b'_' ∷ b's' ∷ b'e' ∷ b'e' ∷ b'k' ∷ [])
    ∷ (b'f' ∷ b'd' ∷ b'_' ∷ b'f' ∷ b'd' ∷ b's' ∷ b't' ∷ b'a' ∷ b't' ∷ b'_' ∷ b'g' ∷ b'e' ∷ b't'
        ∷ [])
    ∷ (b'f' ∷ b'd' ∷ b'_' ∷ b'f' ∷ b'i' ∷ b'l' ∷ b'e' ∷ b's' ∷ b't' ∷ b'a' ∷ b't' ∷ b'_' ∷ b'g'
        ∷ b'e' ∷ b't' ∷ [])
    ∷ (b'f' ∷ b'd' ∷ b'_' ∷ b's' ∷ b'y' ∷ b'n' ∷ b'c' ∷ [])
    ∷ (b'f' ∷ b'd' ∷ b'_' ∷ b'd' ∷ b'a' ∷ b't' ∷ b'a' ∷ b's' ∷ b'y' ∷ b'n' ∷ b'c' ∷ [])
    ∷ (b'f' ∷ b'd' ∷ b'_' ∷ b'f' ∷ b'd' ∷ b's' ∷ b't' ∷ b'a' ∷ b't' ∷ b'_' ∷ b's' ∷ b'e' ∷ b't'
        ∷ b'_' ∷ b'f' ∷ b'l' ∷ b'a' ∷ b'g' ∷ b's' ∷ [])
    ∷ (b'f' ∷ b'd' ∷ b'_' ∷ b'f' ∷ b'i' ∷ b'l' ∷ b'e' ∷ b's' ∷ b't' ∷ b'a' ∷ b't' ∷ b'_' ∷ b's'
        ∷ b'e' ∷ b't' ∷ b'_' ∷ b's' ∷ b'i' ∷ b'z' ∷ b'e' ∷ [])
    ∷ (b'f' ∷ b'd' ∷ b'_' ∷ b'p' ∷ b'r' ∷ b'e' ∷ b'a' ∷ b'd' ∷ [])
    ∷ (b'f' ∷ b'd' ∷ b'_' ∷ b'p' ∷ b'w' ∷ b'r' ∷ b'i' ∷ b't' ∷ b'e' ∷ [])
    ∷ (b'f' ∷ b'd' ∷ b'_' ∷ b'a' ∷ b'd' ∷ b'v' ∷ b'i' ∷ b's' ∷ b'e' ∷ [])
    ∷ (b'f' ∷ b'd' ∷ b'_' ∷ b'a' ∷ b'l' ∷ b'l' ∷ b'o' ∷ b'c' ∷ b'a' ∷ b't' ∷ b'e' ∷ [])
    ∷ (b'e' ∷ b'n' ∷ b'v' ∷ b'i' ∷ b'r' ∷ b'o' ∷ b'n' ∷ b'_' ∷ b's' ∷ b'i' ∷ b'z' ∷ b'e' ∷ b's'
        ∷ b'_' ∷ b'g' ∷ b'e' ∷ b't' ∷ [])
    ∷ (b'e' ∷ b'n' ∷ b'v' ∷ b'i' ∷ b'r' ∷ b'o' ∷ b'n' ∷ b'_' ∷ b'g' ∷ b'e' ∷ b't' ∷ [])
    ∷ []

-- Names of glue that the plugin does not have.
abbrev pub glue_markers : List (List ℕ)
glue_markers =
    (b'_' ∷ b'e' ∷ b'm' ∷ b'b' ∷ b'i' ∷ b'n' ∷ b'd' ∷ b'_' ∷ [])
    ∷ (b'_' ∷ b'e' ∷ b'm' ∷ b'v' ∷ b'a' ∷ b'l' ∷ b'_' ∷ [])
    ∷ (b'd' ∷ b'u' ∷ b'c' ∷ b'k' ∷ b'd' ∷ b'b' ∷ b'_' ∷ b'w' ∷ b'e' ∷ b'b' ∷ b'_' ∷ [])
    ∷ []

-- Names that only Emscripten writes.
abbrev pub emscripten_markers : List (List ℕ)
emscripten_markers =
    (b'e' ∷ b'm' ∷ b's' ∷ b'c' ∷ b'r' ∷ b'i' ∷ b'p' ∷ b't' ∷ b'e' ∷ b'n' ∷ b'_' ∷ b'r' ∷ b'e' ∷ b's'
      ∷ b'i' ∷ b'z' ∷ b'e' ∷ b'_' ∷ b'h' ∷ b'e' ∷ b'a' ∷ b'p' ∷ [])
    ∷ (b'_' ∷ b'_' ∷ b'w' ∷ b'a' ∷ b's' ∷ b'm' ∷ b'_' ∷ b'c' ∷ b'a' ∷ b'l' ∷ b'l' ∷ b'_' ∷ b'c'
        ∷ b't' ∷ b'o' ∷ b'r' ∷ b's' ∷ [])
    ∷ (b'_' ∷ b'e' ∷ b'm' ∷ b's' ∷ b'c' ∷ b'r' ∷ b'i' ∷ b'p' ∷ b't' ∷ b'e' ∷ b'n' ∷ b'_' ∷ b's'
        ∷ b't' ∷ b'a' ∷ b'c' ∷ b'k' ∷ b'_' ∷ b'a' ∷ b'l' ∷ b'l' ∷ b'o' ∷ b'c' ∷ [])
    ∷ (b'_' ∷ b't' ∷ b'z' ∷ b's' ∷ b'e' ∷ b't' ∷ b'_' ∷ b'j' ∷ b's' ∷ [])
    ∷ (b'_' ∷ b'_' ∷ b's' ∷ b'y' ∷ b's' ∷ b'c' ∷ b'a' ∷ b'l' ∷ b'l' ∷ b'_' ∷ [])
    ∷ (b'i' ∷ b'n' ∷ b'v' ∷ b'o' ∷ b'k' ∷ b'e' ∷ b'_' ∷ [])
    ∷ []
