-- ===== src/FileSystem/Names.antt =====
-- filesystem.go: the calls that work on names: access checks, directories, unlink and rename.
use wago_emscripten.Common.{
  ℕ, Bool, true, false, not, ◌&&◌, ◌||◌, none, some, List, [], ◌∷◌, ◌++◌, Map, lookup, insert,
  erase, ◌==◌, if◌then◌else◌, bytes_eq, has_prefix, bytes_key, bit_and, u32,
}
use wago_emscripten.Memory.{c_string}
use wago_emscripten.Paths.{root, dir, clean_guest_path}
use wago_emscripten.FileSystem.{
  FileSystem, is_dir, unlink, err_exist, err_fault, err_inval, err_no_ent, err_not_empty,
  err_no_tty,
}
use wago_emscripten.FileSystem.Reply.{
  value, neg_errno, Reply, answer, Plugin, Module, Outcome, refuse, with_file_system,
}

-- `fs.files[name] != nil`
abbrev pub has_file : FileSystem → List ℕ → Bool
has_file fs name = elim (lookup name fs.files) [ none ↦ false | some p ↦ true ]

unfoldable pub access_on : List ℕ → List ℕ → FileSystem → Reply
unfolding is_dir
access_on name mem fs =
    if not (has_file fs name) && not (is_dir fs name)
    then answer mem fs (neg_errno err_no_ent)
    else answer mem fs (value 0)

unfoldable pub syscall_faccessat : Plugin → Module → ℕ → Outcome
unfolding c_string clean_guest_path access_on with_file_system
syscall_faccessat p m p1 = elim (c_string m.memory (u32 p1)) [
  | none ↦ refuse p m (neg_errno err_fault)
  | some text ↦ elim (clean_guest_path text) [
    | none ↦ refuse p m (value 0)
    | some name ↦ with_file_system p m (neg_errno err_no_ent) (access_on name)
  ]
]

-- Mode and time changes are access checks on the same path.
unfoldable pub syscall_chmod : Plugin → Module → ℕ → Outcome
unfolding syscall_faccessat
syscall_chmod p m p0 = syscall_faccessat p m p0

unfoldable pub syscall_utimensat : Plugin → Module → ℕ → Outcome
unfolding syscall_faccessat
syscall_utimensat p m p1 = syscall_faccessat p m p1

unfoldable pub mkdir_on : List ℕ → List ℕ → FileSystem → Reply
unfolding is_dir
mkdir_on name mem fs =
    if has_file fs name || is_dir fs name
    then answer mem fs (neg_errno err_exist)
    else if is_dir fs (dir name)
    then answer mem (record fs { dirs = insert name true fs.dirs }) (value 0)
    else answer mem fs (neg_errno err_no_ent)

unfoldable pub syscall_mkdirat : Plugin → Module → ℕ → Outcome
unfolding c_string clean_guest_path mkdir_on with_file_system
syscall_mkdirat p m p1 = elim (c_string m.memory (u32 p1)) [
  | none ↦ refuse p m (neg_errno err_fault)
  | some text ↦ elim (clean_guest_path text) [
    | none ↦ refuse p m (neg_errno err_exist)
    | some name ↦ with_file_system p m (neg_errno err_inval) (mkdir_on name)
  ]
]

-- Whether a file stands below the directory `name`.
unfoldable pub file_below : List ℕ → Map (List ℕ) ℕ → Bool
file_below name [] = false
file_below name ((child, p) ∷ m) = has_prefix child (name ++ root) || file_below name m

-- Whether another directory stands below the directory `name`.
unfoldable pub dir_below : List ℕ → Map (List ℕ) Bool → Bool
dir_below name [] = false
dir_below name ((child, b) ∷ m) =
    not (bytes_eq child name) && has_prefix child (name ++ root) || dir_below name m

unfoldable pub is_occupied : FileSystem → List ℕ → Bool
unfolding file_below dir_below
is_occupied fs name = file_below name fs.files || dir_below name fs.dirs

unfoldable pub rmdir_on : List ℕ → List ℕ → FileSystem → Reply
unfolding is_dir is_occupied
rmdir_on name mem fs =
    if not (is_dir fs name)
    then answer mem fs (neg_errno err_no_ent)
    else if is_occupied fs name
    then answer mem fs (neg_errno err_not_empty)
    else answer mem (record fs { dirs = erase name fs.dirs }) (value 0)

-- `delete(fs.files, name)`, and the file loses its name.
unfoldable pub unlink_on : List ℕ → List ℕ → FileSystem → Reply
unfolding unlink
unlink_on name mem fs = elim (lookup name fs.files) [
  | none ↦ answer mem fs (neg_errno err_no_ent)
  | some p ↦
      let fs' = unlink p fs in answer mem (record fs' { files = erase name fs.files }) (value 0)
]

unfoldable pub syscall_unlinkat : Plugin → Module → ℕ → ℕ → Outcome
unfolding c_string clean_guest_path rmdir_on unlink_on with_file_system
syscall_unlinkat p m p1 p2 = elim (c_string m.memory (u32 p1)) [
  | none ↦ refuse p m (neg_errno err_fault)
  | some text ↦ elim (clean_guest_path text) [
    | none ↦ refuse p m (neg_errno err_inval)
    | some name ↦
        with_file_system p m (neg_errno err_no_ent)
          (if bit_and (u32 p2) 0x200 == 0 then unlink_on name else rmdir_on name)
  ]
]

-- The file takes the new name, and whatever had that name loses it. The old name goes last.
unfoldable pub rename_file : List ℕ → List ℕ → ℕ → FileSystem → FileSystem
unfolding unlink
rename_file old_name new_name p fs =
    let fs' : FileSystem = elim (lookup new_name fs.files) [
      | none ↦ fs
      | some replaced ↦ unlink replaced fs
    ] in
    record fs' { files = erase old_name (insert new_name p fs.files) }

unfoldable pub rename_on : List ℕ → List ℕ → List ℕ → FileSystem → Reply
unfolding is_dir rename_file is_occupied
rename_on old_name new_name mem fs =
    if not (is_dir fs (dir new_name))
    then answer mem fs (neg_errno err_no_ent)
    else elim (lookup old_name fs.files) [
      | some p ↦ answer mem (rename_file old_name new_name p fs) (value 0)
      | none ↦
          if not (is_dir fs old_name)
          then answer mem fs (neg_errno err_no_ent)
          else if is_occupied fs old_name
          then answer mem fs (neg_errno err_not_empty)
          else answer mem (record fs { dirs = erase old_name (insert new_name true fs.dirs) })
              (value 0)
    ]

unfoldable pub syscall_renameat : Plugin → Module → ℕ → ℕ → Outcome
unfolding c_string clean_guest_path rename_on with_file_system
syscall_renameat p m p1 p3 = elim (c_string m.memory (u32 p1)) [
  | none ↦ refuse p m (neg_errno err_fault)
  | some old_text ↦ elim (c_string m.memory (u32 p3)) [
    | none ↦ refuse p m (neg_errno err_fault)
    | some new_text ↦ elim (clean_guest_path old_text) [
      | none ↦ refuse p m (neg_errno err_inval)
      | some old_name ↦ elim (clean_guest_path new_text) [
        | none ↦ refuse p m (neg_errno err_inval)
        | some new_name ↦ with_file_system p m (neg_errno err_no_ent) (rename_on old_name new_name)
      ]
    ]
  ]
]

unfoldable pub syscall_readlinkat : Plugin → Module → Outcome
syscall_readlinkat p m = refuse p m (neg_errno err_inval)

unfoldable pub syscall_ioctl : Plugin → Module → Outcome
syscall_ioctl p m = refuse p m (neg_errno err_no_tty)
