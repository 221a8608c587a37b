-- ===== src/FileSystem/Behaviour/Renaming.antt =====
-- Renaming: what the new name holds, and renaming something onto itself.
use wago_emscripten.Common.{
  ℕ, true, ◌≡◌, refl, ◌∙◌, inl, inr, none, some, List, Bool-cases, lookup, insert, erase,
  lookup-insert, lookup-erase_ne, lookup-erase_self, insert-UniqueKeys, if◌then◌else◌, bytes_eq,
  bytes_eq→eq, bytes_key, UniqueKeys, Map, subst,
}
use wago_emscripten.Paths.{dir}
use wago_emscripten.FileSystem.{FileSystem, is_dir}
use wago_emscripten.FileSystem.Reply.{Limits, answer, value}
use wago_emscripten.FileSystem.Names.{rename_on, rename_file}
use wago_emscripten.FileSystem.Invariant.{IsValid}

rename_file-files :
    (old_name new_name : List ℕ) (p : ℕ) (fs : FileSystem)
    → (rename_file old_name new_name p fs).files ≡ erase old_name (insert new_name p fs.files)
unfolding rename_file
rename_file-files old_name new_name p fs = refl

renamed_lem :
    (old_name new_name name : List ℕ) (p : ℕ) (files : Map (List ℕ) ℕ)
    → UniqueKeys files
    → lookup name (erase old_name (insert new_name p files)) ≡ (
        if bytes_eq old_name name
        then none
        else if bytes_eq new_name name
        then some p
        else lookup name files)
renamed_lem old_name new_name name p files u = elim (Bool-cases (bytes_eq old_name name)) [
  | inl e ↦
      let same : old_name ≡ name = bytes_eq→eq old_name name e in
      rw e (
        subst (λ t. lookup t (erase old_name (insert new_name p files)) ≡ none) same
          (lookup-erase_self old_name (insert new_name p files)
            (insert-UniqueKeys new_name p files u)))
  | inr e ↦ rw e (
      lookup-erase_ne old_name name (insert new_name p files) e
      ∙ lookup-insert new_name name p files)
]

rename_on-file :
    (old_name new_name : List ℕ) (p : ℕ) (mem : List ℕ) (fs : FileSystem)
    → is_dir fs (dir new_name) ≡ true
    → lookup old_name fs.files ≡ some p
    → rename_on old_name new_name mem fs ≡ answer mem (rename_file old_name new_name p fs) (value 0)
unfolding rename_on
rename_on-file old_name new_name p mem fs d e = rw d (rw (e, rename_on))

-- Renaming a file of a valid filesystem to a name whose directory exists answers 0; the old name is
-- gone, any other new name holds the file, and each further name holds what it held.
pub rename_on-files :
    (l : Limits) (old_name new_name : List ℕ) (p : ℕ) (mem : List ℕ) (fs : FileSystem)
    → IsValid l fs
    → is_dir fs (dir new_name) ≡ true
    → lookup old_name fs.files ≡ some p
    → ((rename_on old_name new_name mem fs).result ≡ value 0)
      × ((name : List ℕ)
          → lookup name (rename_on old_name new_name mem fs).fs.files ≡ (
              if bytes_eq old_name name
              then none
              else if bytes_eq new_name name
              then some p
              else lookup name fs.files))
unfolding rename_file
rename_on-files l old_name new_name p mem fs v d e =
    rw (rename_on-file old_name new_name p mem fs d e)
      (refl, λ name. renamed_lem old_name new_name name p fs.files v.unique_files)
