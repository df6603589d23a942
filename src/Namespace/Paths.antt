-- ===== src/Namespace/Paths.antt =====
-- The mount-relative paths that CreateFile and Delete carry
-- (beryl-metadata/src/raft/state_machine/namespace.rs, with the limits of path_resolver.rs and
-- mount_prefix_matches_path of mount/mod.rs).
use vecton.Prelude.{
  ℕ, Bool, true, false, ◌||◌, Option, none, some, String, List, [], ◌∷◌, ◌++◌, ◌==◌, string_eq, eqb,
  ltb, if◌then◌else◌, checked_add, length,
}
use vecton.Prelude.Result.{Result, ok, ◌>>◌, reject_if}
use vecton.Prelude.Text.{codes, text_len, text_contains, join, strip_prefix}
use vecton.MetadataError.{MetadataError, invalid_argument}
use vecton.Storage.{MountEntry, root_mount_prefix}

abbrev pub max_path_bytes : ℕ
max_path_bytes = 4096

abbrev pub max_path_component_bytes : ℕ
max_path_component_bytes = 255

abbrev pub max_path_components : ℕ
max_path_components = 256

abbrev pub slash : ℕ
slash = 47

unfoldable pub validate_components : List String → Result MetadataError Unit
validate_components [] = ok tt
validate_components (c ∷ cs) = do
  reject_if ((c == "") || text_contains slash c || text_contains 0 c)
      (invalid_argument "path contains an invalid component")
  reject_if (ltb max_path_component_bytes (text_len c))
      (invalid_argument "path component exceeds the limit of bytes")
  validate_components cs

unfoldable pub validate_relative_components : List String → Result MetadataError Unit
unfolding validate_components
validate_relative_components components = do
  reject_if (eqb (length components) 0) (invalid_argument "cannot target a mount root")
  reject_if (ltb max_path_components (length components))
      (invalid_argument "path exceeds the limit of components")
  validate_components components

-- The rest of a path below a mount starts with a slash, or there is none.
abbrev below_prefix : Option (List ℕ) → Bool
below_prefix none = false
below_prefix (some []) = true
below_prefix (some (c ∷ cs)) = eqb c slash

abbrev starts_with_slash : List ℕ → Bool
starts_with_slash [] = false
starts_with_slash (c ∷ cs) = eqb c slash

-- prefix == ROOT_MOUNT_PREFIX
abbrev is_root_prefix : List ℕ → Bool
is_root_prefix (c ∷ []) = eqb c slash
is_root_prefix _ = false

unfoldable pub mount_prefix_matches_path : List ℕ → List ℕ → Bool
mount_prefix_matches_path prefix path =
    if is_root_prefix prefix
    then starts_with_slash path
    else below_prefix (strip_prefix prefix path)

-- try_fold over the lengths of the components
unfoldable pub add_lengths : ℕ → List String → Option ℕ
add_lengths bytes [] = some bytes
add_lengths bytes (c ∷ cs) = elim (checked_add bytes (text_len c)) [
  | none ↦ none
  | some more ↦ add_lengths more cs
]

unfoldable pub target_path_bytes : MountEntry → ℕ → Option ℕ
target_path_bytes mount relative_path_bytes =
    if mount.mount_prefix == root_mount_prefix
    then checked_add 1 relative_path_bytes
    else elim (checked_add (text_len mount.mount_prefix) 1) [
      | none ↦ none
      | some bytes ↦ checked_add bytes relative_path_bytes
    ]

-- The path of a target as the prefix of its mount and its components.
unfoldable pub target_path : MountEntry → List String → List ℕ
target_path mount components =
    if mount.mount_prefix == root_mount_prefix
    then slash ∷ join slash components
    else codes mount.mount_prefix ++ (slash ∷ join slash components)
