-- ===== src/Domain/Paths.antt =====
-- `std::path`: components, prefixes and their order.
use omni_sem.Base.{
  ℕ, ◌≡◌, refl, Bool, true, false, ◌&&◌, Option, none, some, [], ◌∷◌, ◌++◌, Text, codes, text_eq,
  text_eq_iff, compare_text, compare, then_with, Ordering,
}
use omni_sem.Domain.{FilePath, Component, prefix, root_dir, cur_dir, parent_dir, normal}

unfoldable pub same_component : Component → Component → Bool
same_component (prefix s) (prefix t) = text_eq s t
same_component root_dir root_dir = true
same_component cur_dir cur_dir = true
same_component parent_dir parent_dir = true
same_component (normal s) (normal t) = text_eq s t
same_component _ _ = false

-- `Path::starts_with`.
unfoldable pub starts_with : FilePath → FilePath → Bool
unfolding same_component
starts_with path [] = true
starts_with [] (c ∷ base) = false
starts_with (d ∷ path) (c ∷ base) = same_component d c && starts_with path base

-- A component that leads out of a directory.
unfoldable pub is_escape : Component → Bool
is_escape parent_dir = true
is_escape root_dir = true
is_escape cur_dir = false
is_escape (prefix s) = false
is_escape (normal s) = false

-- `Path::strip_prefix`: what is left of the path behind the base.
unfoldable pub strip_base : FilePath → FilePath → Option FilePath
unfolding same_component
strip_base path [] = some path
strip_base [] (c ∷ base) = none
strip_base (d ∷ path) (c ∷ base) = elim (same_component d c) [
  | true ↦ strip_base path base
  | false ↦ none
]

-- `Path`'s `==`.
unfoldable pub path_eq : FilePath → FilePath → Bool
unfolding same_component
path_eq [] [] = true
path_eq (c ∷ s) (d ∷ t) = same_component c d && path_eq s t
path_eq _ _ = false

-- `Component::as_os_str`
abbrev pub component_str : Component → Text
component_str (prefix s) = s
component_str root_dir = codes "/"
component_str cur_dir = codes "."
component_str parent_dir = codes ".."
component_str (normal s) = s

-- The order of the enum's variants.
abbrev pub component_rank : Component → ℕ
component_rank (prefix s) = 0
component_rank root_dir = 1
component_rank cur_dir = 2
component_rank parent_dir = 3
component_rank (normal s) = 4

-- `Path`'s `cmp`.
unfoldable pub compare_path : FilePath → FilePath → Ordering
unfolding compare_text
compare_path [] [] = Ordering.eq
compare_path [] (d ∷ t) = Ordering.lt
compare_path (c ∷ s) [] = Ordering.gt
compare_path (c ∷ s) (d ∷ t) =
    then_with (compare (component_rank c) (component_rank d))
      (then_with (compare_text (component_str c) (component_str d)) (compare_path s t))

pub same_component_refl : (c : Component) → same_component c c ≡ true
unfolding same_component
same_component_refl (prefix s) = (text_eq_iff s s).1 refl
same_component_refl root_dir = refl
same_component_refl cur_dir = refl
same_component_refl parent_dir = refl
same_component_refl (normal s) = (text_eq_iff s s).1 refl

pub starts_with-append : (root path : FilePath) → starts_with (root ++ path) root ≡ true
unfolding starts_with
starts_with-append [] [] = refl
starts_with-append [] (c ∷ path) = refl
starts_with-append (c ∷ root) path = rw (same_component_refl c, starts_with-append root path) refl

pub strip_base-append : (root path : FilePath) → strip_base (root ++ path) root ≡ some path
unfolding strip_base
strip_base-append [] [] = refl
strip_base-append [] (c ∷ path) = refl
strip_base-append (c ∷ root) path =
    rw (same_component_refl c, strip_base) (strip_base-append root path)

-- A path is not equal to a longer one.
pub path_eq-append_false :
    (root : FilePath) (c : Component) (path : FilePath) → path_eq (root ++ c ∷ path) root ≡ false
unfolding path_eq
path_eq-append_false [] c path = refl
path_eq-append_false (d ∷ root) c path =
    rw (same_component_refl d, path_eq-append_false root c path) refl
