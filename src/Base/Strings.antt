-- ===== src/Base/Strings.antt =====
-- A `String` of the source is the list of its code points.
use Prim.Native.Nat.{ℕ, ◌+◌}
use Prim.Native.Char.{code}
use Prim.Native.String.{String}
use mathlib.Core.Path.{◌≡◌}
use mathlib.Core.Logic.{◌↔◌, inl, inr}
use mathlib.Core.Bool.{Bool, true, false, ◌&&◌, ◌||◌}
use mathlib.Core.List.{List, [], ◌∷◌, ◌++◌}
use mathlib.Core.Option.{Option, none, some}
use native.Mathlib.Omega.{arith}
use omni_sem.Base.Tests.{leb, ◌==◌, if◌then◌else◌, is_some, Bool-cases}
use omni_sem.Base.Lists.{is_empty}

abbrev pub Text : Type 0
Text = List ℕ

abbrev pub codes : String → Text
codes String.[] = []
codes (String.◌∷◌ c s) = code c ∷ codes s

unfoldable pub text_eq : Text → Text → Bool
text_eq [] [] = true
text_eq (x ∷ xs) (y ∷ ys) = (x == y) && text_eq xs ys
text_eq _ _ = false

pub text_eq_iff : (s t : Text) → (text_eq s t ≡ true) ↔ (s ≡ t)
unfolding text_eq
text_eq_iff [] [] = ground arith
text_eq_iff [] (y ∷ ys) = ground arith
text_eq_iff (x ∷ xs) [] = ground arith
text_eq_iff (x ∷ xs) (y ∷ ys) = ground (arith, text_eq_iff xs ys)

-- `str::trim_start_matches`, `trim_end_matches` and `trim_matches`.
unfoldable pub trim_start : (ℕ → Bool) → Text → Text
trim_start p [] = []
trim_start p (c ∷ t) = let rest = trim_start p t in if p c then rest else c ∷ t

unfoldable pub trim_end : (ℕ → Bool) → Text → Text
trim_end p [] = []
trim_end p (c ∷ t) = let rest = trim_end p t in if p c && is_empty rest then [] else c ∷ rest

unfoldable pub trim_matches : (ℕ → Bool) → Text → Text
unfolding trim_start trim_end
trim_matches p t = trim_end p (trim_start p t)

unfoldable pub join : Text → List Text → Text
join between [] = []
join between (t ∷ []) = t
join between (t ∷ u ∷ ts) = t ++ between ++ join between (u ∷ ts)

-- `str::strip_prefix` and `str::starts_with`.
unfoldable pub strip_prefix : Text → Text → Option Text
strip_prefix [] t = some t
strip_prefix (c ∷ p) [] = none
strip_prefix (c ∷ p) (d ∷ t) = elim (c == d) [ true ↦ strip_prefix p t | false ↦ none ]

unfoldable pub str_starts_with : Text → Text → Bool
unfolding strip_prefix
str_starts_with prefix t = is_some (strip_prefix prefix t)

-- `str::ends_with` for a character.
unfoldable pub ends_with_char : ℕ → Text → Bool
ends_with_char c [] = false
ends_with_char c (d ∷ t) = if is_empty t then c == d else ends_with_char c t

-- What is left where a prefix is stripped.
pub strip_prefix-append : (p t rest : Text) → strip_prefix p t ≡ some rest → t ≡ p ++ rest
unfolding strip_prefix
strip_prefix-append [] t rest h = cc
strip_prefix-append (c ∷ p) [] rest h = cc
strip_prefix-append (c ∷ p) (d ∷ t) rest h = elim (Bool-cases (c == d)) [
  | inl same ↦
      let ih = strip_prefix-append p t rest (rw (same, strip_prefix) at h) in ground (arith, ih)
  | inr other ↦ let e : none ≡ some rest = rw (other, strip_prefix) at h in cc
]

-- The ASCII tests and `char::to_ascii_lowercase`.
abbrev pub is_between : ℕ → ℕ → ℕ → Bool
is_between low high c = leb low c && leb c high

abbrev pub is_ascii_uppercase : ℕ → Bool
is_ascii_uppercase c = is_between 65 90 c

abbrev pub is_ascii_alphanumeric : ℕ → Bool
is_ascii_alphanumeric c = is_between 48 57 c || is_ascii_uppercase c || is_between 97 122 c

abbrev pub to_ascii_lowercase : ℕ → ℕ
to_ascii_lowercase c = if is_ascii_uppercase c then c + 32 else c

-- `str::contains` for a text.
unfoldable pub str_contains : Text → Text → Bool
unfolding str_starts_with
str_contains [] needle = str_starts_with needle []
str_contains (c ∷ t) needle = str_starts_with needle (c ∷ t) || str_contains t needle
