-- ===== src/Prelude/Text.antt =====
-- The methods of `str` that the program calls.
use Prim.Native.Char.{Char, code}
use Prim.Native.Nat.{ℕ}
use Prim.Native.String.{String}
use mathlib.Core.Bool.{Bool, true, false, ◌||◌}
use mathlib.Core.Option.{Option, none, some}
use mathlib.Core.List.{List, [], ◌∷◌}
use wire_assume.Prelude.Tests.{◌==◌, str_eq, if◌then◌else◌}

infixr 65 ◌++ₛ◌
abbrev pub ◌++ₛ◌ : String → String → String
a ++ₛ b = Prim.Native.String.◌++◌ a b

-- `str::strip_prefix`, the text first.
unfoldable pub strip_prefix : String → String → Option String
strip_prefix s String.[] = some s
strip_prefix String.[] (String.◌∷◌ c p) = none
strip_prefix (String.◌∷◌ d s) (String.◌∷◌ c p) = if code d == code c then strip_prefix s p else none

abbrev pub is_some {ℓ} : {A : Type ℓ} → Option A → Bool
is_some none = false
is_some (some _) = true

-- `str::starts_with`.
unfoldable pub starts_with : String → String → Bool
unfolding strip_prefix
starts_with s p = is_some (strip_prefix s p)

-- `str::contains`, for a text.
unfoldable pub contains_str : String → String → Bool
unfolding starts_with
contains_str String.[] p = starts_with String.[] p
contains_str (String.◌∷◌ c s) p = starts_with (String.◌∷◌ c s) p || contains_str s p

-- `str::is_empty`.
abbrev pub is_empty : String → Bool
is_empty String.[] = true
is_empty (String.◌∷◌ c s) = false

-- `concat` of the texts with a separator, `[…].join(sep)`.
unfoldable pub join : String → List String → String
join sep [] = ""
join sep (x ∷ []) = x
join sep (x ∷ y ∷ xs) = x ++ₛ sep ++ₛ join sep (y ∷ xs)

-- The character of `to` at the place where `from` has the given one.
translate : String → String → Char → Char
translate (String.◌∷◌ c from) (String.◌∷◌ d to) x =
    if code c == code x then d else translate from to x
translate _ _ x = x

map_str : (Char → Char) → String → String
map_str f String.[] = String.[]
map_str f (String.◌∷◌ c s) = String.◌∷◌ (f c) (map_str f s)

-- `str::to_ascii_uppercase` and `str::to_ascii_lowercase`.
unfoldable pub to_ascii_uppercase : String → String
unfolding translate map_str
to_ascii_uppercase = map_str (translate "abcdefghijklmnopqrstuvwxyz" "ABCDEFGHIJKLMNOPQRSTUVWXYZ")

unfoldable pub to_ascii_lowercase : String → String
unfolding translate map_str
to_ascii_lowercase = map_str (translate "ABCDEFGHIJKLMNOPQRSTUVWXYZ" "abcdefghijklmnopqrstuvwxyz")

-- `str::eq_ignore_ascii_case`.
unfoldable pub eq_ignore_ascii_case : String → String → Bool
unfolding to_ascii_lowercase
eq_ignore_ascii_case a b = str_eq (to_ascii_lowercase a) (to_ascii_lowercase b)

put_first : Char → List String → List String
put_first c [] = String.◌∷◌ c String.[] ∷ []
put_first c (x ∷ xs) = String.◌∷◌ c x ∷ xs

-- `str::split`, at the character with the given code.
unfoldable pub split_on : ℕ → String → List String
unfolding put_first
split_on at String.[] = String.[] ∷ []
split_on at (String.◌∷◌ c s) =
    let rest = split_on at s in if code c == at then String.[] ∷ rest else put_first c rest
