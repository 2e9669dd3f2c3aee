-- ===== src/Experiment/Paths.antt =====
-- Which recorded requests an experiment takes, crates/experiment/src/lib.rs.
pub mod Laws
use Prim.Native.Char.{code}
use wire_assume.Prelude.{
  ◌==◌, str_eq, if◌then◌else◌, strip_prefix, starts_with, contains_str, is_empty, split_on, String,
  Bool, true, false, not, ◌&&◌, ◌||◌, Option, none, some, List, [], ◌∷◌,
}

-- `str::find` and the text after the find: what follows the first place at which `part` stands.
unfoldable pub after_first : String → String → Option String
after_first String.[] part = strip_prefix String.[] part
after_first (String.◌∷◌ c s) part =
    let later = after_first s part in
    elim (strip_prefix (String.◌∷◌ c s) part) [ some rest ↦ some rest | none ↦ later ]

-- The text from the first `/` on.
unfoldable pub from_slash : String → String
from_slash String.[] = "/"
from_slash (String.◌∷◌ c s) =
    let rest = from_slash s in if code c == 47 then String.◌∷◌ c s else rest

unfoldable pub first_of : List String → String → String
first_of [] other = other
first_of (x ∷ xs) other = x

unfoldable pub request_path : String → String
unfolding after_first from_slash first_of
request_path uri =
    let path_and_query : String = elim (after_first uri "://") [
      | some authority_and_path ↦ from_slash authority_and_path
      | none ↦ uri
    ] in
    first_of (split_on 63 path_and_query) path_and_query

-- `str::ends_with`, for one character.
unfoldable pub ends_with_star : String → Bool
ends_with_star String.[] = false
ends_with_star (String.◌∷◌ c s) =
    let rest = ends_with_star s in if is_empty s then code c == 42 else rest

-- The `for` loop over the parts; `none` is `return false`.
unfoldable pub match_parts : (anchored : Bool) → List String → Bool → String → Option String
unfolding after_first
match_parts anchored [] first rest = some rest
match_parts anchored (part ∷ parts) first rest =
    let skipped = match_parts anchored parts first rest in
    if is_empty part
    then skipped
    else elim (if first && anchored then strip_prefix rest part else after_first rest part) [
      | none ↦ none
      | some after ↦ match_parts anchored parts false after
    ]

unfoldable pub path_matches : String → String → Bool
unfolding match_parts ends_with_star
path_matches pattern path =
    if not (contains_str pattern "*")
    then str_eq pattern path
    else elim (match_parts (not (starts_with pattern "*")) (split_on 42 pattern) true path) [
      | none ↦ false
      | some rest ↦ ends_with_star pattern || is_empty rest
    ]
