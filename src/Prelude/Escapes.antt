-- ===== src/Prelude/Escapes.antt =====
-- `str::replace` and `str::rsplit_once`, and what one replacement makes another undoes.
use Prim.Native.Char.{Char, code}
use Prim.Native.Nat.{ℕ}
use Prim.Native.String.{String}
use mathlib.Core.Path.{◌≡◌, refl}
use mathlib.Core.Bool.{Bool, true, false, ◌&&◌}
use mathlib.Core.Option.{Option, none, some}
use native.Mathlib.Omega.{arith}
use wire_assume.Prelude.Tests.{◌==◌, if◌then◌else◌}

-- The first text before the second, by clauses, so that a known first text computes.
abbrev pub put_before : String → String → String
put_before String.[] s = s
put_before (String.◌∷◌ c t) s = String.◌∷◌ c (put_before t s)

-- `replace` of one character, by its code.
unfoldable pub replace_char : ℕ → String → String → String
replace_char at to String.[] = String.[]
replace_char at to (String.◌∷◌ c s) =
    let rest = replace_char at to s in
    if code c == at then put_before to rest else String.◌∷◌ c rest

-- `replace` of two characters, by their codes: from left to right, without overlaps.
unfoldable pub replace_two : ℕ → ℕ → String → String → String
replace_two a b to String.[] = String.[]
replace_two a b to (String.◌∷◌ c String.[]) = String.◌∷◌ c String.[]
replace_two a b to (String.◌∷◌ c (String.◌∷◌ d s)) =
    let found = put_before to (replace_two a b to s) in
    let kept = String.◌∷◌ c (replace_two a b to (String.◌∷◌ d s)) in
    if (code c == a) && (code d == b) then found else kept

-- The texts before and after the last character with the code.
unfoldable pub rsplit_once : ℕ → String → Option (String × String)
rsplit_once at String.[] = none
rsplit_once at (String.◌∷◌ c s) = elim (rsplit_once at s) [
  | some (before, after) ↦ some (String.◌∷◌ c before, after)
  | none ↦ if code c == at then some (String.[], s) else none
]

pub replace_two-other :
    (a b : ℕ) (to : String) (c : Char) (s : String)
    → (code c == a) ≡ false
    → replace_two a b to (String.◌∷◌ c s) ≡ String.◌∷◌ c (replace_two a b to s)
unfolding replace_two
replace_two-other a b to c String.[] h = refl
replace_two-other a b to c (String.◌∷◌ d s) h = rw h refl

-- Whether a character with the code stands in the text.
unfoldable pub has_char : ℕ → String → Bool
has_char at String.[] = false
has_char at (String.◌∷◌ c s) = let rest = has_char at s in if code c == at then true else rest

pub rsplit_once-none : (at : ℕ) (s : String) → has_char at s ≡ false → rsplit_once at s ≡ none
unfolding rsplit_once has_char
rsplit_once-none at String.[] h = refl
rsplit_once-none at (String.◌∷◌ c s) h = ground (arith, rsplit_once-none at s)
