-- ===== src/MutationEngine/Mutation/Laws.antt =====
-- Keys in JSON pointers, crates/mutation-engine/src/mutation.rs.
use Prim.Native.Char.{Char, code}
use text.Mathlib.TextEquality.{Char-path}
use wire_assume.Prelude.{
  ◌==◌, if◌then◌else◌, Bool-cases, put_before, replace_char, replace_two, rsplit_once,
  replace_two-other, has_char, rsplit_once-none, String, ◌≡◌, refl, sym, ap, ◌∙◌, inl, inr, true,
  false, some, arith,
}
use wire_assume.Model.Json.{object, Fields}
use wire_assume.Model.Objects.{contains_key, without_key}
use wire_assume.MutationEngine.Mutation.{
  Pointers, escape_pointer_segment, unescape_key, remove_child, remove_below, remove_at_pointer,
}

-- The three kinds of character.
escape-cons :
    (c : Char) (s : String)
    → escape_pointer_segment (String.◌∷◌ c s) ≡ (
        if code c == 126
        then put_before "~0" (escape_pointer_segment s)
        else if code c == 47
        then put_before "~1" (escape_pointer_segment s)
        else String.◌∷◌ c (escape_pointer_segment s))
unfolding escape_pointer_segment replace_char
escape-cons c s = elim (Bool-cases (code c == 126)) [
  | inl tilde ↦ rw (tilde, replace_char) refl
  | inr other ↦ elim (Bool-cases (code c == 47)) [
    | inl slash ↦ rw (other, slash, replace_char) refl
    | inr plain ↦ rw (other, plain, replace_char) refl
  ]
]

code_eq : (c d : Char) → (code c == code d) ≡ true → c ≡ d
code_eq c d h = Char-path c d (ground arith)

unescape-cons :
    (c : Char) (s : String)
    → unescape_key (escape_pointer_segment (String.◌∷◌ c s))
      ≡ String.◌∷◌ c (unescape_key (escape_pointer_segment s))
unfolding unescape_key replace_two
unescape-cons c s =
    let rest = escape_pointer_segment s in
    let put = λ (d : Char). String.◌∷◌ d (unescape_key rest) in
    elim (Bool-cases (code c == 126)) [
      | inl tilde ↦
          rw (escape-cons c s, tilde)
            (rw (replace_two-other 126 49 "/" "0" rest refl) (ap put (sym (code_eq c "~" tilde))))
      | inr other ↦ elim (Bool-cases (code c == 47)) [
        | inl slash ↦
            rw (escape-cons c s, other, slash)
              (replace_two-other 126 48 "~" "/" (replace_two 126 49 "/" rest) refl
                ∙ ap put (sym (code_eq c "/" slash)))
        | inr plain ↦
            rw (escape-cons c s, other, plain)
              (rw (replace_two-other 126 49 "/" c rest other)
                (replace_two-other 126 48 "~" c (replace_two 126 49 "/" rest) other))
      ]
    ]

-- A key that is escaped for a pointer and then unescaped is the key again.
pub unescape_key-escape_pointer_segment : (s : String) → unescape_key (escape_pointer_segment s) ≡ s
unfolding unescape_key escape_pointer_segment replace_two replace_char
unescape_key-escape_pointer_segment String.[] = refl
unescape_key-escape_pointer_segment (String.◌∷◌ c s) =
    unescape-cons c s ∙ ap (λ t. String.◌∷◌ c t) (unescape_key-escape_pointer_segment s)

escape-has_char : (s : String) → has_char 47 (escape_pointer_segment s) ≡ false
unfolding has_char escape_pointer_segment replace_char
escape-has_char String.[] = refl
escape-has_char (String.◌∷◌ c s) = elim (Bool-cases (code c == 126)) [
  | inl tilde ↦ rw (escape-cons c s, tilde) (escape-has_char s)
  | inr other ↦ elim (Bool-cases (code c == 47)) [
    | inl slash ↦ rw (escape-cons c s, other, slash) (escape-has_char s)
    | inr plain ↦ rw (escape-cons c s, other, plain) (rw (plain, has_char) (escape-has_char s))
  ]
]

-- At the pointer that is made of a key of an object, that key is removed, whatever its characters.
pub remove_at_pointer-key :
    (pointer_mut : Pointers) (fs : Fields) (key : String)
    → contains_key key fs ≡ true
    → remove_at_pointer pointer_mut (object fs) (put_before "/" (escape_pointer_segment key))
      ≡ some (object (without_key key fs))
unfolding remove_at_pointer rsplit_once remove_below remove_child
remove_at_pointer-key pointer_mut fs key h =
    rw
      (
        rsplit_once-none 47 (escape_pointer_segment key) (escape-has_char key),
        rsplit_once,
        remove_at_pointer,
      )
      (rw (unescape_key-escape_pointer_segment key, h) refl)
