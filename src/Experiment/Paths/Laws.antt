-- ===== src/Experiment/Paths/Laws.antt =====
-- Patterns of paths in crates/experiment/src/lib.rs.
use wire_assume.Prelude.{
  Option-cases, strip_prefix, starts_with, contains_str, split_on, String, ◌≡◌, refl, inl, inr,
  true, false, some, List, [], ◌∷◌, arith,
}
use wire_assume.Experiment.Paths.{first_of, match_parts, path_matches}

anchored-prefix :
    (parts : List String) (path rest : String)
    → match_parts true parts true path ≡ some rest
    → starts_with path (first_of parts "") ≡ true
unfolding match_parts starts_with first_of strip_prefix
anchored-prefix [] path rest e = refl
anchored-prefix (String.[] ∷ parts) path rest e = refl
anchored-prefix (String.◌∷◌ c p ∷ parts) path rest e =
    elim (Option-cases (strip_prefix path (String.◌∷◌ c p))) [
      | inl nothing ↦ absurd (ground (arith, nothing))
      | inr (after, found) ↦ rw found refl
    ]

-- A path that matches a pattern with a `*`, which is not its first character, begins with the text of
-- the pattern before the first `*`.
pub path_matches_prefix :
    (pattern path : String)
    → path_matches pattern path ≡ true
    → contains_str pattern "*" ≡ true
    → starts_with pattern "*" ≡ false
    → starts_with path (first_of (split_on 42 pattern) "") ≡ true
unfolding path_matches
path_matches_prefix pattern path matches star anchored =
    elim (Option-cases (match_parts true (split_on 42 pattern) true path)) [
      | inl nothing ↦ absurd (ground (arith, nothing))
      | inr (rest, found) ↦ anchored-prefix (split_on 42 pattern) path rest found
    ]
