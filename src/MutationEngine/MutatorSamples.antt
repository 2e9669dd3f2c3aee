-- ===== src/MutationEngine/MutatorSamples.antt =====
-- The mutators of crates/mutation-engine/src on small documents and responses.
use Prim.Native.Char.{code}
use Prim.Native.String.{slice}
use mathlib.Core.List.{Mem}
use mathlib.Core.List.Perm
use wire_assume.Prelude.{
  All, any, contains, replace_char, sort_by, rsplit_once, replace_two, Result, ok, ◌++ₛ◌,
  strip_prefix, eq_ignore_ascii_case, to_decimal, put_before, ℕ, ◌+◌, ◌*◌, ◌%◌, ◌<◌, String, ◌≡◌,
  refl, ◌≢◌, ◌⊎◌, true, false, Option, none, some, List, [], ◌∷◌,
}
use wire_assume.Model.Json.{
  Value, null, number, string, array, object, nil, cons, Fields, end, field,
}
use wire_assume.Model.Objects.{get_key, value_eq, with_key, without_key}
use wire_assume.Model.Canonical.{Serde, stable_id, stable_hash, canonical_json, sort_value}
use wire_assume.Model.Corpus.{Header, Body, ResponseRecord}
use wire_assume.MutationEngine.Kind.{rank}
use wire_assume.MutationEngine.Mutation.{
  Mutation, mutate_at_pointer, MutationFingerprint, Fingerprints, Pointers, escape_pointer_segment,
  unescape_key, remove_at_pointer,
}
use wire_assume.MutationEngine.Mutation.Laws.{
  unescape_key-escape_pointer_segment, remove_at_pointer-key,
}
use wire_assume.MutationEngine.Distinct.{HasDistinctIds, AreDistinct, lists_id}
use wire_assume.MutationEngine.JsonMutator
use wire_assume.MutationEngine.JsonMutator.Laws.{generate-IsSupported, generate-HasDistinctIds}
use wire_assume.MutationEngine.JsonMutator.Laws as JsonLaws
use wire_assume.MutationEngine.JsonMutator.Covers.{IsRemoval, clashes, generate-covers}
use wire_assume.MutationEngine.ArrayMutator
use wire_assume.MutationEngine.ArrayMutator.{Randomness}
use wire_assume.MutationEngine.ArrayMutator.Laws as ArrayLaws
use wire_assume.MutationEngine.ArrayMutator.Laws.{IsRearrangement, generate-IsRearrangement}
use wire_assume.MutationEngine.Protocol.Records.{default_config, protocol_id}
use wire_assume.MutationEngine.Protocol.Headers.{headers_of, set_header, set_header-headers_of}
use wire_assume.MutationEngine.Protocol.Generate
use wire_assume.MutationEngine.Protocol.Laws.{
  status_id, generate-AreDistinct, generate-lists_status,
}

codes : String → List ℕ
codes String.[] = []
codes (String.◌∷◌ c s) = code c ∷ codes s

-- A number in place of a digest.
checksum : ℕ → List ℕ → ℕ
checksum n [] = n
checksum n (b ∷ bs) = checksum ((n * 31 + b) % 1000003) bs

abbrev serde : Serde String
serde = record {
  to_vec = λ value. elim value [ string s ↦ ok (codes s) | _ ↦ ok [] ];
  sha256_hex = λ bytes. to_decimal (checksum 7 bytes);
}

abbrev to_value : MutationFingerprint → Result String Value
to_value f = ok (string (put_before f.path f.variant))

abbrev mutation_id : MutationFingerprint → String
mutation_id f =
    "mut" ++ₛ "_" ++ₛ slice (to_decimal (checksum 7 (codes (put_before f.path f.variant)))) 0 20

id_is : (f : MutationFingerprint) → stable_id serde to_value "mut" f ≡ ok (mutation_id f)
unfolding stable_id stable_hash canonical_json sort_value
id_is f = refl

abbrev fingerprints : Fingerprints String
fingerprints = record {
  serde = serde;
  to_value = to_value;
  mutation_id = mutation_id;
  id_is = id_is;
}

abbrev in_object : Fields → Option String → Option (Value × (Value → Value))
in_object fs none = none
in_object fs (some key) = elim (get_key key fs) [
  | none ↦ none
  | some v ↦ some (v, λ w. object (with_key key w fs))
]

-- Pointers to the keys of the root.
abbrev pointer_mut : Pointers
pointer_mut (object fs) pointer = in_object fs (strip_prefix pointer "/")
pointer_mut _ pointer = none

abbrev one : Value
one = number (record { text = "1"; is_integer = true })

abbrev fields : Fields
fields = field "a" one (field "b/c" (array (cons one (cons null nil))) end)

abbrev baseline : Value
baseline = object fields

unescape_key-escape_pointer_segment_example :
    unescape_key (escape_pointer_segment "a~/b~1") ≡ "a~/b~1"
unescape_key-escape_pointer_segment_example = unescape_key-escape_pointer_segment "a~/b~1"

remove_at_pointer-key_example :
    remove_at_pointer pointer_mut baseline (put_before "/" (escape_pointer_segment "b/c"))
    ≡ some (object (without_key "b/c" fields))
remove_at_pointer-key_example =
    remove_at_pointer-key pointer_mut fields "b/c" (unfold get_key in refl)

generate-IsSupported_example :
    All JsonLaws.IsSupported (JsonMutator.generate fingerprints pointer_mut baseline 42)
generate-IsSupported_example = generate-IsSupported fingerprints pointer_mut baseline 42

generate-HasDistinctIds_example :
    HasDistinctIds (JsonMutator.generate fingerprints pointer_mut baseline 42)
    × All (λ m. m.mutated ≢ baseline) (JsonMutator.generate fingerprints pointer_mut baseline 42)
generate-HasDistinctIds_example = generate-HasDistinctIds fingerprints pointer_mut baseline 42

no_clash :
    any
      (clashes fingerprints pointer_mut 42 fields "b/c")
      (JsonMutator.generate fingerprints pointer_mut baseline 42)
    ≡ false
unfolding JsonMutator.generate JsonMutator.walk JsonMutator.dedupe_noops
    JsonMutator.first_of_each_id JsonMutator.below_root JsonMutator.at_value JsonMutator.scalars
    JsonMutator.scalar JsonMutator.specs_of JsonMutator.unknown_property JsonMutator.replace
    remove_at_pointer mutate_at_pointer escape_pointer_segment value_eq contains to_decimal checksum
    codes replace_char with_key sort_by rsplit_once get_key replace_two without_key strip_prefix
    rank
no_clash = refl

generate-covers_example :
    (m : Mutation) × Mem m (JsonMutator.generate fingerprints pointer_mut baseline 42)
    × IsRemoval fingerprints pointer_mut 42 fields "b/c" m
generate-covers_example =
    generate-covers fingerprints pointer_mut 42 fields "b/c" (unfold get_key in refl) no_clash

abbrev random : Randomness
random = record { sha256 = λ bytes. bytes; shuffle = λ seed items. items }

generate-IsRearrangement_example :
    All
      (λ m.
        ArrayLaws.IsSupported m × IsRearrangement pointer_mut (array (cons one (cons null nil))) m)
      (ArrayMutator.generate fingerprints pointer_mut random (array (cons one (cons null nil))) 42)
generate-IsRearrangement_example =
    generate-IsRearrangement fingerprints pointer_mut random (λ seed items. Perm.rfl)
      (array (cons one (cons null nil))) 42

abbrev header : String → String → Header
header name value = record { name = name; value = value }

abbrev headers : List Header
headers = header "Content-Type" "application/json" ∷ header "ETag" "1" ∷ []

set_header-headers_of_example :
    (headers_of "content-type" (set_header headers "content-type" "text/plain")
      ≡ header "content-type" "text/plain" ∷ [])
    × ((other : String)
        → eq_ignore_ascii_case "content-type" other ≡ false
        → headers_of other (set_header headers "content-type" "text/plain")
          ≡ headers_of other headers)
set_header-headers_of_example = set_header-headers_of headers "content-type" "text/plain"

abbrev response : ResponseRecord
response = record { status = 404; headers = headers; body = Body.json baseline }

generate-AreDistinct_example :
    AreDistinct protocol_id (Generate.generate fingerprints pointer_mut default_config response 42)
    × All
        (λ m. (m.response ≢ response) ⊎ (0 < m.delay_ms))
        (Generate.generate fingerprints pointer_mut default_config response 42)
generate-AreDistinct_example =
    generate-AreDistinct fingerprints pointer_mut default_config response 42

generate-lists_status_example :
    lists_id protocol_id
      (status_id fingerprints pointer_mut default_config response 42 503)
      (Generate.generate fingerprints pointer_mut default_config response 42)
    ≡ true
generate-lists_status_example =
    generate-lists_status fingerprints pointer_mut default_config response 42 503 refl refl
