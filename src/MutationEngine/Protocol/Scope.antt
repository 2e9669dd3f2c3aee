-- ===== src/MutationEngine/Protocol/Scope.antt =====
-- What each kind of protocol mutation may change of a response: crates/mutation-engine/src/protocol.rs.
use mathlib.Core.List.{Mem}
use wire_assume.Prelude.{
  eq_ignore_ascii_case, ℕ, ◌≤◌, String, ◌≡◌, true, false, Option, some, [], ◌∷◌,
}
use wire_assume.Model.Json.{Value, null, string, object, Fields, end}
use wire_assume.Model.Objects.{contains_key, with_key, without_key}
use wire_assume.Model.Corpus.{Header, Body, ResponseRecord}
use wire_assume.MutationEngine.Kind.{MutationKind}
use wire_assume.MutationEngine.Kind
use wire_assume.MutationEngine.Mutation.{Pointers}
use wire_assume.MutationEngine.Protocol.Records.{ProtocolMutatorConfig, ProtocolMutation}
use wire_assume.MutationEngine.Protocol.Headers.{headers_of}
use wire_assume.MutationEngine.Protocol.Pagination.{
  PaginationField, cursor, metadata, find_pagination_fields, remove_json_pointer,
  replace_json_pointer,
}

-- What `b` has of `a` in a mutation of a kind.
module _ (pointer_mut : Pointers) (config : ProtocolMutatorConfig) (a b : ResponseRecord) where
  -- The headers of every other name are what they were.
  abbrev pub KeepsOthers : String → Type 0
  KeepsOthers name =
      (other : String)
      → eq_ignore_ascii_case name other ≡ false
      → headers_of other b.headers ≡ headers_of other a.headers

  -- The header stands once, with the value.
  abbrev pub Sets : String → String → Type 0
  Sets name value =
      (headers_of name b.headers ≡ record { name = name; value = value } ∷ []) × KeepsOthers name

  -- One of the headers is gone, with all of its name.
  abbrev pub Removes : Header → Type 0
  Removes h = Mem h a.headers × (headers_of h.name b.headers ≡ []) × KeepsOthers h.name

  -- Only the body is another.
  abbrev pub Replaces : Body → Type 0
  Replaces body = (b.status ≡ a.status) × (b.headers ≡ a.headers) × (b.body ≡ body)

  -- The response is an error with an object.
  abbrev pub IsError : Fields → Type 0
  IsError fs = (400 ≤ a.status) × (a.body ≡ Body.json (object fs))

  -- The object has the key, and is changed there.
  abbrev pub ChangesKey : String → (Fields → Fields) → Type 0
  ChangesKey key change =
      (fs : Fields) × IsError fs
      × (contains_key key fs ≡ true)
      × Replaces (Body.json (object (change fs)))

  -- A page in place of an error's object.
  abbrev pub IsPage : String → String → Type 0
  IsPage content_type text =
      (fs : Fields) × IsError fs
      × (b.status ≡ a.status)
      × (b.body ≡ Body.text text)
      × Sets "content-type" content_type

  -- The document is changed at the pointer to a field that was found.
  abbrev pub ChangesPage : PaginationField → (Value → String → Option Value) → Type 0
  ChangesPage kind change =
      (value : Value) × (pointer : String) × (mutated : Value) × (a.body ≡ Body.json value)
      × Mem (pointer, kind) (find_pagination_fields value "")
      × (change value pointer ≡ some mutated)
      × Replaces (Body.json mutated)

  -- The whole difference, by the kind; no other kind is possible.
  abbrev pub Differs : MutationKind → Type 0
  Differs Kind.status_code =
      Mem b.status config.status_codes × (b.headers ≡ a.headers) × (b.body ≡ a.body)
  Differs Kind.redirect =
      (b.status ≡ 302) × Sets "location" "/__wireassume_redirect__" × (b.body ≡ a.body)
  Differs Kind.remove_header = (h : Header) × Removes h × (b.status ≡ a.status) × (b.body ≡ a.body)
  Differs Kind.change_content_type =
      (b.status ≡ a.status) × Sets "content-type" "text/plain; charset=utf-8" × (b.body ≡ a.body)
  Differs Kind.additional_header =
      (b.status ≡ a.status) × Sets "x-wireassume-unknown" "1" × (b.body ≡ a.body)
  Differs Kind.empty_response = Replaces Body.empty
  Differs Kind.malformed_body = Replaces (Body.text "{\"wireassume\":")
  Differs Kind.error_code_missing = ChangesKey "code" (without_key "code")
  Differs Kind.unknown_error_code =
      ChangesKey "code" (with_key "code" (string "__WIREASSUME_UNKNOWN__"))
  Differs Kind.error_message_missing = ChangesKey "message" (without_key "message")
  Differs Kind.empty_error_object = (fs : Fields) × IsError fs × Replaces (Body.json (object end))
  Differs Kind.non_json_error_body = IsPage "text/plain; charset=utf-8" "upstream error"
  Differs Kind.html_error_page =
      IsPage "text/html; charset=utf-8" "<!doctype html><title>Upstream error</title>"
  Differs Kind.pagination_missing_metadata = ChangesPage metadata (remove_json_pointer pointer_mut)
  Differs Kind.pagination_missing_cursor = ChangesPage cursor (remove_json_pointer pointer_mut)
  Differs Kind.pagination_null_cursor =
      ChangesPage cursor (λ value pointer. replace_json_pointer pointer_mut value pointer null)
  Differs Kind.delay_response = b ≡ a
  Differs _ = true ≡ false

-- Only a delay waits, for the configured time.
abbrev pub delay_of : ProtocolMutatorConfig → MutationKind → ℕ
delay_of config Kind.delay_response = config.delay_ms
delay_of config _ = 0

abbrev pub Keeps :
    Pointers → ProtocolMutatorConfig → ResponseRecord → ResponseRecord → ℕ → MutationKind → Type 0
Keeps pointer_mut config a b delay kind =
    Differs pointer_mut config a b kind × (delay ≡ delay_of config kind)

-- The response of the mutation differs from the baseline by what its kind names.
abbrev pub IsScoped : Pointers → ProtocolMutatorConfig → ResponseRecord → ProtocolMutation → Type 0
IsScoped pointer_mut config baseline m =
    Keeps pointer_mut config baseline m.response m.delay_ms m.kind
