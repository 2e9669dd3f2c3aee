-- ===== src/MutationEngine/Protocol/Generate.antt =====
-- `ProtocolMutator::generate` of crates/mutation-engine/src/protocol.rs.
use wire_assume.Prelude.{
  ltb, ◌==◌, if◌then◌else◌, filter, sort_by, to_ascii_lowercase, to_decimal, put_before, ℕ, String,
  Bool, true, false, not, ◌&&◌, ◌||◌, Option, none, some, List, [], ◌∷◌, ◌++◌,
}
use wire_assume.Model.Json.{Value, null, string, object, Fields, end}
use wire_assume.Model.Objects.{contains_key, without_key, with_key}
use wire_assume.Model.Corpus.{Header, Body, ResponseRecord}
use wire_assume.MutationEngine.Kind.{MutationKind}
use wire_assume.MutationEngine.Mutation.{Fingerprints, Pointers}
use wire_assume.MutationEngine.JsonMutator.{first_of_each_id}
use wire_assume.MutationEngine.Protocol.Records.{
  ProtocolMutatorConfig, ProtocolMutation, new_protocol, protocol_id, response_eq,
}
use wire_assume.MutationEngine.Protocol.Headers.{header_order, without_header, set_header}
use wire_assume.MutationEngine.Protocol.Pagination.{
  PaginationField, cursor, metadata, find_pagination_fields, remove_json_pointer,
  replace_json_pointer,
}

pub record ObjectChangeSpec : Type 0 where
  pub kind : MutationKind
  pub target : String
  pub description : String
  pub variant : String

abbrev pub change_spec : MutationKind → String → String → String → ObjectChangeSpec
change_spec kind target description variant = record {
  kind = kind;
  target = target;
  description = description;
  variant = variant;
}

abbrev pub with_status : ResponseRecord → ℕ → ResponseRecord
with_status response status = record response { status = status }

abbrev pub with_body : ResponseRecord → Body → ResponseRecord
with_body response body = record response { body = body }

-- `set_header` on the headers of a response.
abbrev pub with_header : ResponseRecord → String → String → ResponseRecord
with_header response name value = record response {
  headers = set_header response.headers name value;
}

module _ {E : Type 0} (fingerprints : Fingerprints E) (pointer_mut : Pointers)
    (config : ProtocolMutatorConfig) (baseline : ResponseRecord) (seed : ℕ) where
  -- `ProtocolMutation::new` without a delay, where `baseline` became `response`.
  abbrev pub changed : MutationKind → String → String → String → ResponseRecord → ProtocolMutation
  changed kind target description variant response =
      new_protocol fingerprints kind target description seed variant response 0

  -- The loop over `status_codes`.
  unfoldable pub each_status : List ℕ → List ProtocolMutation
  each_status [] = []
  each_status (status ∷ codes) =
      let rest = each_status codes in
      if status == baseline.status
      then rest
      else changed MutationKind.status_code "response.status"
          (put_before "change HTTP status to " (to_decimal status))
          (put_before "status-" (to_decimal status)) (with_status baseline status)
        ∷ rest

  unfoldable pub status_mutations : List ProtocolMutation
  unfolding each_status set_header
  status_mutations =
      each_status config.status_codes
      ++ changed MutationKind.redirect "response.status" "return a 302 redirect" "redirect-302"
          (with_header (with_status baseline 302) "location" "/__wireassume_redirect__")
        ∷ []

  -- The loop over the sorted headers.
  unfoldable pub each_header : List Header → List ProtocolMutation
  unfolding without_header
  each_header [] = []
  each_header (header ∷ headers) =
      changed MutationKind.remove_header
        (put_before "response.header." (to_ascii_lowercase header.name))
        (put_before "remove response header " header.name)
        (put_before "remove-header-" (to_ascii_lowercase header.name))
        (record baseline { headers = without_header header.name baseline.headers })
      ∷ each_header headers

  unfoldable pub header_mutations : List ProtocolMutation
  unfolding each_header set_header
  header_mutations =
      each_header (sort_by header_order baseline.headers)
      ++ changed MutationKind.change_content_type "response.header.content-type"
          "change Content-Type to text/plain" "content-type-text"
          (with_header baseline "content-type" "text/plain; charset=utf-8")
        ∷ changed MutationKind.additional_header "response.headers" "add an unknown response header"
            "additional-header" (with_header baseline "x-wireassume-unknown" "1")
        ∷ []

  -- `matches!(baseline.body, Body::Json(_))`
  abbrev pub is_json : Body → Bool
  is_json (Body.json _) = true
  is_json _ = false

  unfoldable pub body_mutations : List ProtocolMutation
  body_mutations =
      changed MutationKind.empty_response "response.body" "return an empty response body"
        "empty-response" (with_body baseline Body.empty)
      ∷ (if config.malformed_body && is_json baseline.body
          then changed MutationKind.malformed_body "response.body" "return malformed JSON"
              "malformed-json" (with_body baseline (Body.text "{\"wireassume\":"))
            ∷ []
          else [])

  unfoldable pub push_json_object_change :
      ObjectChangeSpec → (Fields → Fields) → Body → List ProtocolMutation
  push_json_object_change spec change (Body.json (object fs)) =
      changed spec.kind spec.target spec.description spec.variant
        (with_body baseline (Body.json (object (change fs))))
      ∷ []
  push_json_object_change spec change _ = []

  unfoldable pub code_mutations : Fields → List ProtocolMutation
  unfolding push_json_object_change
  code_mutations fs =
      if contains_key "code" fs
      then push_json_object_change
          (change_spec MutationKind.error_code_missing "response.body.code" "remove error code"
            "error-remove-code")
          (without_key "code") baseline.body
        ++ push_json_object_change
            (change_spec MutationKind.unknown_error_code "response.body.code"
              "replace error code with an unknown value" "error-unknown-code")
            (with_key "code" (string "__WIREASSUME_UNKNOWN__")) baseline.body
      else []

  unfoldable pub message_mutations : Fields → List ProtocolMutation
  unfolding push_json_object_change
  message_mutations fs =
      if contains_key "message" fs
      then push_json_object_change
          (change_spec MutationKind.error_message_missing "response.body.message"
            "remove error message" "error-remove-message")
          (without_key "message") baseline.body
      else []

  unfoldable pub page_mutations : List ProtocolMutation
  unfolding set_header
  page_mutations =
      changed MutationKind.empty_error_object "response.body"
        "replace error body with an empty object" "error-empty-object"
        (with_body baseline (Body.json (object end)))
      ∷ changed MutationKind.non_json_error_body "response.body"
          "replace JSON error with plain text" "error-text"
          (with_header (with_body baseline (Body.text "upstream error")) "content-type"
            "text/plain; charset=utf-8")
      ∷ changed MutationKind.html_error_page "response.body" "replace error with an HTML page"
          "error-html"
          (with_header
            (with_body baseline (Body.text "<!doctype html><title>Upstream error</title>"))
            "content-type" "text/html; charset=utf-8")
      ∷ []

  -- What `error_mutations` does after its first guard, by the body.
  unfoldable pub errors_of : Body → List ProtocolMutation
  unfolding code_mutations message_mutations page_mutations
  errors_of (Body.json (object fs)) = code_mutations fs ++ message_mutations fs ++ page_mutations
  errors_of _ = []

  unfoldable pub error_mutations : List ProtocolMutation
  unfolding errors_of
  error_mutations = if ltb baseline.status 400 then [] else errors_of baseline.body

  abbrev pub missing_kind : PaginationField → MutationKind
  missing_kind metadata = MutationKind.pagination_missing_metadata
  missing_kind cursor = MutationKind.pagination_missing_cursor

  -- The mutation, where the change at the pointer gave a document.
  abbrev pub paged : MutationKind → String → String → String → Option Value → List ProtocolMutation
  paged kind pointer description variant none = []
  paged kind pointer description variant (some mutated) =
      changed kind (put_before "response.body" pointer) description variant
        (with_body baseline (Body.json mutated))
      ∷ []

  unfoldable pub null_cursor : Value → String → PaginationField → List ProtocolMutation
  unfolding replace_json_pointer
  null_cursor value pointer cursor =
      paged MutationKind.pagination_null_cursor pointer
        (put_before "set pagination cursor " (put_before pointer " to null"))
        (put_before "pagination-null-" pointer)
        (replace_json_pointer pointer_mut value pointer null)
  null_cursor value pointer metadata = []

  -- The loop over the fields that were found.
  unfoldable pub each_field : Value → List (String × PaginationField) → List ProtocolMutation
  unfolding remove_json_pointer null_cursor
  each_field value [] = []
  each_field value ((pointer, kind) ∷ rest) =
      paged (missing_kind kind) pointer (put_before "remove pagination field " pointer)
        (put_before "pagination-remove-" pointer) (remove_json_pointer pointer_mut value pointer)
      ++ null_cursor value pointer kind
      ++ each_field value rest

  unfoldable pub paginations_of : Body → List ProtocolMutation
  unfolding each_field find_pagination_fields
  paginations_of (Body.json value) = each_field value (find_pagination_fields value "")
  paginations_of _ = []

  unfoldable pub pagination_mutations : List ProtocolMutation
  unfolding paginations_of
  pagination_mutations = paginations_of baseline.body

  unfoldable pub delay_mutations : List ProtocolMutation
  delay_mutations =
      if ltb 0 config.delay_ms
      then new_protocol fingerprints MutationKind.delay_response "timing.response"
          (put_before "delay response by " (put_before (to_decimal config.delay_ms) " ms")) seed
          (put_before "delay-" (to_decimal config.delay_ms)) baseline config.delay_ms
        ∷ []
      else []

  -- What is pushed before the filters.
  unfoldable pub pushed : List ProtocolMutation
  unfolding status_mutations header_mutations body_mutations error_mutations pagination_mutations
      delay_mutations
  pushed =
      status_mutations ++ header_mutations ++ body_mutations ++ error_mutations
      ++ pagination_mutations ++ delay_mutations

  unfoldable pub generate : List ProtocolMutation
  unfolding pushed first_of_each_id response_eq
  generate =
      first_of_each_id protocol_id []
        (filter (λ m. not (response_eq m.response baseline) || ltb 0 m.delay_ms) pushed)
