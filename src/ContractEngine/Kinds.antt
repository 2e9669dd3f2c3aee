-- ===== src/ContractEngine/Kinds.antt =====
-- What each kind of mutation says about the consumer: the tables of crates/contract-engine/src/lib.rs.
use wire_assume.Prelude.{ltb, str_eq, if◌then◌else◌, ℕ, String, Option, none, some}
use wire_assume.MutationEngine.Kind.{MutationKind}
use wire_assume.Experiment.Report.{TrialResult}

-- (type, behavior, severity) for a failing trial of the kind.
unfoldable pub assumption_for : MutationKind → Option (String × String × String)
assumption_for MutationKind.remove_field = some ("presence", "value must be present", "high")
assumption_for MutationKind.null_field = some ("nullability", "null is not tolerated", "high")
assumption_for MutationKind.wrong_primitive_type =
    some ("type", "observed value type is significant", "high")
assumption_for MutationKind.unknown_enum =
    some ("enum", "unknown enum-like value is not tolerated", "high")
assumption_for MutationKind.numeric_zero =
    some ("numeric-range", "numeric edge case is not tolerated", "medium")
assumption_for MutationKind.negative_number =
    some ("numeric-range", "numeric edge case is not tolerated", "medium")
assumption_for MutationKind.very_large_number =
    some ("numeric-range", "numeric edge case is not tolerated", "medium")
assumption_for MutationKind.float_instead_of_integer =
    some ("numeric-range", "numeric edge case is not tolerated", "medium")
assumption_for MutationKind.empty_string =
    some ("string-format", "string edge case is not tolerated", "medium")
assumption_for MutationKind.whitespace_string =
    some ("string-format", "string edge case is not tolerated", "medium")
assumption_for MutationKind.unicode_string =
    some ("string-format", "string edge case is not tolerated", "medium")
assumption_for MutationKind.long_string =
    some ("string-format", "string edge case is not tolerated", "medium")
assumption_for MutationKind.reverse_array =
    some ("array-order", "array ordering affects the workflow", "high")
assumption_for MutationKind.shuffle_array =
    some ("array-order", "array ordering affects the workflow", "high")
assumption_for MutationKind.empty_array =
    some ("cardinality", "array cardinality/content change affects the workflow", "medium")
assumption_for MutationKind.remove_first_array_item =
    some ("cardinality", "array cardinality/content change affects the workflow", "medium")
assumption_for MutationKind.remove_last_array_item =
    some ("cardinality", "array cardinality/content change affects the workflow", "medium")
assumption_for MutationKind.one_array_item =
    some ("cardinality", "array cardinality/content change affects the workflow", "medium")
assumption_for MutationKind.repeated_array_items =
    some ("cardinality", "array cardinality/content change affects the workflow", "medium")
assumption_for MutationKind.duplicate_array_item =
    some ("duplicate-handling", "duplicate value is not tolerated", "medium")
assumption_for MutationKind.duplicate_value =
    some ("duplicate-handling", "duplicate value is not tolerated", "medium")
assumption_for MutationKind.additional_unknown_property =
    some ("unknown-field-tolerance", "additional unknown field is not tolerated", "medium")
assumption_for MutationKind.remove_header =
    some ("header", "response header is required by the workflow", "high")
assumption_for MutationKind.change_content_type =
    some ("content-type", "Content-Type semantics affect the workflow", "high")
assumption_for MutationKind.status_code =
    some ("status-code", "HTTP status variation affects the workflow", "high")
assumption_for MutationKind.redirect =
    some ("redirect-behavior", "redirect response is not tolerated", "medium")
assumption_for MutationKind.error_code_missing =
    some ("error-shape", "error response shape affects the workflow", "high")
assumption_for MutationKind.error_message_missing =
    some ("error-shape", "error response shape affects the workflow", "high")
assumption_for MutationKind.empty_error_object =
    some ("error-shape", "error response shape affects the workflow", "high")
assumption_for MutationKind.non_json_error_body =
    some ("error-shape", "error response shape affects the workflow", "high")
assumption_for MutationKind.html_error_page =
    some ("error-shape", "error response shape affects the workflow", "high")
assumption_for MutationKind.unknown_error_code =
    some ("error-shape", "error response shape affects the workflow", "high")
assumption_for MutationKind.pagination_missing_cursor =
    some ("pagination", "pagination metadata behavior affects the workflow", "high")
assumption_for MutationKind.pagination_null_cursor =
    some ("pagination", "pagination metadata behavior affects the workflow", "high")
assumption_for MutationKind.pagination_missing_metadata =
    some ("pagination", "pagination metadata behavior affects the workflow", "high")
assumption_for MutationKind.delay_response =
    some ("timing", "increased response latency affects the workflow", "medium")
assumption_for MutationKind.empty_response =
    some ("error-shape", "empty or malformed response is not tolerated", "medium")
assumption_for MutationKind.malformed_body =
    some ("error-shape", "empty or malformed response is not tolerated", "medium")
assumption_for MutationKind.empty_object =
    some ("presence", "object contents are required", "medium")
assumption_for MutationKind.additional_header = none

-- The match is on `result.kind` alone.
unfoldable pub assumption_from_failure : TrialResult → Option (String × String × String)
unfolding assumption_for
assumption_from_failure result = assumption_for result.kind

unfoldable pub assumption_from_kind : MutationKind → Option (String × String)
assumption_from_kind MutationKind.remove_field = some ("structural", "high")
assumption_from_kind MutationKind.null_field = some ("structural", "high")
assumption_from_kind MutationKind.wrong_primitive_type = some ("structural", "high")
assumption_from_kind MutationKind.unknown_enum = some ("structural", "high")
assumption_from_kind MutationKind.reverse_array = some ("structural", "high")
assumption_from_kind MutationKind.shuffle_array = some ("structural", "high")
assumption_from_kind MutationKind.remove_header = some ("structural", "high")
assumption_from_kind MutationKind.change_content_type = some ("structural", "high")
assumption_from_kind MutationKind.status_code = some ("structural", "high")
assumption_from_kind MutationKind.error_code_missing = some ("structural", "high")
assumption_from_kind MutationKind.error_message_missing = some ("structural", "high")
assumption_from_kind MutationKind.empty_error_object = some ("structural", "high")
assumption_from_kind MutationKind.non_json_error_body = some ("structural", "high")
assumption_from_kind MutationKind.html_error_page = some ("structural", "high")
assumption_from_kind MutationKind.unknown_error_code = some ("structural", "high")
assumption_from_kind MutationKind.pagination_missing_cursor = some ("structural", "high")
assumption_from_kind MutationKind.pagination_null_cursor = some ("structural", "high")
assumption_from_kind MutationKind.pagination_missing_metadata = some ("structural", "high")
assumption_from_kind MutationKind.numeric_zero = some ("edge", "medium")
assumption_from_kind MutationKind.negative_number = some ("edge", "medium")
assumption_from_kind MutationKind.very_large_number = some ("edge", "medium")
assumption_from_kind MutationKind.float_instead_of_integer = some ("edge", "medium")
assumption_from_kind MutationKind.empty_string = some ("edge", "medium")
assumption_from_kind MutationKind.whitespace_string = some ("edge", "medium")
assumption_from_kind MutationKind.unicode_string = some ("edge", "medium")
assumption_from_kind MutationKind.long_string = some ("edge", "medium")
assumption_from_kind MutationKind.empty_array = some ("edge", "medium")
assumption_from_kind MutationKind.empty_object = some ("edge", "medium")
assumption_from_kind MutationKind.duplicate_array_item = some ("edge", "medium")
assumption_from_kind MutationKind.duplicate_value = some ("edge", "medium")
assumption_from_kind MutationKind.remove_first_array_item = some ("edge", "medium")
assumption_from_kind MutationKind.remove_last_array_item = some ("edge", "medium")
assumption_from_kind MutationKind.one_array_item = some ("edge", "medium")
assumption_from_kind MutationKind.repeated_array_items = some ("edge", "medium")
assumption_from_kind MutationKind.additional_unknown_property = some ("edge", "medium")
assumption_from_kind MutationKind.redirect = some ("edge", "medium")
assumption_from_kind MutationKind.empty_response = some ("edge", "medium")
assumption_from_kind MutationKind.malformed_body = some ("edge", "medium")
assumption_from_kind MutationKind.delay_response = some ("edge", "medium")
assumption_from_kind MutationKind.additional_header = none

unfoldable pub severity_for : MutationKind → String
unfolding assumption_from_kind
severity_for kind = elim (assumption_from_kind kind) [
  | none ↦ "low"
  | some (_, severity) ↦ severity
]

unfoldable pub mutation_weight : MutationKind → ℕ
unfolding severity_for
mutation_weight kind =
    let severity = severity_for kind in
    if str_eq severity "critical"
    then 8
    else if str_eq severity "high"
    then 4
    else if str_eq severity "medium"
    then 2
    else 1

unfoldable pub severity_rank : String → ℕ
severity_rank value =
    if str_eq value "critical"
    then 4
    else if str_eq value "high"
    then 3
    else if str_eq value "medium"
    then 2
    else if str_eq value "low"
    then 1
    else 0

unfoldable pub max_severity : String → String → String
unfolding severity_rank
max_severity current candidate =
    if ltb (severity_rank current) (severity_rank candidate) then candidate else current
