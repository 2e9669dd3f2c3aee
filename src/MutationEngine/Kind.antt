-- ===== src/MutationEngine/Kind.antt =====
-- `MutationKind` of crates/mutation-engine/src/mutation.rs.
use wire_assume.Prelude.{
  ◌==◌, IsTotalOrder, ℕ, zero, suc, compare, Ordering, ◌≡◌, refl, ap, Bool, false, ◌||◌, Option,
  none, some, List, [], ◌∷◌, arith,
}

pub data MutationKind : Type 0 where
  remove_field null_field empty_string whitespace_string wrong_primitive_type empty_array :
      MutationKind
  empty_object duplicate_value unknown_enum numeric_zero negative_number : MutationKind
  very_large_number float_instead_of_integer unicode_string long_string : MutationKind
  additional_unknown_property reverse_array shuffle_array duplicate_array_item : MutationKind
  remove_first_array_item remove_last_array_item one_array_item repeated_array_items : MutationKind
  status_code remove_header change_content_type additional_header redirect empty_response :
      MutationKind
  malformed_body delay_response error_code_missing error_message_missing : MutationKind
  empty_error_object non_json_error_body html_error_page unknown_error_code : MutationKind
  pagination_missing_cursor pagination_null_cursor pagination_missing_metadata : MutationKind

-- The place in the declaration, by which the derived `Ord` compares.
unfoldable pub rank : MutationKind → ℕ
rank remove_field = 0
rank null_field = 1
rank empty_string = 2
rank whitespace_string = 3
rank wrong_primitive_type = 4
rank empty_array = 5
rank empty_object = 6
rank duplicate_value = 7
rank unknown_enum = 8
rank numeric_zero = 9
rank negative_number = 10
rank very_large_number = 11
rank float_instead_of_integer = 12
rank unicode_string = 13
rank long_string = 14
rank additional_unknown_property = 15
rank reverse_array = 16
rank shuffle_array = 17
rank duplicate_array_item = 18
rank remove_first_array_item = 19
rank remove_last_array_item = 20
rank one_array_item = 21
rank repeated_array_items = 22
rank status_code = 23
rank remove_header = 24
rank change_content_type = 25
rank additional_header = 26
rank redirect = 27
rank empty_response = 28
rank malformed_body = 29
rank delay_response = 30
rank error_code_missing = 31
rank error_message_missing = 32
rank empty_error_object = 33
rank non_json_error_body = 34
rank html_error_page = 35
rank unknown_error_code = 36
rank pagination_missing_cursor = 37
rank pagination_null_cursor = 38
rank pagination_missing_metadata = 39

-- The derived `Ord` and `PartialEq`.
abbrev pub kind_cmp : MutationKind → MutationKind → Ordering
kind_cmp a b = compare (rank a) (rank b)

abbrev pub kind_eq : MutationKind → MutationKind → Bool
kind_eq a b = rank a == rank b

-- `BTreeSet<MutationKind>::contains`.
unfoldable pub has_kind : List MutationKind → MutationKind → Bool
has_kind [] kind = false
has_kind (k ∷ kinds) kind = kind_eq k kind || has_kind kinds kind

all_kinds : List MutationKind
all_kinds =
    remove_field ∷ null_field ∷ empty_string ∷ whitespace_string ∷ wrong_primitive_type
    ∷ empty_array ∷ empty_object ∷ duplicate_value ∷ unknown_enum ∷ numeric_zero ∷ negative_number
    ∷ very_large_number ∷ float_instead_of_integer ∷ unicode_string ∷ long_string
    ∷ additional_unknown_property ∷ reverse_array ∷ shuffle_array ∷ duplicate_array_item
    ∷ remove_first_array_item ∷ remove_last_array_item ∷ one_array_item ∷ repeated_array_items
    ∷ status_code ∷ remove_header ∷ change_content_type ∷ additional_header ∷ redirect
    ∷ empty_response ∷ malformed_body ∷ delay_response ∷ error_code_missing ∷ error_message_missing
    ∷ empty_error_object ∷ non_json_error_body ∷ html_error_page ∷ unknown_error_code
    ∷ pagination_missing_cursor ∷ pagination_null_cursor ∷ pagination_missing_metadata ∷ []

at : List MutationKind → ℕ → Option MutationKind
at [] i = none
at (k ∷ kinds) zero = some k
at (k ∷ kinds) (suc i) = at kinds i

at-rank : (k : MutationKind) → at all_kinds (rank k) ≡ some k
unfolding at all_kinds rank
at-rank remove_field = refl
at-rank _ = refl

pub rank_inj : (a b : MutationKind) → rank a ≡ rank b → a ≡ b
rank_inj a b h = cc (at-rank a, at-rank b, ap (at all_kinds) h)

pub kind_cmp-IsTotalOrder : IsTotalOrder kind_cmp
kind_cmp-IsTotalOrder = record {
  cmp_self = λ a. ground arith;
  same_of_eq = λ a b h. rank_inj a b (ground arith);
  lt_of_gt = λ a b h. ground arith;
  gt_of_lt = λ a b h. ground arith;
  lt_trans = λ a b c h k. ground arith;
}
