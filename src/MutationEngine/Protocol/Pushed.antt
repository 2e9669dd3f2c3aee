-- ===== src/MutationEngine/Protocol/Pushed.antt =====
-- Every mutation that is pushed differs by what its kind names: crates/mutation-engine/src/protocol.rs.
use mathlib.Core.List.{Mem}
use wire_assume.Prelude.{
  All-Mem, ltb, ◌==◌, Bool-cases, All, All-append, eq_ignore_ascii_case, All-sort_by, sym, ap,
  subst, sort_by, put_before, ℕ, ◌≤◌, String, ◌≡◌, refl, inl, inr, false, ◌&&◌, Option, none, some,
  List, [], ◌∷◌, ◌++◌, arith,
}
use wire_assume.Model.Json.{Value, null, object, Fields}
use wire_assume.Model.Objects.{contains_key}
use wire_assume.Model.Corpus.{Header, Body, ResponseRecord}
use wire_assume.MutationEngine.Kind.{MutationKind}
use wire_assume.MutationEngine.Mutation.{Fingerprints, Pointers}
use wire_assume.MutationEngine.Protocol.Records.{ProtocolMutatorConfig, ProtocolMutation}
use wire_assume.MutationEngine.Protocol.Headers.{
  header_order, headers_of, set_header, set_header-headers_of, headers_of-removed,
  headers_of-without,
}
use wire_assume.MutationEngine.Protocol.Pagination.{
  PaginationField, cursor, metadata, find_pagination_fields, remove_json_pointer,
  replace_json_pointer,
}
use wire_assume.MutationEngine.Protocol.Generate.{
  with_body, ObjectChangeSpec, is_json, each_status, status_mutations, each_header,
  header_mutations, body_mutations, push_json_object_change, code_mutations, message_mutations,
  page_mutations, errors_of, error_mutations, paged, null_cursor, each_field, paginations_of,
  pagination_mutations, delay_mutations, pushed, changed, missing_kind,
}
use wire_assume.MutationEngine.Protocol.Scope.{Keeps, IsScoped}

module _ {E : Type 0} (fingerprints : Fingerprints E) (pointer_mut : Pointers)
    (config : ProtocolMutatorConfig) (baseline : ResponseRecord) (seed : ℕ) where
  abbrev Scoped : ProtocolMutation → Type 0
  Scoped m = IsScoped pointer_mut config baseline m

  both : (xs ys : List ProtocolMutation) → All Scoped xs → All Scoped ys → All Scoped (xs ++ ys)
  both xs ys = All-append Scoped xs ys

  each_status-All :
      (codes : List ℕ)
      → All (λ status. Mem status config.status_codes) codes
      → All Scoped (each_status fingerprints pointer_mut config baseline seed codes)
  unfolding each_status
  each_status-All [] h = tt
  each_status-All (status ∷ codes) h = elim (Bool-cases (status == baseline.status)) [
    | inl same ↦ rw same (each_status-All codes h.1)
    | inr other ↦ rw other (((h.0, refl, refl), refl), each_status-All codes h.1)
  ]

  -- A mutation without a delay, at the end of a list.
  then-changed :
      (xs ys : List ProtocolMutation) (kind : MutationKind) (target description variant : String)
      (response : ResponseRecord)
      → All Scoped xs
      → Keeps pointer_mut config baseline response 0 kind
      → All Scoped ys
      → All Scoped (
          xs
          ++ changed fingerprints pointer_mut config baseline seed kind target description variant
              response
            ∷ ys)
  then-changed xs ys kind target description variant response h k rest =
      All-append Scoped xs _ h (k, rest)

  set_it :
      (name value : String)
      → (headers_of name (set_header baseline.headers name value)
          ≡ record { name = name; value = value } ∷ [])
        × ((other : String)
            → eq_ignore_ascii_case name other ≡ false
            → headers_of other (set_header baseline.headers name value)
              ≡ headers_of other baseline.headers)
  set_it name value = set_header-headers_of baseline.headers name value

  status-All : All Scoped (status_mutations fingerprints pointer_mut config baseline seed)
  unfolding status_mutations
  status-All =
      then-changed _ [] _ _ _ _ _
        (each_status-All config.status_codes
          (All-Mem config.status_codes config.status_codes (λ y listed. listed)))
        ((refl, set_it "location" "/__wireassume_redirect__", refl), refl) tt

  each_header-All :
      (headers : List Header)
      → All (λ h. Mem h baseline.headers) headers
      → All Scoped (each_header fingerprints pointer_mut config baseline seed headers)
  unfolding each_header
  each_header-All [] k = tt
  each_header-All (h ∷ hs) k = (
    (
      (
        h,
        (
          k.0,
          headers_of-removed h.name baseline.headers,
          λ other apart. headers_of-without h.name other baseline.headers apart,
        ),
        refl,
        refl,
      ),
      refl,
    ),
    each_header-All hs k.1,
  )

  header-All : All Scoped (header_mutations fingerprints pointer_mut config baseline seed)
  unfolding header_mutations
  header-All =
      then-changed _ _ _ _ _ _ _
        (each_header-All (sort_by header_order baseline.headers) (
          All-sort_by header_order (λ h. Mem h baseline.headers) baseline.headers
            (All-Mem baseline.headers baseline.headers (λ y listed. listed))))
        ((refl, set_it "content-type" "text/plain; charset=utf-8", refl), refl)
        (((refl, set_it "x-wireassume-unknown" "1", refl), refl), tt)

  body-All : All Scoped (body_mutations fingerprints pointer_mut config baseline seed)
  unfolding body_mutations
  body-All =
      elim (Bool-cases (
        config.malformed_body
        && is_json fingerprints pointer_mut config baseline seed baseline.body)) [
          | inl malformed ↦
              rw malformed (((refl, refl, refl), refl), (((refl, refl, refl), refl), tt))
          | inr well_formed ↦ rw well_formed (((refl, refl, refl), refl), tt)
        ]

  push-All :
      (spec : ObjectChangeSpec) (change : Fields → Fields) (fs : Fields)
      → baseline.body ≡ Body.json (object fs)
      → Keeps pointer_mut config baseline
          (with_body baseline (Body.json (object (change fs))))
          0
          spec.kind
      → All Scoped (
          push_json_object_change fingerprints pointer_mut config baseline seed spec change
            baseline.body)
  unfolding push_json_object_change
  push-All spec change fs e k =
      subst (All Scoped)
        (sym (
          ap (push_json_object_change fingerprints pointer_mut config baseline seed spec change) e))
        (k, tt)

  module _ (fs : Fields) (failed : 400 ≤ baseline.status)
      (e : baseline.body ≡ Body.json (object fs)) where
    code-All : All Scoped (code_mutations fingerprints pointer_mut config baseline seed fs)
    unfolding code_mutations
    code-All = elim (Bool-cases (contains_key "code" fs)) [
      | inl there ↦ rw there (
          both _ _ (push-All _ _ fs e ((fs, (failed, e), there, (refl, refl, refl)), refl))
            (push-All _ _ fs e ((fs, (failed, e), there, (refl, refl, refl)), refl)))
      | inr missing ↦ rw missing tt
    ]

    message-All : All Scoped (message_mutations fingerprints pointer_mut config baseline seed fs)
    unfolding message_mutations
    message-All = elim (Bool-cases (contains_key "message" fs)) [
      | inl there ↦
          rw there (push-All _ _ fs e ((fs, (failed, e), there, (refl, refl, refl)), refl))
      | inr missing ↦ rw missing tt
    ]

    page-All : All Scoped (page_mutations fingerprints pointer_mut config baseline seed)
    unfolding page_mutations
    page-All = (
      ((fs, (failed, e), (refl, refl, refl)), refl),
      (
        ((fs, (failed, e), refl, refl, set_it "content-type" "text/plain; charset=utf-8"), refl),
        (
          ((fs, (failed, e), refl, refl, set_it "content-type" "text/html; charset=utf-8"), refl),
          tt,
        ),
      ),
    )

  errors_of-All :
      (body : Body)
      → baseline.body ≡ body
      → 400 ≤ baseline.status
      → All Scoped (errors_of fingerprints pointer_mut config baseline seed body)
  unfolding errors_of
  errors_of-All (Body.json (object fs)) e failed =
      both _ _ (both _ _ (code-All fs failed e) (message-All fs failed e)) (page-All fs failed e)
  errors_of-All _ e failed = tt

  error-All : All Scoped (error_mutations fingerprints pointer_mut config baseline seed)
  unfolding error_mutations
  error-All = elim (Bool-cases (ltb baseline.status 400)) [
    | inl fine ↦ rw fine tt
    | inr failed ↦ rw failed (errors_of-All baseline.body refl (ground arith))
  ]

  paged-All :
      (kind : MutationKind) (pointer description variant : String) (mutated : Option Value)
      → ((v : Value)
          → mutated ≡ some v
          → Keeps pointer_mut config baseline (with_body baseline (Body.json v)) 0 kind)
      → All Scoped (
          paged fingerprints pointer_mut config baseline seed kind pointer description variant
            mutated)
  paged-All kind pointer description variant none h = tt
  paged-All kind pointer description variant (some v) h = (h v refl, tt)

  module _ (value : Value) (e : baseline.body ≡ Body.json value) where
    abbrev IsFound : String × PaginationField → Type 0
    IsFound f = Mem f (find_pagination_fields value "")

    null_cursor-All :
        (pointer : String) (kind : PaginationField)
        → IsFound (pointer, kind)
        → All Scoped (null_cursor fingerprints pointer_mut config baseline seed value pointer kind)
    unfolding null_cursor
    null_cursor-All pointer cursor found =
        paged-All _ pointer _ _ (replace_json_pointer pointer_mut value pointer null)
          (λ v made. ((value, pointer, v, e, found, made, (refl, refl, refl)), refl))
    null_cursor-All pointer metadata found = tt

    field-All :
        (pointer : String) (kind : PaginationField)
        → IsFound (pointer, kind)
        → All Scoped (
            paged fingerprints pointer_mut config baseline seed
              (missing_kind fingerprints pointer_mut config baseline seed kind)
              pointer
              (put_before "remove pagination field " pointer)
              (put_before "pagination-remove-" pointer)
              (remove_json_pointer pointer_mut value pointer))
    field-All pointer cursor found =
        paged-All _ pointer _ _ (remove_json_pointer pointer_mut value pointer)
          (λ v made. ((value, pointer, v, e, found, made, (refl, refl, refl)), refl))
    field-All pointer metadata found =
        paged-All _ pointer _ _ (remove_json_pointer pointer_mut value pointer)
          (λ v made. ((value, pointer, v, e, found, made, (refl, refl, refl)), refl))

    each_field-All :
        (found : List (String × PaginationField))
        → All IsFound found
        → All Scoped (each_field fingerprints pointer_mut config baseline seed value found)
    unfolding each_field
    each_field-All [] h = tt
    each_field-All ((pointer, kind) ∷ rest) h =
        both _ _ (both _ _ (field-All pointer kind h.0) (null_cursor-All pointer kind h.0))
          (each_field-All rest h.1)

  paginations_of-All :
      (body : Body)
      → baseline.body ≡ body
      → All Scoped (paginations_of fingerprints pointer_mut config baseline seed body)
  unfolding paginations_of
  paginations_of-All (Body.json value) e =
      let found = find_pagination_fields value "" in
      each_field-All value e found (All-Mem found found (λ y listed. listed))
  paginations_of-All _ e = tt

  delay-All : All Scoped (delay_mutations fingerprints pointer_mut config baseline seed)
  unfolding delay_mutations
  delay-All = elim (Bool-cases (ltb 0 config.delay_ms)) [
    | inl late ↦ rw late ((refl, refl), tt)
    | inr now ↦ rw now tt
  ]

  pub pushed-All : All Scoped (pushed fingerprints pointer_mut config baseline seed)
  unfolding pushed pagination_mutations
  pushed-All =
      both _ _
        (both _ _ (both _ _ (both _ _ (both _ _ status-All header-All) body-All) error-All)
          (paginations_of-All baseline.body refl))
        delay-All
