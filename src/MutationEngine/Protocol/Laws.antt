-- ===== src/MutationEngine/Protocol/Laws.antt =====
-- What `ProtocolMutator::generate` promises: crates/mutation-engine/src/protocol.rs.
use wire_assume.Prelude.{
  any-left, ltb, ◌==◌, str_eq, ltb→lt, Bool-cases, filter, All, All-mp, any, list_eq_refl,
  All-filter, All-always, any-left, contains, to_decimal, put_before, ℕ, ◌<◌, String, ◌≡◌, refl, ap,
  ◌∙◌, ◌≢◌, ◌⊎◌, inl, inr, Bool, true, false, not, ◌&&◌, ◌||◌, List, [], ◌∷◌, arith, eq_refl,
}
use wire_assume.Model.Objects.{value_eq_refl}
use wire_assume.Model.Corpus.{Body, ResponseRecord}
use wire_assume.MutationEngine.Kind.{MutationKind}
use wire_assume.MutationEngine.Kind
use wire_assume.MutationEngine.Mutation.{Fingerprints, Pointers}
use wire_assume.MutationEngine.Distinct.{
  AreDistinct, lists_id, first-All, first-AreDistinct, first-lists,
}
use wire_assume.MutationEngine.Protocol.Records.{
  ProtocolMutatorConfig, ProtocolMutation, protocol_id, header_eq, body_eq, response_eq,
}
use wire_assume.MutationEngine.Protocol.Generate.{
  each_status, status_mutations, header_mutations, body_mutations, error_mutations,
  pagination_mutations, delay_mutations, pushed, generate,
}
use wire_assume.MutationEngine.Protocol.Scope.{IsScoped}
use wire_assume.MutationEngine.Protocol.Pushed.{pushed-All}

body_eq_refl : (b : Body) → body_eq b b ≡ true
unfolding body_eq
body_eq_refl Body.empty = refl
body_eq_refl (Body.json v) = value_eq_refl v
body_eq_refl (Body.text t) = eq_refl t
body_eq_refl (Body.base64 t) = eq_refl t

response_eq_refl : (r : ResponseRecord) → response_eq r r ≡ true
unfolding response_eq
response_eq_refl r = ground (
  arith,
  list_eq_refl header_eq r.headers (λ h. ground (arith, eq_refl h.name, eq_refl h.value)),
  body_eq_refl r.body,
)

module _ {E : Type 0} (fingerprints : Fingerprints E) (pointer_mut : Pointers)
    (config : ProtocolMutatorConfig) (baseline : ResponseRecord) (seed : ℕ) where
  -- The condition of the first filter.
  abbrev is_change : ProtocolMutation → Bool
  is_change m = not (response_eq m.response baseline) || ltb 0 m.delay_ms

  pub generate-IsScoped :
      All
        (IsScoped pointer_mut config baseline)
        (generate fingerprints pointer_mut config baseline seed)
  unfolding generate
  generate-IsScoped = first-All protocol_id (IsScoped pointer_mut config baseline) [] _ (
      All-mp (λ m. IsScoped pointer_mut config baseline m × (is_change m ≡ true))
        (IsScoped pointer_mut config baseline) _ (λ m h. h.0)
        (All-filter (IsScoped pointer_mut config baseline) is_change
          (pushed fingerprints pointer_mut config baseline seed)
          (pushed-All fingerprints pointer_mut config baseline seed)))

  changes : (m : ProtocolMutation) → is_change m ≡ true → (m.response ≢ baseline) ⊎ (0 < m.delay_ms)
  changes m h = elim (Bool-cases (ltb 0 m.delay_ms)) [
    | inl late ↦ inr (ltb→lt 0 m.delay_ms late)
    | inr now ↦ inl (λ same.
        ground (arith, h, now, ap (λ r. response_eq r baseline) same, response_eq_refl baseline))
  ]

  -- Every mutation of a response changes it or delays it, and no id stands twice.
  pub generate-AreDistinct :
      AreDistinct protocol_id (generate fingerprints pointer_mut config baseline seed)
      × All
          (λ m. (m.response ≢ baseline) ⊎ (0 < m.delay_ms))
          (generate fingerprints pointer_mut config baseline seed)
  unfolding generate
  generate-AreDistinct = (
    first-AreDistinct protocol_id [] _,
    first-All protocol_id (λ m. (m.response ≢ baseline) ⊎ (0 < m.delay_ms)) [] _
        (All-mp (λ (m : ProtocolMutation). Unit {0} × (is_change m ≡ true))
          (λ m. (m.response ≢ baseline) ⊎ (0 < m.delay_ms)) _ (λ m h. changes m h.1)
          (All-filter (λ _. Unit {0}) is_change
            (pushed fingerprints pointer_mut config baseline seed)
            (All-always (λ _. Unit {0}) (pushed fingerprints pointer_mut config baseline seed)
              (λ m. tt)))),
  )

  module _ (status : ℕ) where
    -- The id of the mutation to a status.
    abbrev pub status_id : String
    status_id = fingerprints.mutation_id (record {
      kind = Kind.status_code;
      path = "response.status";
      seed = seed;
      variant = put_before "status-" (to_decimal status);
    })

    abbrev to_status : ProtocolMutation → Bool
    to_status m = str_eq m.id status_id && is_change m

    each_status-any :
        (codes : List ℕ)
        → any (λ c. c == status) codes ≡ true
        → (status == baseline.status) ≡ false
        → any to_status (each_status fingerprints pointer_mut config baseline seed codes) ≡ true
    unfolding each_status response_eq
    each_status-any [] h other = cc
    each_status-any (c ∷ codes) h other = elim (Bool-cases (c == status)) [
      | inl wanted ↦
          let same : c ≡ status = ground arith in
          rw (same, other) (ground (arith, eq_refl status_id))
      | inr next ↦ elim (Bool-cases (c == baseline.status)) [
        | inl skipped ↦ rw skipped (each_status-any codes (ground arith) other)
        | inr kept ↦ rw kept (ground (arith, each_status-any codes))
      ]
    ]

    pushed-any :
        any (λ c. c == status) config.status_codes ≡ true
        → (status == baseline.status) ≡ false
        → any to_status (pushed fingerprints pointer_mut config baseline seed) ≡ true
    unfolding pushed status_mutations
    pushed-any h other =
        any-left to_status _ (delay_mutations fingerprints pointer_mut config baseline seed) (
          any-left to_status _ (pagination_mutations fingerprints pointer_mut config baseline seed)
            (any-left to_status _ (error_mutations fingerprints pointer_mut config baseline seed) (
              any-left to_status _ (body_mutations fingerprints pointer_mut config baseline seed) (
                any-left to_status _
                  (header_mutations fingerprints pointer_mut config baseline seed)
                  (any-left to_status _ _ (each_status-any config.status_codes h other))))))

    filter-lists :
        (ms : List ProtocolMutation)
        → any to_status ms ≡ true
        → lists_id protocol_id status_id (filter is_change ms) ≡ true
    filter-lists [] h = h
    filter-lists (m ∷ ms) h = elim (Bool-cases (is_change m)) [
      | inl change ↦ rw change (ground (arith, filter-lists ms))
      | inr same ↦ rw same (filter-lists ms (ground (arith, h)))
    ]

    -- For each configured status but the response's own, the mutation to it is generated, by its id.
    pub generate-lists_status :
        any (λ c. c == status) config.status_codes ≡ true
        → (status == baseline.status) ≡ false
        → lists_id protocol_id status_id (generate fingerprints pointer_mut config baseline seed)
          ≡ true
    unfolding generate
    generate-lists_status h other =
        first-lists protocol_id status_id [] _ (unfold contains in refl)
        ∙ filter-lists (pushed fingerprints pointer_mut config baseline seed) (pushed-any h other)
