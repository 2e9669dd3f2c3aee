-- ===== src/ContractEngine/Severity.antt =====
-- The two tables of kinds and the order of severities in crates/contract-engine/src/lib.rs.
use wire_assume.Prelude.{
  ltb, ltb→lt, Bool-cases, ◌≤◌, max, String, ◌≡◌, refl, inl, inr, Option, none, some, arith,
}
use wire_assume.MutationEngine.Kind.{MutationKind}
use wire_assume.Experiment.Report.{TrialResult}
use wire_assume.ContractEngine.Kinds.{
  assumption_for, assumption_from_failure, severity_for, mutation_weight, severity_rank,
  max_severity,
}

-- The severity that `assumption_from_failure` gives, "low" where it gives nothing.
abbrev pub stated_severity : Option (String × String × String) → String
stated_severity none = "low"
stated_severity (some (t, b, severity)) = severity

severity_for-eq : (k : MutationKind) → severity_for k ≡ stated_severity (assumption_for k)
unfolding severity_for assumption_for
severity_for-eq MutationKind.remove_field = refl
severity_for-eq _ = refl

-- The two tables agree: the severity of a kind is the one that its assumption has, and "low" where it
-- has none.
pub severity_for-eq-stated :
    (r : TrialResult) → severity_for r.kind ≡ stated_severity (assumption_from_failure r)
unfolding assumption_from_failure
severity_for-eq-stated r = severity_for-eq r.kind

pub mutation_weight_bounds : (k : MutationKind) → (1 ≤ mutation_weight k) × (mutation_weight k ≤ 4)
unfolding mutation_weight
mutation_weight_bounds MutationKind.remove_field = omega arith
mutation_weight_bounds _ = omega arith

-- Taking the more severe text takes the larger rank.
pub severity_rank-max_severity :
    (a b : String) → severity_rank (max_severity a b) ≡ max (severity_rank a) (severity_rank b)
unfolding max_severity
severity_rank-max_severity a b = elim (Bool-cases (ltb (severity_rank a) (severity_rank b))) [
  | inl less ↦ rw less (omega (arith, ltb→lt _ _ less))
  | inr other ↦ rw other (ground arith)
]
