-- ===== src/ContractEngine/Diff/Samples.antt =====
-- Comparisons of locks, crates/contract-engine/src/diff.rs.
use wire_assume.Prelude.{get, insert, ◌≡◌, refl, true, false, not, ◌&&◌, none, some, [], ◌∷◌}
use wire_assume.ContractEngine.Records.{ConsumptionLock, Requirement}
use wire_assume.ContractEngine.Samples.{lock}
use wire_assume.ContractEngine.Diff.{diff_contracts, index_by, by_path, is_required}
use wire_assume.ContractEngine.Diff.Added.{lists_id, has_id, diff-added, diff-added-breaks}
use wire_assume.ContractEngine.Diff.Stricter.{presence_of, diff-required-breaks}
use wire_assume.ContractEngine.Diff.Same.{diff_self}

-- The lock before anything was found.
abbrev bare : ConsumptionLock
bare = record lock { requirements = []; assumptions = [] }

abbrev amount : Requirement
amount = record {
  id = "req_0123456789abcdef0123";
  target = record { kind = "response-body"; path = "/amount" };
  presence = some "required";
  types = "integer" ∷ [];
  nullable = some true;
  accepted_empty = none;
  confidence = "observed";
  severity = "high";
  evidence_refs = "ev1" ∷ "ev2" ∷ "ev3" ∷ [];
}

diff-added_example :
    lists_id "asm_0123456789abcdef0123" (diff_contracts bare lock).added_assumptions ≡ (
      has_id "asm_0123456789abcdef0123" lock.assumptions
      && not (has_id "asm_0123456789abcdef0123" bare.assumptions))
diff-added_example = diff-added bare lock "asm_0123456789abcdef0123"

diff-added-breaks_example : (diff_contracts bare lock).breaking ≡ true
diff-added-breaks_example = diff-added-breaks bare lock "asm_0123456789abcdef0123" refl refl

found : get "/amount" (by_path lock.requirements) ≡ some amount
unfolding get index_by insert
found = refl

missing : is_required (presence_of (get "/amount" (by_path bare.requirements))) ≡ false
unfolding get index_by
missing = refl

diff-required-breaks_example : (diff_contracts bare lock).breaking ≡ true
diff-required-breaks_example = diff-required-breaks bare lock "/amount" amount found refl missing

diff-self_example : diff_contracts lock lock ≡ record {
  base_revision = "abc";
  head_revision = "abc";
  added_assumptions = [];
  removed_assumptions = [];
  requirement_changes = [];
  provider_comparison_changes = [];
  breaking = false;
}
diff-self_example = diff_self lock
