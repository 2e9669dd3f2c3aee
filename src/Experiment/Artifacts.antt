-- ===== src/Experiment/Artifacts.antt =====
-- The artifacts that a run writes, crates/experiment/src/lib.rs.
use wire_assume.Prelude.{Result, ok, err, put_before, replace_char, ℕ, String, Option, List}
use wire_assume.Model.Json.{Value}
use wire_assume.Model.Canonical.{Serde}
use wire_assume.Model.Redaction.{RedactionPolicy, Regexes, redact_text}
use wire_assume.Model.Files.{Disk, Faults, and_then, make_dirs, write_atomic}
use wire_assume.Model.Store.{CorpusError}
use wire_assume.Oracles.{OracleStatus, OracleResult, OracleError, error_text}
use wire_assume.Oracles
use wire_assume.Experiment.Report.{TrialOutcome, ExperimentReport}
use wire_assume.Experiment.Report
use wire_assume.Experiment.Minimize.{MinimizationArtifact}
use wire_assume.Experiment.Plan.{ExperimentError}

pub record OracleArtifact : Type 0 where
  pub oracle_kind : String
  pub outcome : TrialOutcome
  pub duration_ms : ℕ
  pub summary : String
  pub stdout : String
  pub stderr : String

pub record RunFingerprint : Type 0 where
  pub scenario_id : String
  pub source_revision : Option String
  pub seed : ℕ
  pub mutation_ids : List String

pub record EvidenceFingerprint : Type 0 where
  pub run_id : String
  pub interaction_id : String
  pub mutation_id : String
  pub outcome : TrialOutcome

-- What serde makes of the records.
pub record RunCodec (E : Type 0) : Type 0 where
  pub run_value : RunFingerprint → Result E Value
  pub evidence_value : EvidenceFingerprint → Result E Value
  pub oracle_value : OracleArtifact → Result E Value
  pub minimization_value : MinimizationArtifact → Result E Value
  pub report_value : ExperimentReport → Result E Value

-- `ExperimentError`: the errors of `plan`, which has those of the corpus, and the other three. The last is
-- of the model: the reducer ran out of fuel.
pub data RunError (E Io : Type 0) : Type 0 where
  planning : ExperimentError (CorpusError E Io) → RunError E Io
  baseline_failed : String → RunError E Io
  persist_failed : Io → RunError E Io
  serialize : E → RunError E Io
  out_of_fuel : RunError E Io

abbrev pub trial_outcome : OracleStatus → TrialOutcome
trial_outcome Oracles.pass = Report.pass
trial_outcome Oracles.fail = Report.fail
trial_outcome Oracles.inconclusive = Report.inconclusive

module _ (new_regex : Regexes) (policy : RedactionPolicy) where
  unfoldable pub oracle_artifact : String → Result OracleError OracleResult → OracleArtifact
  oracle_artifact kind (ok result) = record {
    oracle_kind = kind;
    outcome = trial_outcome result.status;
    duration_ms = result.duration_ms;
    summary = redact_text new_regex policy result.summary;
    stdout = redact_text new_regex policy result.stdout;
    stderr = redact_text new_regex policy result.stderr;
  }
  oracle_artifact kind (err error) =
      let text = redact_text new_regex policy (error_text error) in
      record {
        oracle_kind = kind;
        outcome = Report.inconclusive;
        duration_ms = 0;
        summary = text;
        stdout = "";
        stderr = text;
      }

module _ {E Io : Type 0} (faults : Faults Io) (serde : Serde E) (workspace : String) where
  abbrev pub of_io : {A : Type 0} → Result Io A × Disk → Result (RunError E Io) A × Disk
  of_io (ok a, d) = (ok a, d)
  of_io (err e, d) = (err (persist_failed e), d)

  abbrev pub of_serde : {A : Type 0} → Result E A → Disk → Result (RunError E Io) A × Disk
  of_serde (ok a) d = (ok a, d)
  of_serde (err e) d = (err (serialize e), d)

  -- `write_atomic_json`, which does what `write_atomic` of the corpus does once it has the text.
  unfoldable pub write_atomic_json :
      String → Result E (List ℕ) → Disk → Result (RunError E Io) (Unit {0}) × Disk
  unfolding write_atomic
  write_atomic_json path text d =
      and_then (of_serde text d) (λ bytes d1. of_io (write_atomic faults path bytes d1))

  -- An artifact in a directory below the workspace; the answer is its path from there.
  unfoldable pub persist_artifact :
      String → String → String → Result E (List ℕ) → Disk → Result (RunError E Io) String × Disk
  unfolding write_atomic_json make_dirs
  persist_artifact parent id name text d =
      let directory = put_before parent (put_before "/" id) in
      let relative = put_before directory (put_before "/" name) in
      and_then (of_io (make_dirs faults (put_before workspace (put_before "/" directory)) d))
        (λ _ d1.
          and_then (write_atomic_json (put_before workspace (put_before "/" relative)) text d1)
            (λ _ d2. (ok (replace_char 92 "/" relative), d2)))

  unfoldable pub persist_run_artifact :
      String → String → Result E (List ℕ) → Disk → Result (RunError E Io) String × Disk
  unfolding persist_artifact
  persist_run_artifact run_id = persist_artifact "runs" run_id

  unfoldable pub persist_evidence_artifact :
      String → String → Result E (List ℕ) → Disk → Result (RunError E Io) String × Disk
  unfolding persist_artifact
  persist_evidence_artifact evidence_id = persist_artifact "evidence" evidence_id

  unfoldable pub persist_report :
      String → Result E (List ℕ) → Disk → Result (RunError E Io) (Unit {0}) × Disk
  unfolding write_atomic_json make_dirs
  persist_report run_id text d =
      let directory = put_before workspace (put_before "/runs/" run_id) in
      and_then (of_io (make_dirs faults directory d))
        (λ _ d1. write_atomic_json (put_before directory "/report.json") text d1)
