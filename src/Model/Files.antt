-- ===== src/Model/Files.antt =====
-- The file system, as far as crates/model/src/corpus.rs and crates/experiment/src/lib.rs use it: each
-- operation may fail, by its number and what it does.
pub mod Laws
use wire_assume.Prelude.{
  str_eq, if◌then◌else◌, Result, ok, err, BTreeMap, get, insert, BTreeSet, set_insert, put_before,
  rsplit_once, ℕ, ◌+◌, String, Option, none, some, List, [], ◌∷◌,
}

pub data FileOp : Type 0 where
  create_dir_all write read remove_file : String → FileOp
  rename : String → String → FileOp

-- `clock` counts the operations.
pub record Disk : Type 0 where
  pub files : BTreeMap (List ℕ)
  pub dirs : BTreeSet
  pub clock : ℕ

unfoldable pub erase : String → BTreeMap (List ℕ) → BTreeMap (List ℕ)
erase k [] = []
erase k ((j, v) ∷ m) = let rest = erase k m in if str_eq j k then rest else (j, v) ∷ rest

-- What the operating system does: its faults, its error for a missing file, and what a write that failed
-- leaves in the file.
pub record Faults (Io : Type 0) : Type 0 where
  pub fault : ℕ → FileOp → Option Io
  pub not_found : String → Io
  pub left : ℕ → List ℕ → List ℕ

-- `Path::with_extension("tmp")`, for a file whose name has an extension.
unfoldable pub with_tmp : String → String
with_tmp path = elim (rsplit_once 46 path) [
  | none ↦ put_before path ".tmp"
  | some (stem, _) ↦ put_before stem ".tmp"
]

-- What follows after an operation: `?`.
abbrev pub and_then :
    {X D A B : Type 0} → Result X A × D → (A → D → Result X B × D) → Result X B × D
and_then (ok a, d) next = next a d
and_then (err e, d) next = (err e, d)

module _ {Io : Type 0} (faults : Faults Io) where
  abbrev pub tick : Disk → Disk
  tick d = record d { clock = d.clock + 1 }

  -- An operation that gives nothing.
  unfoldable pub perform : FileOp → (Disk → Disk) → Disk → Result Io (Unit {0}) × Disk
  perform op change d = elim (faults.fault d.clock op) [
    | none ↦ (ok tt, change (tick d))
    | some e ↦ (err e, tick d)
  ]

  unfoldable pub make_dirs : String → Disk → Result Io (Unit {0}) × Disk
  unfolding perform
  make_dirs path d =
      perform (create_dir_all path) (λ k. record k { dirs = set_insert path k.dirs }) d

  unfoldable pub write_file : String → List ℕ → Disk → Result Io (Unit {0}) × Disk
  write_file path bytes d = elim (faults.fault d.clock (write path)) [
    | none ↦ (ok tt, record (tick d) { files = insert path bytes d.files })
    | some e ↦ (err e, record (tick d) { files = insert path (faults.left d.clock bytes) d.files })
  ]

  unfoldable pub delete_file : String → Disk → Result Io (Unit {0}) × Disk
  unfolding perform erase
  delete_file path d = perform (remove_file path) (λ k. record k { files = erase path k.files }) d

  unfoldable pub rename_file : String → String → Disk → Result Io (Unit {0}) × Disk
  unfolding perform erase
  rename_file from to d = elim (get from d.files) [
    | none ↦ (err (faults.not_found from), tick d)
    | some bytes ↦
        perform (rename from to) (λ k. record k { files = insert to bytes (erase from k.files) }) d
  ]

  unfoldable pub read_file : String → Disk → Result Io (List ℕ) × Disk
  read_file path d = elim (faults.fault d.clock (read path)) [
    | some e ↦ (err e, tick d)
    | none ↦ elim (get path d.files) [
      | none ↦ (err (faults.not_found path), tick d)
      | some bytes ↦ (ok bytes, tick d)
    ]
  ]

  -- The removal of an old file, where there is one.
  unfoldable pub clear_file : String → Disk → Result Io (Unit {0}) × Disk
  unfolding delete_file
  clear_file path d = elim (get path d.files) [ none ↦ (ok tt, d) | some _ ↦ delete_file path d ]

  -- `write_atomic` and, after the text is made, `write_atomic_json`.
  unfoldable pub write_atomic : String → List ℕ → Disk → Result Io (Unit {0}) × Disk
  unfolding with_tmp write_file clear_file rename_file
  write_atomic path bytes d =
      and_then (write_file (with_tmp path) bytes d)
        (λ _ d1. and_then (clear_file path d1) (λ _ d2. rename_file (with_tmp path) path d2))
