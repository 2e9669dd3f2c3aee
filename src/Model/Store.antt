-- ===== src/Model/Store.antt =====
-- `CorpusStore` of crates/model/src/corpus.rs: three files for each interaction, in a directory with its id.
pub mod Laws
use Prim.Native.Char.{code}
use wire_assume.Prelude.{
  leb, ◌==◌, if◌then◌else◌, Result, ok, err, starts_with, put_before, ℕ, suc, String, Bool, true,
  ◌&&◌, ◌||◌, List, ◌∷◌,
}
use wire_assume.Model.Json.{Value}
use wire_assume.Model.Canonical.{Serde, canonical_json, stable_hash, stable_id}
use wire_assume.Model.Corpus.{RequestRecord, ResponseRecord, InteractionMetadata, Interaction}
use wire_assume.Model.Redaction.{RedactionPolicy, Regexes, Urls, apply}
use wire_assume.Model.Files.{Disk, Faults, and_then, make_dirs, read_file, write_atomic}

pub record PersistedInteraction : Type 0 where
  pub id : String
  pub content_sha256 : String
  pub directory : String

pub data CorpusError (E Io : Type 0) : Type 0 where
  serialize : E → CorpusError E Io
  io : Io → CorpusError E Io
  invalid_id : String → CorpusError E Io

-- What serde makes of the records, and `from_slice`.
pub record Codec (E : Type 0) : Type 0 where
  pub interaction_value : Interaction → Result E Value
  pub request_value : RequestRecord → Result E Value
  pub response_value : ResponseRecord → Result E Value
  pub metadata_value : InteractionMetadata → Result E Value
  pub request_of : List ℕ → Result E RequestRecord
  pub response_of : List ℕ → Result E ResponseRecord
  pub metadata_of : List ℕ → Result E InteractionMetadata

-- `char::is_ascii_alphanumeric`, `_` or `-`, by code.
unfoldable pub is_id_char : ℕ → Bool
is_id_char c =
    (leb 48 c && leb c 57)
    || (leb 65 c && leb c 90)
    || (leb 97 c && leb c 122)
    || (c == 95)
    || (c == 45)

unfoldable pub all_id_chars : String → Bool
unfolding is_id_char
all_id_chars String.[] = true
all_id_chars (String.◌∷◌ c s) = is_id_char (code c) && all_id_chars s

-- `str::len`: the text is of ASCII characters where the answer is yes.
unfoldable pub text_length : String → ℕ
text_length String.[] = 0
text_length (String.◌∷◌ c s) = suc (text_length s)

-- `validate_id(id).is_ok()`
unfoldable pub is_valid_id : String → Bool
unfolding all_id_chars text_length
is_valid_id id = starts_with id "int_" && leb (text_length id) 128 && all_id_chars id

module _ {E Io U : Type 0} (faults : Faults Io) (serde : Serde E) (codec : Codec E)
    (new_regex : Regexes) (urls : Urls U) (root : String) where
  abbrev pub of_serde : {A : Type 0} → Result E A → Disk → Result (CorpusError E Io) A × Disk
  of_serde (ok a) d = (ok a, d)
  of_serde (err e) d = (err (serialize e), d)

  abbrev pub of_io : {A : Type 0} → Result Io A × Disk → Result (CorpusError E Io) A × Disk
  of_io (ok a, d) = (ok a, d)
  of_io (err e, d) = (err (io e), d)

  -- `root.join("corpus").join(id)`
  unfoldable pub directory_of : String → String
  directory_of id = put_before root (put_before "/corpus/" id)

  unfoldable pub save :
      String → Result E (List ℕ) → Disk → Result (CorpusError E Io) (Unit {0}) × Disk
  unfolding write_atomic
  save path text d =
      and_then (of_serde text d) (λ bytes d1. of_io (write_atomic faults path bytes d1))

  unfoldable pub save_parts :
      String → Interaction → Disk → Result (CorpusError E Io) (Unit {0}) × Disk
  unfolding save
  save_parts directory i d =
      and_then
        (save (put_before directory "/request.json")
          (canonical_json serde codec.request_value i.request) d)
        (λ _ d1.
          and_then
            (save (put_before directory "/response.json")
              (canonical_json serde codec.response_value i.response) d1)
            (λ _ d2.
              save (put_before directory "/metadata.json")
                (canonical_json serde codec.metadata_value i.metadata) d2))

  -- `persist`, after the redaction.
  unfoldable pub persist_redacted :
      Interaction → Disk → Result (CorpusError E Io) PersistedInteraction × Disk
  unfolding directory_of save_parts make_dirs
  persist_redacted i d =
      and_then (of_serde (stable_hash serde codec.interaction_value i) d) (λ hash d1.
        and_then (of_serde (stable_id serde codec.interaction_value "int" i) d1) (λ id d2.
          and_then (of_io (make_dirs faults (directory_of id) d2)) (λ _ d3.
            and_then (save_parts (directory_of id) i d3) (λ _ d4.
              (ok (record { id = id; content_sha256 = hash; directory = directory_of id }), d4)))))

  unfoldable pub persist :
      RedactionPolicy → Interaction → Disk → Result (CorpusError E Io) PersistedInteraction × Disk
  unfolding persist_redacted
  persist policy i d = persist_redacted (apply new_regex urls policy i) d

  unfoldable pub load_part :
      {A : Type 0} → (List ℕ → Result E A) → String → Disk → Result (CorpusError E Io) A × Disk
  unfolding read_file
  load_part from_slice path d =
      and_then (of_io (read_file faults path d)) (λ bytes d1. of_serde (from_slice bytes) d1)

  unfoldable pub load_parts : String → Disk → Result (CorpusError E Io) Interaction × Disk
  unfolding load_part
  load_parts directory d =
      and_then (load_part codec.request_of (put_before directory "/request.json") d) (λ request d1.
        and_then (load_part codec.response_of (put_before directory "/response.json") d1)
          (λ response d2.
            and_then (load_part codec.metadata_of (put_before directory "/metadata.json") d2)
              (λ metadata d3.
                (ok (record { request = request; response = response; metadata = metadata }), d3))))

  unfoldable pub load : String → Disk → Result (CorpusError E Io) Interaction × Disk
  unfolding is_valid_id load_parts directory_of
  load id d = if is_valid_id id then load_parts (directory_of id) d else (err (invalid_id id), d)
