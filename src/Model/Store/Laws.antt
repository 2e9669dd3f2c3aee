-- ===== src/Model/Store/Laws.antt =====
-- What is stored can be loaded again: crates/model/src/corpus.rs.
use wire_assume.Prelude.{
  str_eq, Bool-cases, str_ne, Result, ok, err, get, put_before, rsplit_once, ℕ, ◌+◌, String, ◌≡◌,
  refl, ap, subst, ◌∙◌, inl, inr, true, false, none, some, List, eq_iff,
}
use wire_assume.Model.Canonical.{Serde, canonical_json, stable_hash, stable_id}
use wire_assume.Model.Corpus.{Interaction}
use wire_assume.Model.Redaction.{RedactionPolicy, Regexes, Urls, apply}
use wire_assume.Model.Files.{FileOp, Disk, Faults, with_tmp, make_dirs, read_file, write_atomic}
use wire_assume.Model.Files.Laws.{and_then-ok, ok-pair, SameBut, write_atomic-Written}
use wire_assume.Model.Store.{
  PersistedInteraction, Codec, is_valid_id, directory_of, save, save_parts, persist_redacted,
  persist, load_part, load_parts, load, of_serde, of_io,
}

put_before_assoc : (a b c : String) → put_before (put_before a b) c ≡ put_before a (put_before b c)
put_before_assoc String.[] b c = refl
put_before_assoc (String.◌∷◌ x a) b c = ap (λ s. String.◌∷◌ x s) (put_before_assoc a b c)

rest_of : String → String
rest_of String.[] = String.[]
rest_of (String.◌∷◌ c s) = s

put_before-cancel : (dir a b : String) → put_before dir a ≡ put_before dir b → a ≡ b
unfolding rest_of
put_before-cancel String.[] a b e = e
put_before-cancel (String.◌∷◌ c dir) a b e = put_before-cancel dir a b (ap rest_of e)

-- Different names in one directory are different paths.
in-apart :
    (dir a b : String) → str_eq a b ≡ false → str_eq (put_before dir a) (put_before dir b) ≡ false
in-apart dir a b h = elim (Bool-cases (str_eq (put_before dir a) (put_before dir b))) [
  | inl same ↦ absurd (str_ne a b h (put_before-cancel dir a b ((eq_iff _ _).0 same)))
  | inr other ↦ other
]

rsplit_once-put_before :
    (at : ℕ) (dir name stem after : String)
    → rsplit_once at name ≡ some (stem, after)
    → rsplit_once at (put_before dir name) ≡ some (put_before dir stem, after)
unfolding rsplit_once
rsplit_once-put_before at String.[] name stem after h = h
rsplit_once-put_before at (String.◌∷◌ c dir) name stem after h =
    rw (rsplit_once-put_before at dir name stem after h, rsplit_once) refl

with_tmp-put_before :
    (dir name stem after : String)
    → rsplit_once 46 name ≡ some (stem, after)
    → with_tmp (put_before dir name) ≡ put_before dir (put_before stem ".tmp")
unfolding with_tmp
with_tmp-put_before dir name stem after h =
    rw (rsplit_once-put_before 46 dir name stem after h, with_tmp)
      (put_before_assoc dir stem ".tmp")

-- The file has the text and no third file is changed.
record Saved {E : Type 0} (path : String) (text : Result E (List ℕ)) (d d' : Disk) : Type 0 where
  bytes : List ℕ
  made : text ≡ ok bytes
  there : get path d'.files ≡ some bytes
  others : SameBut path (with_tmp path) d d'

-- The paths of two files of a directory, and of their temporary files.
record AreApart (dir a b : String) : Type 0 where
  own : str_eq (with_tmp (put_before dir a)) (put_before dir a) ≡ false
  files : str_eq (put_before dir b) (put_before dir a) ≡ false
  other_tmp : str_eq (with_tmp (put_before dir b)) (put_before dir a) ≡ false

apart :
    (dir a b stem after stem' after' : String)
    → rsplit_once 46 a ≡ some (stem, after)
    → rsplit_once 46 b ≡ some (stem', after')
    → str_eq (put_before stem ".tmp") a ≡ false
    → str_eq b a ≡ false
    → str_eq (put_before stem' ".tmp") a ≡ false
    → AreApart dir a b
apart dir a b stem after stem' after' ha hb own files other_tmp = record {
  own = rw (with_tmp-put_before dir a stem after ha) (in-apart dir _ a own);
  files = in-apart dir b a files;
  other_tmp = rw (with_tmp-put_before dir b stem' after' hb) (in-apart dir _ a other_tmp);
}

request-response : (dir : String) → AreApart dir "/request.json" "/response.json"
unfolding rsplit_once
request-response dir =
    apart dir "/request.json" "/response.json" "/request" "json" "/response" "json" refl refl refl
      refl refl

request-metadata : (dir : String) → AreApart dir "/request.json" "/metadata.json"
unfolding rsplit_once
request-metadata dir =
    apart dir "/request.json" "/metadata.json" "/request" "json" "/metadata" "json" refl refl refl
      refl refl

response-metadata : (dir : String) → AreApart dir "/response.json" "/metadata.json"
unfolding rsplit_once
response-metadata dir =
    apart dir "/response.json" "/metadata.json" "/response" "json" "/metadata" "json" refl refl refl
      refl refl

metadata-request : (dir : String) → AreApart dir "/metadata.json" "/request.json"
unfolding rsplit_once
metadata-request dir =
    apart dir "/metadata.json" "/request.json" "/metadata" "json" "/request" "json" refl refl refl
      refl refl

-- What serde reads from the texts of an interaction's parts are these parts.
pub record IsDecoded {E : Type 0} (serde : Serde E) (codec : Codec E) (i : Interaction)
    : Type 0 where
  pub request :
      (bytes : List ℕ)
      → canonical_json serde codec.request_value i.request ≡ ok bytes
      → codec.request_of bytes ≡ ok i.request
  pub response :
      (bytes : List ℕ)
      → canonical_json serde codec.response_value i.response ≡ ok bytes
      → codec.response_of bytes ≡ ok i.response
  pub metadata :
      (bytes : List ℕ)
      → canonical_json serde codec.metadata_value i.metadata ≡ ok bytes
      → codec.metadata_of bytes ≡ ok i.metadata

module _ {E Io U : Type 0} (faults : Faults Io) (serde : Serde E) (codec : Codec E)
    (new_regex : Regexes) (urls : Urls U) (root : String) where
  of_serde-ok :
      {A : Type 0} (r : Result E A) (d d' : Disk) (a : A)
      → of_serde faults serde codec new_regex urls root r d ≡ (ok a, d')
      → (r ≡ ok a) × (d ≡ d')
  of_serde-ok (ok b) d d' a e = (cc e, cc e)
  of_serde-ok (err x) d d' a e = cc e

  of_io-ok :
      {A : Type 0} (r : Result Io A × Disk) (d' : Disk) (a : A)
      → of_io faults serde codec new_regex urls root r ≡ (ok a, d')
      → r ≡ (ok a, d')
  of_io-ok (ok b, d) d' a e = cc e
  of_io-ok (err x, d) d' a e = cc e

  save-Saved :
      (path : String) (text : Result E (List ℕ)) (d d' : Disk)
      → str_eq (with_tmp path) path ≡ false
      → save faults serde codec new_regex urls root path text d ≡ (ok tt, d')
      → Saved path text d d'
  unfolding save
  save-Saved path text d d' apart e =
      let (bytes, d1, made, rest) = and_then-ok _ _ tt d' e in
      let (same, here) = of_serde-ok text d d1 bytes made in
      let written = of_io-ok (write_atomic faults path bytes d1) d' tt rest in
      let law = rw written at (write_atomic-Written faults path bytes apart d1) in
      record { bytes = bytes; made = same; there = law.0; others = rw here law.1 }

  load_part-ok :
      {A : Type 0} (from_slice : List ℕ → Result E A) (path : String) (bytes : List ℕ) (d : Disk)
      (a : A)
      → faults.fault d.clock (FileOp.read path) ≡ none
      → get path d.files ≡ some bytes
      → from_slice bytes ≡ ok a
      → load_part faults serde codec new_regex urls root from_slice path d
        ≡ (ok a, record d { clock = d.clock + 1 })
  unfolding load_part read_file
  load_part-ok from_slice path bytes d a fine there parsed =
      rw (fine, there, parsed, load_part, read_file) refl

  -- All three files of the interaction stand in the directory.
  record Holds (directory : String) (i : Interaction) (d : Disk) : Type 0 where
    request_bytes : List ℕ
    response_bytes : List ℕ
    metadata_bytes : List ℕ
    request_made : canonical_json serde codec.request_value i.request ≡ ok request_bytes
    response_made : canonical_json serde codec.response_value i.response ≡ ok response_bytes
    metadata_made : canonical_json serde codec.metadata_value i.metadata ≡ ok metadata_bytes
    request_there : get (put_before directory "/request.json") d.files ≡ some request_bytes
    response_there : get (put_before directory "/response.json") d.files ≡ some response_bytes
    metadata_there : get (put_before directory "/metadata.json") d.files ≡ some metadata_bytes

  save_parts-Holds :
      (directory : String) (i : Interaction) (d d' : Disk)
      → save_parts faults serde codec new_regex urls root directory i d ≡ (ok tt, d')
      → Holds directory i d'
  unfolding save_parts
  save_parts-Holds directory i d d' e =
      let (_, d1, e1, rest) = and_then-ok _ _ tt d' e in
      let (_, d2, e2, e3) = and_then-ok _ _ tt d' rest in
      let first = request-response directory in
      let between = request-metadata directory in
      let second = response-metadata directory in
      let third = metadata-request directory in
      let request = save-Saved (put_before directory "/request.json") _ d d1 first.own e1 in
      let response = save-Saved (put_before directory "/response.json") _ d1 d2 second.own e2 in
      let metadata = save-Saved (put_before directory "/metadata.json") _ d2 d' third.own e3 in
      record {
        request_bytes = request.bytes;
        response_bytes = response.bytes;
        metadata_bytes = metadata.bytes;
        request_made = request.made;
        response_made = response.made;
        metadata_made = metadata.made;
        request_there =
            metadata.others _ between.files between.other_tmp
            ∙ response.others _ first.files first.other_tmp
            ∙ request.there;
        response_there = metadata.others _ second.files second.other_tmp ∙ response.there;
        metadata_there = metadata.there;
      }

  persist-Holds :
      (i : Interaction) (stored : PersistedInteraction) (d d' : Disk)
      → persist_redacted faults serde codec new_regex urls root i d ≡ (ok stored, d')
      → Holds (directory_of faults serde codec new_regex urls root stored.id) i d'
  unfolding persist_redacted
  persist-Holds i stored d d' e =
      let (hash, d1, _, e1) =
        and_then-ok
          (of_serde faults serde codec new_regex urls root
            (stable_hash serde codec.interaction_value i) d)
          _ stored d' e in
      let (id, d2, _, e2) =
        and_then-ok
          (of_serde faults serde codec new_regex urls root
            (stable_id serde codec.interaction_value "int" i) d1)
          _ stored d' e1 in
      let directory = directory_of faults serde codec new_regex urls root id in
      let (_, d3, _, e3) =
        and_then-ok (of_io faults serde codec new_regex urls root (make_dirs faults directory d2)) _
          stored d' e2 in
      let (_, d4, e4, last) =
        and_then-ok (save_parts faults serde codec new_regex urls root directory i d3) _ stored d'
          e3 in
      let same = ok-pair _ stored d4 d' last in
      subst (λ k. Holds (directory_of faults serde codec new_regex urls root k.id) i d') same.0
        (subst (λ k. Holds directory i k) same.1 (save_parts-Holds directory i d3 d4 e4))

  module _ (reads : (n : ℕ) (path : String) → faults.fault n (FileOp.read path) ≡ none) where
    Holds-loads :
        (directory : String) (i : Interaction) (d : Disk)
        → Holds directory i d
        → IsDecoded serde codec i
        → (load_parts faults serde codec new_regex urls root directory d).0 ≡ ok i
    unfolding load_parts
    Holds-loads directory i d h decoded =
        rw
          (load_part-ok codec.request_of (put_before directory "/request.json") h.request_bytes d
            i.request (reads d.clock _) h.request_there
            (decoded.request h.request_bytes h.request_made))
          (rw
            (load_part-ok codec.response_of (put_before directory "/response.json") h.response_bytes
              (record d { clock = d.clock + 1 }) i.response (reads (d.clock + 1) _) h.response_there
              (decoded.response h.response_bytes h.response_made))
            (rw
              (load_part-ok codec.metadata_of (put_before directory "/metadata.json")
                h.metadata_bytes (record d { clock = d.clock + 1 + 1 }) i.metadata
                (reads (d.clock + 1 + 1) _) h.metadata_there
                (decoded.metadata h.metadata_bytes h.metadata_made))
              refl))

    -- Where no read fails, the id is valid and serde reads back what it wrote, an interaction that was
    -- persisted is loaded, by its id, as its redacted form.
    pub load-persist :
        (policy : RedactionPolicy) (i : Interaction) (stored : PersistedInteraction) (d d' : Disk)
        → persist faults serde codec new_regex urls root policy i d ≡ (ok stored, d')
        → is_valid_id stored.id ≡ true
        → IsDecoded serde codec (apply new_regex urls policy i)
        → (load faults serde codec new_regex urls root stored.id d').0
          ≡ ok (apply new_regex urls policy i)
    unfolding persist load
    load-persist policy i stored d d' e valid decoded =
        rw (valid, load)
          (Holds-loads _ (apply new_regex urls policy i) d'
            (persist-Holds (apply new_regex urls policy i) stored d d' e) decoded)
