-- ===== src/Model/Files/Laws.antt =====
-- What a write leaves behind, also where it fails: `write_atomic` of crates/model/src/corpus.rs.
use wire_assume.Prelude.{
  str_eq, if◌then◌else◌, Option-cases, Result, ok, err, BTreeMap, get, insert, get-insert, ℕ,
  String, ◌≡◌, refl, ap, ◌∙◌, ◌⊎◌, inl, inr, false, none, some, List, [], ◌∷◌, arith, eq_iff,
  eq_refl,
}
use wire_assume.Model.Files.{
  FileOp, Disk, erase, Faults, with_tmp, and_then, perform, write_file, delete_file, rename_file,
  clear_file, write_atomic,
}

pub and_then-ok :
    {X D A B : Type 0} (r : Result X A × D) (next : A → D → Result X B × D) (b : B) (d' : D)
    → and_then r next ≡ (ok b, d')
    → (a : A) × (d : D) × (r ≡ (ok a, d)) × (next a d ≡ (ok b, d'))
and_then-ok (ok a, d) next b d' e = (a, d, refl, e)
and_then-ok (err x, d) next b d' e = cc e

pub ok-pair :
    {X D A : Type 0} (a b : A) (d d' : D)
    → ◌≡◌ {A = Result X A × D} (ok a, d) (ok b, d')
    → (a ≡ b) × (d ≡ d')
ok-pair a b d d' e = (cc e, cc e)

pub get-erase :
    (k j : String) (m : BTreeMap (List ℕ))
    → get j (erase k m) ≡ (if str_eq k j then none else get j m)
unfolding erase get
get-erase k j [] = ground arith
get-erase k j ((i, w) ∷ m) = ground (arith, eq_iff k j, eq_iff i k, eq_iff i j, get-erase k j m)

-- Nothing but the two files differs.
abbrev pub SameBut : String → String → Disk → Disk → Type 0
SameBut a b d d' =
    (other : String)
    → str_eq a other ≡ false
    → str_eq b other ≡ false
    → get other d'.files ≡ get other d.files

module _ {Io : Type 0} (faults : Faults Io) where
  -- How an operation ends: with the change, or with an error.
  abbrev Ends : Result Io (Unit {0}) × Disk → (Disk → Type 0) → (Disk → Type 0) → Type 0
  Ends r Done Failed =
      ((d : Disk) × (r ≡ (ok tt, d)) × Done d)
      ⊎ ((e : Io) × (d : Disk) × (r ≡ (err e, d)) × Failed d)

  write_file-cases :
      (path : String) (bytes : List ℕ) (d : Disk)
      → Ends
          (write_file faults path bytes d)
          (λ k. k.files ≡ insert path bytes d.files)
          (λ k.
            (other : String) → str_eq path other ≡ false → get other k.files ≡ get other d.files)
  unfolding write_file
  write_file-cases path bytes d = elim (Option-cases (faults.fault d.clock (FileOp.write path))) [
    | inl fine ↦ rw (fine, write_file) (inl (_, refl, refl))
    | inr (e, fails) ↦
        rw (fails, write_file)
          (inr (
            e,
            _,
            refl,
            λ other h. ground (arith, get-insert path other (faults.left d.clock bytes) d.files),
          ))
  ]

  clear_file-cases :
      (path : String) (d : Disk)
      → Ends
          (clear_file faults path d)
          (λ k. (j : String) → get j k.files ≡ (if str_eq path j then none else get j d.files))
          (λ k. k.files ≡ d.files)
  unfolding clear_file delete_file perform
  clear_file-cases path d = elim (Option-cases (get path d.files)) [
    | inl missing ↦
        rw (missing, clear_file)
          (inl (d, refl, λ j. ground (arith, eq_iff path j, ap (λ k. get k d.files))))
    | inr (old, there) ↦ elim (Option-cases (faults.fault d.clock (FileOp.remove_file path))) [
      | inl fine ↦
          rw (there, clear_file) (rw (fine, perform) (inl (_, refl, λ j. get-erase path j d.files)))
      | inr (e, fails) ↦ rw (there, clear_file) (rw (fails, perform) (inr (e, _, refl, refl)))
    ]
  ]

  rename_file-cases :
      (from to : String) (bytes : List ℕ) (d : Disk)
      → get from d.files ≡ some bytes
      → Ends
          (rename_file faults from to d)
          (λ k. k.files ≡ insert to bytes (erase from d.files))
          (λ k. k.files ≡ d.files)
  unfolding rename_file perform
  rename_file-cases from to bytes d there =
      elim (Option-cases (faults.fault d.clock (FileOp.rename from to))) [
        | inl fine ↦ rw (there, rename_file) (rw (fine, perform) (inl (_, refl, refl)))
        | inr (e, fails) ↦ rw (there, rename_file) (rw (fails, perform) (inr (e, _, refl, refl)))
      ]

module _ {Io : Type 0} (faults : Faults Io) (path : String) (bytes : List ℕ)
    (apart : str_eq (with_tmp path) path ≡ false) where
  -- Of the file at the path: all of the text, or what was there, or, with the text complete in the other
  -- file, nothing.
  abbrev pub Written : Result Io (Unit {0}) → Disk → Disk → Type 0
  Written (ok _) d d' = get path d'.files ≡ some bytes
  Written (err _) d d' =
      (get path d'.files ≡ get path d.files)
      ⊎ ((get path d'.files ≡ none) × (get (with_tmp path) d'.files ≡ some bytes))

  -- The last step, after the text is in the temporary file and the old file is gone.
  rename-Written :
      (d d2 : Disk)
      → ((j : String)
          → get j d2.files ≡ (
              if str_eq path j
              then none
              else if str_eq (with_tmp path) j
              then some bytes
              else get j d.files))
      → Written
          (rename_file faults (with_tmp path) path d2).0
          d
          (rename_file faults (with_tmp path) path d2).1
        × SameBut path (with_tmp path) d (rename_file faults (with_tmp path) path d2).1
  rename-Written d d2 now =
      let other_way : str_eq path (with_tmp path) ≡ false =
        ground (arith, eq_iff path (with_tmp path), eq_iff (with_tmp path) path, apart) in
      let there : get (with_tmp path) d2.files ≡ some bytes =
        ground (arith, now (with_tmp path), eq_refl (with_tmp path)) in
      elim (rename_file-cases faults (with_tmp path) path bytes d2 there) [
        | inl (d3, fine, done) ↦
            let after : (j : String)
                → get j d3.files
                  ≡ (if str_eq path j then some bytes else get j (erase (with_tmp path) d2.files)) =
              λ j. ap (get j) done ∙ get-insert path j bytes (erase (with_tmp path) d2.files) in
            rw fine (
              ground (arith, after path, eq_refl path),
              λ other h k.
                  ground (arith, after other, get-erase (with_tmp path) other d2.files, now other),
            )
        | inr (e, d3, fails, same) ↦ rw fails (
          inr (
            ap (get path) same ∙ ground (arith, now path, eq_refl path),
            ap (get (with_tmp path)) same ∙ there,
          ),
          λ other h k. ap (get other) same ∙ ground (arith, now other),
        )
      ]

  -- After a write to a file, whether it failed or not, the file has the new text, or what it had, or it is
  -- missing and the text is complete in the temporary file; no third file is changed.
  pub write_atomic-Written :
      (d : Disk)
      → Written (write_atomic faults path bytes d).0 d (write_atomic faults path bytes d).1
        × SameBut path (with_tmp path) d (write_atomic faults path bytes d).1
  unfolding write_atomic
  write_atomic-Written d = elim (write_file-cases faults (with_tmp path) bytes d) [
    | inr (e, d1, fails, kept) ↦
        rw (fails, write_atomic) (inl (kept path apart), λ other h k. kept other k)
    | inl (d1, fine, now) ↦
        let first : (j : String)
            → get j d1.files ≡ (if str_eq (with_tmp path) j then some bytes else get j d.files) =
          λ j. ap (get j) now ∙ get-insert (with_tmp path) j bytes d.files in
        elim (clear_file-cases faults path d1) [
          | inr (e, d2, fails, same) ↦
              rw (fine, fails, write_atomic)
                (
                  inl (ap (get path) same ∙ ground (arith, first path, apart)),
                  λ other h k. ap (get other) same ∙ ground (arith, first other),
                )
          | inl (d2, cleared, gone) ↦
              rw (fine, cleared, write_atomic)
                (rename-Written d d2 (λ j. ground (arith, gone j, first j)))
        ]
  ]
