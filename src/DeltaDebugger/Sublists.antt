-- ===== src/DeltaDebugger/Sublists.antt =====
-- What crates/delta-debugger/src/lib.rs returns keeps the order of its input.
use mathlib.Core.List.Sublist
use mathlib.Core.List.{Sublist, nil-sublist}
use wire_assume.DeltaDebugger.{slice, complement}
use wire_assume.Prelude.{ℕ, zero, suc, ◌-◌, ◌≤◌, ◌<◌, List, [], ◌∷◌, ◌++◌, arith, take, drop}

module _ {A : Type 0} where
  drop-sublist : (n : ℕ) (xs : List A) → Sublist (drop n xs) xs
  drop-sublist zero xs = Sublist.refl xs
  drop-sublist (suc n) [] = Sublist.refl []
  drop-sublist (suc n) (x ∷ xs) = Sublist.cons x (drop-sublist n xs)

  take-sublist : (n : ℕ) (xs : List A) → Sublist (take n xs) xs
  take-sublist zero xs = nil-sublist xs
  take-sublist (suc n) [] = Sublist.refl []
  take-sublist (suc n) (x ∷ xs) = Sublist.cons-cons x (take-sublist n xs)

  take-append-drop-sublist : (a b : ℕ) (xs : List A) → a ≤ b → Sublist (take a xs ++ drop b xs) xs
  take-append-drop-sublist zero b xs h = drop-sublist b xs
  take-append-drop-sublist (suc a) zero xs h = absurd (omega arith)
  take-append-drop-sublist (suc a) (suc b) [] h = Sublist.refl []
  take-append-drop-sublist (suc a) (suc b) (x ∷ xs) h =
      Sublist.cons-cons x (take-append-drop-sublist a b xs (omega arith))

  pub slice-sublist : (xs : List A) (r : ℕ × ℕ) → Sublist (slice xs r) xs
  unfolding slice
  slice-sublist xs r = Sublist.trans (take-sublist (r.1 - r.0) (drop r.0 xs)) (drop-sublist r.0 xs)

  pub complement-sublist : (xs : List A) (r : ℕ × ℕ) → r.0 < r.1 → Sublist (complement xs r) xs
  unfolding complement
  complement-sublist xs r h = take-append-drop-sublist r.0 r.1 xs (omega arith)
