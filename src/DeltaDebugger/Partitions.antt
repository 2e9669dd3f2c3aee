-- ===== src/DeltaDebugger/Partitions.antt =====
-- `partitions`, `slice` and `complement` of crates/delta-debugger/src/lib.rs.
use wire_assume.Prelude.{
  All-mp, ℕ, zero, suc, ◌+◌, ◌-◌, ◌*◌, ◌/◌, ◌%◌, ◌≤◌, ◌<◌, min, ltb, if◌then◌else◌, ap₂, ◌≡⟨◌⟩◌, ◌∎,
  ◌≡◌, refl, sym, ap, subst, ◌∙◌, List, [], ◌∷◌, ◌++◌, arith, length, take, drop, length-take,
  length-drop, length-append, All,
}
use wire_assume.DeltaDebugger.{partitions_from, partitions, slice, complement}

-- A range that holds something, ends by `len`, and is at most `width` long.
pub record IsRange (len width : ℕ) (r : ℕ × ℕ) : Type 0 where
  pub nonempty : r.0 < r.1
  pub within : r.1 ≤ len
  pub narrow : r.1 ≤ r.0 + width

partitions_from-IsRange :
    (base remainder index left start : ℕ) {len width : ℕ}
    → 1 ≤ base
    → start + left * base + (min (index + left) remainder - min index remainder) ≤ len
    → base + min 1 remainder ≤ width
    → All (IsRange len width) (partitions_from base remainder index left start)
unfolding partitions_from
partitions_from-IsRange base remainder index zero start some_base fits wide = tt
partitions_from-IsRange base remainder index (suc left) start some_base fits wide = (
  record { nonempty = ground arith; within = ground arith; narrow = ground arith },
  partitions_from-IsRange base remainder (index + 1) left _ some_base (ground arith) wide,
)

-- `len / n` and `len % n` in a range's bounds.
pub partitions-IsRange :
    (len n : ℕ) → 1 ≤ n → n ≤ len → All (IsRange len (len / n + min 1 (len % n))) (partitions len n)
unfolding partitions
partitions-IsRange len n some_n fits =
    partitions_from-IsRange (len / n) (len % n) 0 n 0 (grind arith) (grind arith) (grind arith)

-- Cut into at least two parts, every part is shorter than the whole.
pub width-lt : (len n : ℕ) → 2 ≤ n → n ≤ len → len / n + min 1 (len % n) < len
width-lt len n h fits = grind arith

module _ {A : Type 0} where
  take-nil : (n : ℕ) → take {A = A} n [] ≡ []
  take-nil zero = refl
  take-nil (suc n) = refl

  drop-nil : (n : ℕ) → drop {A = A} n [] ≡ []
  drop-nil zero = refl
  drop-nil (suc n) = refl

  take-take-drop : (a b : ℕ) (xs : List A) → take a xs ++ take b (drop a xs) ≡ take (a + b) xs
  take-take-drop zero b xs = ap (λ k. take k xs) (omega arith)
  take-take-drop (suc a) b [] = rw (take-nil b, take-nil (suc a + b))
  take-take-drop (suc a) b (x ∷ xs) =
      let e : suc a + b ≡ suc (a + b) = omega arith in
      rw e (ap (λ l. x ∷ l) (take-take-drop a b xs))

  pub drop-drop : (a b : ℕ) (xs : List A) → drop b (drop a xs) ≡ drop (a + b) xs
  drop-drop zero b xs = ap (λ k. drop k xs) (omega arith)
  drop-drop (suc a) b [] = rw (drop-nil b, drop-nil (suc a + b))
  drop-drop (suc a) b (x ∷ xs) =
      let e : suc a + b ≡ suc (a + b) = omega arith in rw e (drop-drop a b xs)

  take_all : (n : ℕ) (xs : List A) → length xs ≤ n → take n xs ≡ xs
  take_all n [] h = take-nil n
  take_all zero (x ∷ xs) h = absurd (omega arith)
  take_all (suc n) (x ∷ xs) h = ap (λ l. x ∷ l) (take_all n xs (omega arith))

  -- The parts, one after the other.
  abbrev pub pieces : List A → List (ℕ × ℕ) → List A
  pieces items [] = []
  pieces items (range ∷ ranges) = slice items range ++ pieces items ranges

  pieces-partitions_from :
      (items : List A) (base remainder index left start : ℕ)
      → pieces items (partitions_from base remainder index left start)
        ≡ take
            (left * base + (min (index + left) remainder - min index remainder))
            (drop start items)
  unfolding partitions_from slice
  pieces-partitions_from items base remainder index zero start =
      let e : 0 * base + (min (index + 0) remainder - min index remainder) ≡ 0 = omega arith in rw e
  pieces-partitions_from items base remainder index (suc left) start =
      let size : ℕ = base + (if ltb index remainder then 1 else 0) in
      let after : ℕ =
        left * base + (min (index + 1 + left) remainder - min (index + 1) remainder) in
      let rest : List A = drop start items in
      take (start + size - start) rest
        ++ pieces items (partitions_from base remainder (index + 1) left (start + size))
      ≡⟨ ap₂ (λ k l. take k rest ++ l) (omega arith)
          (pieces-partitions_from items base remainder (index + 1) left (start + size)) ⟩
        take size rest ++ take after (drop (start + size) items)
      ≡⟨ ap (λ l. take size rest ++ take after l) (sym (drop-drop start size items)) ⟩
        take size rest ++ take after (drop size rest)
      ≡⟨ take-take-drop size after rest ⟩ take (size + after) rest
      ≡⟨ ap (λ k. take k rest) (ground arith) ⟩
        take (suc left * base + (min (index + suc left) remainder - min index remainder)) rest ∎

-- For at least one part, the parts that `partitions` makes, put together, are the whole list.
pub pieces-partitions :
    {A : Type 0} (items : List A) (n : ℕ)
    → 0 < n
    → pieces items (partitions (length items) n) ≡ items
unfolding partitions
pieces-partitions items n some_n =
    pieces-partitions_from items (length items / n) (length items % n) 0 n 0
    ∙ take_all _ items (grind arith)

-- With as many parts as elements, the parts are the single elements.
singles :
    (P : ℕ × ℕ → Type 0) (i left index start : ℕ)
    → All P (partitions_from 1 0 index left start)
    → i < left
    → P (start + i, start + i + 1)
unfolding partitions_from
singles P i zero index start all h = absurd (omega arith)
singles P zero (suc left) index start all h =
    subst P (ap₂ (λ a b. (a, b)) (omega arith) (ground arith)) all.0
singles P (suc i) (suc left) index start all h =
    subst P (ap₂ (λ a b. (a, b)) (ground arith) (ground arith))
      (singles P i left (index + 1) _ all.1 (omega arith))

pub partitions-singles :
    (P : ℕ × ℕ → Type 0) (len i : ℕ) → All P (partitions len len) → i < len → P (i, i + 1)
unfolding partitions
partitions-singles P len i all h =
    let quotient : len / len ≡ 1 = grind arith in
    let remainder : len % len ≡ 0 = grind arith in
    let all' : All P (partitions_from 1 0 0 len 0) = rw (quotient, remainder) at all in
    subst P (ap₂ (λ a b. (a, b)) (omega arith) (omega arith)) (singles P i len 0 0 all' h)

module _ {A : Type 0} (items : List A) {width : ℕ} (r : ℕ × ℕ) where
  length-slice-pos : IsRange (length items) width r → 0 < length (slice items r)
  unfolding slice
  length-slice-pos h =
      omega (
        arith,
        h.nonempty,
        h.within,
        length-take (r.1 - r.0) (drop r.0 items),
        length-drop r.0 items,
      )

  length-complement-pos :
      width < length items → IsRange (length items) width r → 0 < length (complement items r)
  unfolding complement
  length-complement-pos short h = omega (
    arith,
    h.narrow,
    h.within,
    length-append (take r.0 items) (drop r.1 items),
    length-take r.0 items,
    length-drop r.1 items,
  )

  length-complement-lt : IsRange (length items) width r → length (complement items r) < length items
  unfolding complement
  length-complement-lt h = omega (
    arith,
    h.nonempty,
    h.within,
    length-append (take r.0 items) (drop r.1 items),
    length-take r.0 items,
    length-drop r.1 items,
  )

  length-slice-lt :
      width < length items → IsRange (length items) width r → length (slice items r) < length items
  unfolding slice
  length-slice-lt short h =
      omega (arith, h.narrow, length-take (r.1 - r.0) (drop r.0 items), length-drop r.0 items)

-- A part cut out, and what is left without it: both are shorter than the whole.
module _ {A : Type 0} (items : List A) (n : ℕ) (many : 2 ≤ n) (fits : n ≤ length items) where
  abbrev width : ℕ
  width = length items / n + min 1 (length items % n)

  ranges : All (IsRange (length items) width) (partitions (length items) n)
  ranges = partitions-IsRange (length items) n (omega arith) fits

  pub complement-shorter :
      All (λ r. length (complement items r) < length items) (partitions (length items) n)
  complement-shorter =
      All-mp (IsRange (length items) width) (λ r. length (complement items r) < length items) _
        (length-complement-lt items) ranges

  pub slice-shorter : All (λ r. length (slice items r) < length items) (partitions (length items) n)
  slice-shorter =
      All-mp (IsRange (length items) width) (λ r. length (slice items r) < length items) _
        (λ r. length-slice-lt items r (width-lt _ n many fits)) ranges

  pub slice-nonempty : All (λ r. 0 < length (slice items r)) (partitions (length items) n)
  slice-nonempty =
      All-mp (IsRange (length items) width) (λ r. 0 < length (slice items r)) _
        (length-slice-pos items) ranges

  pub complement-nonempty : All (λ r. 0 < length (complement items r)) (partitions (length items) n)
  complement-nonempty =
      All-mp (IsRange (length items) width) (λ r. 0 < length (complement items r)) _
        (λ r. length-complement-pos items r (width-lt _ n many fits)) ranges
