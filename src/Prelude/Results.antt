-- ===== src/Prelude/Results.antt =====
-- Rust's `Result`, and `?` as its bind.

use mathlib.Core.Path.{◌≡◌, refl}
use mathlib.Core.Logic.{◌≢◌}

pub data Result {ℓ κ} (E : Type ℓ) (A : Type κ) : Type (ℓ ⊔ κ) where
  ok : A → Result E A
  err : E → Result E A

infixl 5 ◌>>=◌
abbrev pub ◌>>=◌ {ℓ} : {E A B : Type ℓ} → Result E A → (A → Result E B) → Result E B
ok found >>= next = next found
err why >>= next = err why

-- The parts of a chain that succeeded.
pub >>=-eq-ok {ℓ} :
    {E A B : Type ℓ} (first : Result E A) (next : A → Result E B) {last : B}
    → (first >>= next) ≡ ok last
    → (found : A) × (first ≡ ok found) × (next found ≡ ok last)
>>=-eq-ok (ok found) next e = (found, refl, e)
>>=-eq-ok (err why) next e = cc

-- A chain whose parts do not fail so does not fail so.
pub >>=-ne-err {ℓ} :
    {E A B : Type ℓ} (m : Result E A) (f : A → Result E B) (e : E)
    → m ≢ err e
    → ((a : A) → m ≡ ok a → f a ≢ err e)
    → (m >>= f) ≢ err e
>>=-ne-err (ok a) f e h k = k a refl
>>=-ne-err (err e') f e h k = λ same. h (cc same)

pub ok-ne-err {ℓ} : {E A : Type ℓ} (a : A) (e : E) → ◌≢◌ {A = Result E A} (ok a) (err e)
ok-ne-err a e same = cc same
