-- ===== src/Base/Options.antt =====
-- Inversions of chains of optional results.
use mathlib.Core.Option
use mathlib.Core.Option.{Option, none, some}
use mathlib.Core.Path.{◌≡◌, refl, ap}

pub some-inj {ℓ} : {A : Type ℓ} {a b : A} → some a ≡ some b → a ≡ b
some-inj h = cc h

module _ {ℓ} {A B : Type ℓ} where
  pub map-inv :
      (f : A → B) (o : Option A) {b : B}
      → Option.map f o ≡ some b
      → (a : A) × (o ≡ some a) × (f a ≡ b)
  map-inv f none h = cc h
  map-inv f (some a) h = (a, refl, some-inj h)

  -- What one result gives, `f` of it gives.
  pub map-given :
      (f : A → B) (o : Option A) → (a : A) × (o ≡ some a) → (b : B) × (Option.map f o ≡ some b)
  map-given f o (a, e) = (f a, ap (Option.map f) e)
