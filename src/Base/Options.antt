-- ===== src/Base/Options.antt =====
-- What holds of every result of a computation that may fail.
use mathlib.Core.Path.{◌≡◌, refl, subst}
use mathlib.Core.Bool.{Bool, true, false}
use velox_dfs.Base.Tests.{if◌then◌else◌, ◌>>=◌}
use mathlib.Core.Option.{Option, none, some, some-injective}

abbrev pub Always {ℓ κ} : {A : Type ℓ} → (A → Type κ) → Option A → Type (ℓ ⊔ κ)
Always {A = A} P o = (a : A) → o ≡ some a → P a

module _ {ℓ κ} {A : Type ℓ} (P : A → Type κ) where
  pub some-Always : (a : A) → P a → Always P (some a)
  some-Always a p b e = subst P (some-injective _ _ e) p

  pub if-Always :
      (b : Bool) (x y : Option A) → Always P x → Always P y → Always P (if b then x else y)
  if-Always true x y p q = p
  if-Always false x y p q = q

  pub else-Always :
      (b : Bool) (x y : Option A) → b ≡ false → Always P y → Always P (if b then x else y)
  else-Always b x y off h = rw off h

  pub bind-Always {μ} :
      {B : Type μ} (o : Option B) (f : B → Option A)
      → ((b : B) → o ≡ some b → Always P (f b))
      → Always P (o >>= f)
  bind-Always none f h a e = absurd (cc)
  bind-Always (some b) f h a e = h b refl a e

  pub none-Always : Always P none
  none-Always a e = absurd (cc)
