-- ===== src/Base/Error.antt =====
-- The Python exceptions of the library, and results that carry one. A message's text is not kept.
use mathlib.Core.Path.{◌≡◌, refl}
use mathlib.Core.Logic.{◌⊎◌, inl, inr}
use mathlib.Core.Bool.{Bool, true, false}

pub data Exn : Type 0 where
  transport_error transport_gone selection_error : Exn
  hci_error hci_gone struct_error index_error key_error value_error pairing_error runtime_error :
      Exn

pub data Result {ℓ} (A : Type ℓ) : Type ℓ where
  ok : A → Result A
  err : Exn → Result A

module _ {ℓ} {A : Type ℓ} where
  -- Whether no exception was raised.
  abbrev pub is_ok : Result A → Bool
  is_ok (err x) = false
  is_ok (ok value) = true

  pub is_ok→ok : (r : Result A) → is_ok r ≡ true → (value : A) × (r ≡ ok value)
  is_ok→ok (err x) h = cc
  is_ok→ok (ok value) h = (value, refl)

  pub Result-cases : (r : Result A) → ((x : Exn) × (r ≡ err x)) ⊎ ((value : A) × (r ≡ ok value))
  Result-cases (err x) = inl (x, refl)
  Result-cases (ok value) = inr (value, refl)

  infixl 5 ◌>>=◌
  -- An exception ends the rest of the block.
  abbrev pub ◌>>=◌ {κ} : {B : Type κ} → Result A → (A → Result B) → Result B
  err x >>= next = err x
  ok value >>= next = next value

  -- What a block that returns has gone through.
  pub bind_returns {κ} :
      {B : Type κ} {back : B} (step : Result A) (next : A → Result B)
      → step >>= next ≡ ok back
      → (value : A) × (step ≡ ok value) × (next value ≡ ok back)
  bind_returns step next h = elim (Result-cases step) [
    | inr (value, e) ↦ (value, e, rw e at h)
    | inl (x, e) ↦ absurd (cc (rw e at h))
  ]

  pub ok-injective : (a b : A) → ok a ≡ ok b → a ≡ b
  ok-injective a b e = cc
