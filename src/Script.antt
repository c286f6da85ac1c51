-- ===== src/Script.antt =====
-- Python statements that change an object of type `W` and may raise: the state and failure monad in
-- which the modules below write methods that talk to a controller.
use hci_controller.Base.{if◌then◌else◌, Exn, Result, ok, err, hci_error, hci_gone, ◌≡◌, ap, Bool}

-- What a method leaves: its result or exception, and the object.
pub record Ran {ℓ} (W : Type 0) (A : Type ℓ) : Type ℓ where
  pub result : Result A
  pub state : W

abbrev pub Script {ℓ} : Type 0 → Type ℓ → Type ℓ
Script W A = W → Ran W A

module _ {W : Type 0} where
  abbrev pub pure {ℓ} : {A : Type ℓ} → A → Script W A
  pure a w = record { result = ok a; state = w }

  abbrev pub raise {ℓ} : {A : Type ℓ} → Exn → Script W A
  raise e w = record { result = err e; state = w }

  infixl 5 ◌>>=◌ ◌>>◌
  unfoldable pub ◌>>=◌ {ℓ κ} :
      {A : Type ℓ} {B : Type κ} → Script W A → (A → Script W B) → Script W B
  ◌>>=◌ m f w =
      let o = m w in
      elim o.result [ err e ↦ record { result = err e; state = o.state } | ok a ↦ f a o.state ]

  -- A statement that does not raise, and what follows it.
  pub >>=-ok {ℓ κ} :
      {A : Type ℓ} {B : Type κ} (m : Script W A) (f : A → Script W B) {w v : W} {a : A}
      → m w ≡ record { result = ok a; state = v }
      → (m >>= f) w ≡ f a v
  unfolding ◌>>=◌
  >>=-ok m f e =
      ap
        (λ o. elim o.result [
          | err e ↦ record { result = err e; state = o.state }
          | ok a ↦ f a o.state
        ])
        e

  abbrev pub ◌>>◌ {ℓ} : {A : Type ℓ} → Script W (Unit {0}) → Script W A → Script W A
  m >> k = m >>= λ _. k

  abbrev pub done : Script W (Unit {0})
  done = pure tt

  abbrev pub get : Script W W
  get w = record { result = ok w; state = w }

  abbrev pub modify : (W → W) → Script W (Unit {0})
  modify f w = record { result = ok tt; state = f w }

  abbrev pub when : Bool → Script W (Unit {0}) → Script W (Unit {0})
  when b m = if b then m else done

  -- `try: ... except (HciError, HciGone): ...`
  abbrev pub rescue {ℓ} : {A : Type ℓ} → Script W A → Script W A → Script W A
  rescue m handler w =
      let o = m w in
      elim o.result [
        | ok a ↦ record { result = ok a; state = o.state }
        | err hci_error ↦ handler o.state
        | err hci_gone ↦ handler o.state
        | err e ↦ record { result = err e; state = o.state }
      ]

-- A part of the object, for a method of that part.
abbrev pub within {ℓ} :
    {W V : Type 0} {A : Type ℓ} → (V → W) → (W → V → V) → Script W A → Script V A
within part put m v = let o = m (part v) in record { result = o.result; state = put o.state v }
