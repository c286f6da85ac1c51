-- ===== src/Base/Tests.antt =====
-- Boolean tests on the native numbers and on octet strings, and the conditional.
use Prim.Native.Nat.{ℕ, ◌≤◌, ◌<◌, compare, Ordering}
use mathlib.Core.Path.{◌≡◌, refl, ap₂, subst}
use mathlib.Core.Logic.{◌⊎◌, inl, inr}
use mathlib.Core.Bool.{Bool, true, false, ◌&&◌}
use mathlib.Core.List.{List, [], ◌∷◌}
use mathlib.Core.Option.{Option, none, some}
use native.Mathlib.Omega.{arith}

abbrev pub ltb : ℕ → ℕ → Bool
ltb a b = elim (compare a b) [ Ordering.lt ↦ true | _ ↦ false ]

abbrev pub leb : ℕ → ℕ → Bool
leb a b = elim (compare a b) [ Ordering.gt ↦ false | _ ↦ true ]

infix 50 ◌==◌
abbrev pub ◌==◌ : ℕ → ℕ → Bool
a == b = elim (compare a b) [ Ordering.eq ↦ true | _ ↦ false ]

infix 1 if◌then◌else◌
abbrev pub if◌then◌else◌ {ℓ} : {A : Type ℓ} → Bool → A → A → A
if true then x else y = x
if false then x else y = y

pub ltb→lt : (a b : ℕ) → ltb a b ≡ true → a < b
ltb→lt a b h = ground arith

pub lt→ltb : (a b : ℕ) → a < b → ltb a b ≡ true
lt→ltb a b h = ground arith

pub le→ltb : (a b : ℕ) → b ≤ a → ltb a b ≡ false
le→ltb a b h = ground arith

pub le→leb : {a b : ℕ} → a ≤ b → leb a b ≡ true
le→leb h = ground arith

pub lt→leb : (a b : ℕ) → a < b → leb b a ≡ false
lt→leb a b h = ground arith

pub ==_refl : (a : ℕ) → (a == a) ≡ true
==_refl a = ground arith

pub ==→eq : (a b : ℕ) → (a == b) ≡ true → a ≡ b
==→eq a b h = ground arith

pub ltb→ge : (a b : ℕ) → ltb a b ≡ false → b ≤ a
ltb→ge a b h = ground arith

pub Bool-cases : (b : Bool) → (b ≡ true) ⊎ (b ≡ false)
Bool-cases true = inl refl
Bool-cases false = inr refl

pub Option-cases {ℓ} : {A : Type ℓ} (o : Option A) → (o ≡ none) ⊎ ((a : A) × (o ≡ some a))
Option-cases none = inl refl
Option-cases (some a) = inr (a, refl)

-- Python's `==` on `bytes`.
unfoldable pub bytes_eq : List ℕ → List ℕ → Bool
bytes_eq [] [] = true
bytes_eq [] (y ∷ ys) = false
bytes_eq (x ∷ xs) [] = false
bytes_eq (x ∷ xs) (y ∷ ys) = (x == y) && bytes_eq xs ys

pub bytes_eq_refl : (xs : List ℕ) → bytes_eq xs xs ≡ true
unfolding bytes_eq
bytes_eq_refl [] = refl
bytes_eq_refl (x ∷ xs) = ground (arith, bytes_eq_refl xs)

pub bytes_eq→eq : (xs ys : List ℕ) → bytes_eq xs ys ≡ true → xs ≡ ys
unfolding bytes_eq
bytes_eq→eq [] [] h = refl
bytes_eq→eq [] (y ∷ ys) h = cc
bytes_eq→eq (x ∷ xs) [] h = cc
bytes_eq→eq (x ∷ xs) (y ∷ ys) h = ap₂ ◌∷◌ (ground arith) (bytes_eq→eq xs ys (ground arith))

pub bytes_ne :
    (a b a' b' : List ℕ) → (bytes_eq a b && bytes_eq a' b') ≡ false → ¬ ((a ≡ b) × (a' ≡ b'))
bytes_ne a b a' b' h (e, f) = cc (
  h,
  subst (λ t. bytes_eq a t ≡ true) e (bytes_eq_refl a),
  subst (λ t. bytes_eq a' t ≡ true) f (bytes_eq_refl a'),
)
