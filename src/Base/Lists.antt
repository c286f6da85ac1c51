-- ===== src/Base/Lists.antt =====
-- Lists measured, indexed and sliced by native numbers, under the library's names.
use Prim.Native.Nat.{ℕ, zero, suc, ◌+◌, ◌-◌, min, ◌≤◌}
use mathlib.Core.Path.{◌≡◌, refl, ap, ◌∙◌}
use mathlib.Core.List.{List, [], ◌∷◌, ◌++◌, reverse, reverse-append}
use mathlib.Core.Logic.{◌⊎◌, inl, inr}
use mathlib.Core.Option.{Option, none, some}
use native.Mathlib.Omega.{arith}

module _ {ℓ} {A : Type ℓ} where
  abbrev pub length : List A → ℕ
  length [] = 0
  length (x ∷ xs) = suc (length xs)

  abbrev pub get_elem? : List A → ℕ → Option A
  get_elem? [] i = none
  get_elem? (x ∷ xs) zero = some x
  get_elem? (x ∷ xs) (suc i) = get_elem? xs i

  abbrev pub get_or : List A → ℕ → A → A
  get_or [] i d = d
  get_or (x ∷ xs) zero d = x
  get_or (x ∷ xs) (suc i) d = get_or xs i d

  abbrev pub take : ℕ → List A → List A
  take zero xs = []
  take (suc n) [] = []
  take (suc n) (x ∷ xs) = x ∷ take n xs

  abbrev pub drop : ℕ → List A → List A
  drop zero xs = xs
  drop (suc n) [] = []
  drop (suc n) (x ∷ xs) = drop n xs

  abbrev pub replicate : ℕ → A → List A
  replicate zero a = []
  replicate (suc n) a = a ∷ replicate n a

  -- Python's `xs[i:j]`.
  abbrev pub slice : List A → ℕ → ℕ → List A
  slice xs i j = take (j - i) (drop i xs)

  abbrev pub All {κ} : (A → Type κ) → List A → Type κ
  All P [] = Unit {κ}
  All P (x ∷ xs) = P x × All P xs

module _ {ℓ} {A : Type ℓ} where
  pub length-append : (xs ys : List A) → length (xs ++ ys) ≡ length xs + length ys
  length-append [] ys = omega arith
  length-append (x ∷ xs) ys = omega (arith, length-append xs ys)

  pub take-length_append : (xs ys : List A) → take (length xs) (xs ++ ys) ≡ xs
  take-length_append [] ys = refl
  take-length_append (x ∷ xs) ys = ap (◌∷◌ x) (take-length_append xs ys)

  pub drop-length_append : (xs ys : List A) → drop (length xs) (xs ++ ys) ≡ ys
  drop-length_append [] ys = refl
  drop-length_append (x ∷ xs) ys = drop-length_append xs ys

  pub take-append_of_eq : (n : ℕ) (xs ys : List A) → n ≡ length xs → take n (xs ++ ys) ≡ xs
  take-append_of_eq n xs ys e = rw e (take-length_append xs ys)

  pub drop-append_of_eq : (n : ℕ) (xs ys : List A) → n ≡ length xs → drop n (xs ++ ys) ≡ ys
  drop-append_of_eq n xs ys e = rw e (drop-length_append xs ys)

  pub take-append-drop : (n : ℕ) (xs : List A) → take n xs ++ drop n xs ≡ xs
  take-append-drop zero xs = refl
  take-append-drop (suc n) [] = refl
  take-append-drop (suc n) (x ∷ xs) = rw (take-append-drop n xs)

  pub length-take : (n : ℕ) (xs : List A) → length (take n xs) ≡ min n (length xs)
  length-take zero xs = omega arith
  length-take (suc n) [] = omega arith
  length-take (suc n) (x ∷ xs) = omega (arith, length-take n xs)

  pub length-drop : (n : ℕ) (xs : List A) → length (drop n xs) ≡ length xs - n
  length-drop zero xs = omega arith
  length-drop (suc n) [] = omega arith
  length-drop (suc n) (x ∷ xs) = omega (arith, length-drop n xs)

  pub length-replicate : (n : ℕ) (a : A) → length (replicate n a) ≡ n
  length-replicate zero a = refl
  length-replicate (suc n) a = ap suc (length-replicate n a)

  -- Where two lists in a row agree with two others, the first of them is the shorter, or it holds
  -- the other first one.
  pub split_front :
      (w rest rx more : List A)
      → rx ++ more ≡ w ++ rest
      → ((r : List A) × (rx ≡ w ++ r) × (r ++ more ≡ rest))
        ⊎ ((x : A) × (back : List A) × (w ≡ rx ++ (x ∷ back)))
  split_front [] rest rx more e = inl (rx, refl, e)
  split_front (x ∷ w) rest [] more e = inr (x, w, refl)
  split_front (x ∷ w) rest (y ∷ rx) more e = elim (split_front w rest rx more (cc e)) [
    | inl (r, a, b) ↦ inl (r, cc, b)
    | inr (z, back, a) ↦ inr (z, back, cc)
  ]

  pub append-eq-nil : (xs ys : List A) → xs ++ ys ≡ [] → (xs ≡ []) × (ys ≡ [])
  append-eq-nil [] ys e = (refl, e)
  append-eq-nil (x ∷ xs) ys e = cc

  pub List-cases : (xs : List A) → (xs ≡ []) ⊎ ((x : A) × (ys : List A) × (xs ≡ x ∷ ys))
  List-cases [] = inl refl
  List-cases (x ∷ xs) = inr (x, xs, refl)

  pub take_all : (xs : List A) → take (length xs) xs ≡ xs
  take_all [] = refl
  take_all (x ∷ xs) = ap (◌∷◌ x) (take_all xs)

  pub take_of_le : (n : ℕ) (xs : List A) → length xs ≤ n → take n xs ≡ xs
  take_of_le zero [] h = refl
  take_of_le (suc n) [] h = refl
  take_of_le zero (x ∷ xs) h = let no : ⊥ = omega (arith, h) in elim no [ ]
  take_of_le (suc n) (x ∷ xs) h = ap (◌∷◌ x) (take_of_le n xs (omega (arith, h)))

  pub All-snoc {κ} :
      (P : A → Type κ) (xs : List A) (x : A) → All P xs → P x → All P (xs ++ (x ∷ []))
  All-snoc P [] x h p = (p, tt)
  All-snoc P (y ∷ ys) x h p = (h.0, All-snoc P ys x h.1 p)

  pub length-reverse : (xs : List A) → length (reverse xs) ≡ length xs
  length-reverse [] = refl
  length-reverse (x ∷ xs) =
      ap length (reverse-append (x ∷ []) xs)
      ∙ omega (arith, length-append (reverse xs) (x ∷ []), length-reverse xs)

  drop_past : (k n : ℕ) (xs ys : List A) → n ≡ k + length xs → drop n (xs ++ ys) ≡ drop k ys
  drop_past k n [] ys e = ap (λ m. drop m ys) (omega arith)
  drop_past k zero (x ∷ xs) ys e = absurd (omega arith)
  drop_past k (suc n) (x ∷ xs) ys e = drop_past k n xs ys (omega arith)

  pub slice_past :
      (k l i j : ℕ) (xs ys : List A)
      → i ≡ k + length xs
      → j ≡ l + length xs
      → slice (xs ++ ys) i j ≡ slice ys k l
  slice_past k l i j xs ys ei ej =
      ap (take (j - i)) (drop_past k i xs ys ei) ∙ ap (λ m. take m (drop k ys)) (omega arith)
