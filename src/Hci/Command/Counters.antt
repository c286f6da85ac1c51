-- ===== src/Hci/Command/Counters.antt =====
-- The counter block of the vendor command that `Hci.read_counters` reads.
use hci_controller.Base.{
  ◌==◌, if◌then◌else◌, Bool-cases, length, All, length-append, u32, ℕ, ◌*◌, ◌/◌, ◌<◌, ◌≡◌, refl, ap,
  ap₂, inl, inr, none, some, List, [], ◌∷◌, ◌++◌, arith,
}
use hci_controller.Hci.Command.{counters, read_values}

-- The octets of a block behind its version.
abbrev pub block : List ℕ → List ℕ
block [] = []
block (v ∷ vs) = u32 v ++ block vs

length-block : (vs : List ℕ) → length (block vs) ≡ 4 * length vs
length-block [] = refl
length-block (v ∷ vs) = omega (arith, length-block vs)

counters-block :
    (vs rest : List ℕ) → All (λ v. v < 4294967296) vs → counters (length vs) (block vs ++ rest) ≡ vs
unfolding counters
counters-block [] rest hs = refl
counters-block (v ∷ vs) rest hs = ap₂ ◌∷◌ (omega (arith, hs.0)) (counters-block vs rest hs.1)

-- A block of counters of 32 bits is read back whole, whatever its version and although up to three
-- octets follow it; nothing is read where the status is not 0.
pub read_values-block :
    (status version : ℕ) (vs rest : List ℕ)
    → All (λ v. v < 4294967296) vs
    → length rest < 4
    → read_values (status, version ∷ (block vs ++ rest)) ≡ (if status == 0 then some vs else none)
unfolding read_values
read_values-block status version vs rest hs short =
    let size : length (block vs ++ rest) / 4 ≡ length vs =
      omega (arith, length-append (block vs) rest, length-block vs) in
    elim (Bool-cases (status == 0)) [
      | inl e ↦ rw (e, size) (ap some (counters-block vs rest hs))
      | inr e ↦ rw e refl
    ]
