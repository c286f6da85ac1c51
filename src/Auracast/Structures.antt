-- ===== src/Auracast/Structures.antt =====
-- What a scanner reads of the extended advertising data: a sequence of AD structures (Core
-- specification, Vol 3 Part C 11).
use hci_controller.Base.{
  ltb, ◌==◌, if◌then◌else◌, le→ltb, length, get_or, drop, slice, length-append, drop-length_append,
  take-append_of_eq, u16, u24, ok, ℕ, zero, suc, ◌+◌, ◌-◌, ◌≤◌, ◌≡◌, refl, ap, Bool, true, false,
  Option, none, some, List, [], ◌∷◌, ◌++◌, append-nil, arith,
}
use hci_controller.Auracast.{
  ltv, service_data, broadcast_announcement, public_announcement, broadcast_name, extended_adv_data,
}

-- An AD structure: its type and its data.
pub record Structure : Type 0 where
  pub ad_type : ℕ
  pub value : List ℕ

abbrev pub octets_of : List Structure → List ℕ
octets_of [] = []
octets_of (s ∷ ss) = suc (length s.value) ∷ s.ad_type ∷ (s.value ++ octets_of ss)

-- The walk over advertising data, with the number of structures at most as fuel. A length of 0 ends
-- the data early; one that goes beyond the data is refused.
pub walk : ℕ → List ℕ → Option (List Structure)
walk n [] = some []
walk zero (size ∷ rest) = none
walk (suc n) (size ∷ rest) =
    let later = walk n (drop size rest) in
    if size == 0 then some [] else if ltb (length rest) size then none else elim later [
      | none ↦ none
      | some ss ↦ some (record { ad_type = get_or rest 0 0; value = slice rest 1 size } ∷ ss)
    ]

suc_ne_zero : (n : ℕ) → (suc n == 0) ≡ false
suc_ne_zero n = ground arith

plus_one : (n : ℕ) → n + 1 ≡ suc n
plus_one n = omega arith

walk-octets_of : (n : ℕ) (ss : List Structure) → length ss ≤ n → walk n (octets_of ss) ≡ some ss
unfolding walk
walk-octets_of n [] h = refl
walk-octets_of zero (s ∷ ss) h = absurd (omega arith)
walk-octets_of (suc n) (s ∷ ss) h =
    rw
      (
        walk,
        suc_ne_zero (length s.value),
        le→ltb (length (s.ad_type ∷ (s.value ++ octets_of ss))) (suc (length s.value))
            (omega (arith, length-append s.value (octets_of ss))),
        drop-length_append s.value (octets_of ss),
        walk-octets_of n ss (omega arith),
      )
      (ap (λ v. some (record { ad_type = s.ad_type; value = v } ∷ ss))
        (take-append_of_eq (suc (length s.value) - 1) s.value (octets_of ss) (omega arith)))

-- The features of the Public Broadcast Announcement.
abbrev pub features_of : Bool → Bool → ℕ
features_of encrypted high_quality = (if high_quality then 4 else 2) + (if encrypted then 1 else 0)

features_lem :
    (encrypted high_quality : Bool)
    → (if encrypted then (if high_quality then 4 else 2) + 1 else (if high_quality then 4 else 2))
      ≡ features_of encrypted high_quality
features_lem true true = refl
features_lem true false = refl
features_lem false true = refl
features_lem false false = refl

-- The Broadcast Audio Announcement, the Public Broadcast Announcement and the Broadcast Name.
abbrev pub structures : ℕ → List ℕ → Bool → Bool → List Structure
structures broadcast_id name encrypted high_quality =
    record { ad_type = 0x16; value = u16 0x1852 ++ u24 broadcast_id }
    ∷ record { ad_type = 0x16; value = u16 0x1856 ++ (features_of encrypted high_quality ∷ 0 ∷ []) }
    ∷ record { ad_type = 0x30; value = name }
    ∷ []

-- For a Broadcast_ID of 24 bits and a name of 4 to 32 octets, the extended advertising data of a
-- source is made, and a scanner reads three structures of it: the Broadcast Audio Announcement with
-- the ID, the Public Broadcast Announcement with the features and no metadata, and the name.
pub extended_adv_data-Structure :
    (broadcast_id : ℕ) (name : List ℕ) (encrypted high_quality : Bool)
    → broadcast_id ≤ 0xFFFFFF
    → 4 ≤ length name
    → length name ≤ 32
    → (octets : List ℕ) × (extended_adv_data broadcast_id name encrypted high_quality ≡ ok octets)
      × (walk 3 octets ≡ some (structures broadcast_id name encrypted high_quality))
unfolding extended_adv_data broadcast_announcement public_announcement broadcast_name service_data
    ltv
extended_adv_data-Structure broadcast_id name encrypted high_quality hid low high = (
  octets_of (structures broadcast_id name encrypted high_quality),
  rw
      (
        le→ltb 0xFFFFFF broadcast_id hid,
        le→ltb (length name) 4 low,
        le→ltb 32 (length name) high,
        le→ltb 255 (length name + 1) (omega arith),
        features_lem encrypted high_quality,
      )
      (rw (append-nil name, plus_one (length name)) refl),
  walk-octets_of 3 (structures broadcast_id name encrypted high_quality) (omega arith),
)
