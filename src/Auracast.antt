-- ===== src/Auracast.antt =====
-- The advertising data of python/hcicontroller/auracast.py. Texts are given as their UTF-8 octets.
mod Examples
pub mod Periodic
pub mod Structures
pub mod Announcement
pub mod Source
use hci_controller.Base.{
  ltb, leb, ◌==◌, if◌then◌else◌, length, take, drop, replicate, u16, u24, Result, ok, err,
  value_error, ℕ, zero, suc, ◌+◌, ◌-◌, Bool, ◌||◌, List, [], ◌∷◌, ◌++◌, ◌>>=◌,
}

-- `ltv`
unfoldable pub ltv : ℕ → List ℕ → Result (List ℕ)
ltv ad_type value =
    if ltb 255 (length value + 1)
    then err value_error
    else ok ((length value + 1) ∷ ad_type ∷ value)

-- `service_data`
unfoldable pub service_data : ℕ → List ℕ → Result (List ℕ)
unfolding ltv
service_data uuid16 payload = ltv 0x16 (u16 uuid16 ++ payload)

-- `broadcast_announcement`
pub broadcast_announcement : ℕ → Result (List ℕ)
unfolding service_data
broadcast_announcement broadcast_id =
    if ltb 0xFFFFFF broadcast_id then err value_error else service_data 0x1852 (u24 broadcast_id)

-- `public_announcement`, for features and a length of 8 bits
pub public_announcement : ℕ → List ℕ → Result (List ℕ)
unfolding service_data
public_announcement features meta = service_data 0x1856 (features ∷ length meta ∷ meta)

-- `broadcast_name`
pub broadcast_name : List ℕ → Result (List ℕ)
unfolding ltv
broadcast_name raw =
    if ltb (length raw) 4 || ltb 32 (length raw) then err value_error else ltv 0x30 raw

-- `extended_adv_data`
pub extended_adv_data : ℕ → List ℕ → Bool → Bool → Result (List ℕ)
unfolding broadcast_announcement public_announcement broadcast_name
extended_adv_data broadcast_id name encrypted high_quality =
    let quality = if high_quality then 0x04 else 0x02 in
    let features = if encrypted then quality + 0x01 else quality in
    do
      announcement ← broadcast_announcement broadcast_id
      public ← public_announcement features []
      text ← broadcast_name name
      ok (announcement ++ (public ++ text))

-- `broadcast_code`
pub broadcast_code : List ℕ → Result (List ℕ)
broadcast_code raw =
    if ltb 16 (length raw) then err value_error else ok (raw ++ replicate (16 - length raw) 0)

abbrev pub periodic_data_max : ℕ
periodic_data_max = 252

-- The slices `data[i:i + PERIODIC_DATA_MAX]`, on fuel.
pub chunks : ℕ → List ℕ → List (List ℕ)
chunks zero data' = []
chunks (suc n) [] = []
chunks (suc n) (x ∷ xs) =
    take periodic_data_max (x ∷ xs) ∷ chunks n (drop periodic_data_max (x ∷ xs))

-- The commands for the slices from the one with index `i` on, of `count` in all.
pub fragments : ℕ → ℕ → ℕ → List (List ℕ) → List (List ℕ)
fragments handle count i [] = []
fragments handle count i (chunk ∷ rest) =
    let op = if i == 0 then 0x00 else (if i == count - 1 then 0x02 else 0x01) in
    (handle ∷ op ∷ length chunk ∷ chunk) ∷ fragments handle count (suc i) rest

-- `periodic_data_commands`; there are at most as many slices as octets.
pub periodic_data_commands : ℕ → List ℕ → List (List ℕ)
unfolding chunks fragments
periodic_data_commands handle data' =
    let cs = chunks (length data') data' in
    if leb (length data') periodic_data_max
    then (handle ∷ 0x03 ∷ length data' ∷ data') ∷ []
    else fragments handle (length cs) 0 cs
