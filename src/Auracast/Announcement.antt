-- ===== src/Auracast/Announcement.antt =====
-- The Basic Audio Announcement of auracast.py: `codec_config`, `channel_allocation`, `metadata`, `base`
-- and `stereo_base`. Texts are given as their octets.
pub mod Reading
use hci_controller.Base.{
  ltb, ◌==◌, if◌then◌else◌, length, u16, u24, u32, Exn, Result, ok, err, struct_error, value_error,
  ℕ, not, ◌||◌, Option, none, some, List, [], ◌∷◌, ◌++◌, ◌>>=◌,
}
use hci_controller.Auracast.{ltv, service_data}

abbrev pub location_front_left : ℕ
location_front_left = 0x00000001

abbrev pub location_front_right : ℕ
location_front_right = 0x00000002

abbrev pub context_media : ℕ
context_media = 0x0004

-- `SAMPLING_FREQUENCY_CODE`
abbrev pub sampling_frequency_code : List (ℕ × ℕ)
sampling_frequency_code =
    (8000, 0x01)
    ∷ (11025, 0x02)
    ∷ (16000, 0x03)
    ∷ (22050, 0x04)
    ∷ (24000, 0x05)
    ∷ (32000, 0x06)
    ∷ (44100, 0x07)
    ∷ (48000, 0x08)
    ∷ (88200, 0x09)
    ∷ (96000, 0x0A)
    ∷ (176400, 0x0B)
    ∷ (192000, 0x0C)
    ∷ (384000, 0x0D)
    ∷ []

-- `FRAME_DURATION_CODE`
abbrev pub frame_duration_code : List (ℕ × ℕ)
frame_duration_code = (7500, 0x00) ∷ (10000, 0x01) ∷ []

-- The value of a key in a dictionary, and the given exception where it has none.
abbrev pub look_up : Exn → ℕ → List (ℕ × ℕ) → Result ℕ
look_up missing key [] = err missing
look_up missing key ((k, v) ∷ rest) =
    let found = look_up missing key rest in if k == key then ok v else found

-- `struct.pack("<H", value)`
abbrev pub pack_u16 : ℕ → Result (List ℕ)
pack_u16 value = if ltb 65535 value then err struct_error else ok (u16 value)

-- `struct.pack("<I", value)`
abbrev pub pack_u32 : ℕ → Result (List ℕ)
pack_u32 value = if ltb 4294967295 value then err struct_error else ok (u32 value)

-- `bytes([value])`
abbrev pub octet : ℕ → Result (List ℕ)
octet value = if ltb 255 value then err value_error else ok (value ∷ [])

-- What an argument that may be `None` adds.
abbrev pub optional : {A : Type 0} → Option A → (A → Result (List ℕ)) → Result (List ℕ)
optional none f = ok []
optional (some a) f = f a

-- `codec_config`
pub codec_config : ℕ → ℕ → ℕ → Option ℕ → Result (List ℕ)
unfolding ltv
codec_config sample_rate_hz frame_us octets blocks = do
  rate ← look_up value_error sample_rate_hz sampling_frequency_code
  duration ← look_up value_error frame_us frame_duration_code
  frequency ← ltv 0x01 (rate ∷ [])
  frame ← ltv 0x02 (duration ∷ [])
  size ← pack_u16 octets
  per_frame ← ltv 0x04 size
  per_sdu ← optional blocks (λ n. do count ← octet n; ltv 0x05 count)
  ok (frequency ++ (frame ++ (per_frame ++ per_sdu)))

-- `channel_allocation`
pub channel_allocation : ℕ → Result (List ℕ)
unfolding ltv
channel_allocation locations = do field ← pack_u32 locations; ltv 0x03 field

-- `metadata`
pub metadata : Option ℕ → Option (List ℕ) → Option (List ℕ) → Result (List ℕ)
unfolding ltv
metadata contexts program_info language = do
  streaming ← optional contexts (λ c. do field ← pack_u16 c; ltv 0x02 field)
  program ← optional program_info (λ text. ltv 0x03 text)
  code ←
      optional language (λ text. if not (length text == 3) then err value_error else ltv 0x04 text)
  ok (streaming ++ (program ++ code))

-- A subgroup, as `base` takes it: the configuration, the metadata and the BISes with their indices.
pub record Subgroup : Type 0 where
  pub codec_config : List ℕ
  pub metadata : List ℕ
  pub bis : List (ℕ × List ℕ)

-- The octets of the BISes.
unfoldable pub bis_octets : List (ℕ × List ℕ) → Result (List ℕ)
bis_octets [] = ok []
bis_octets ((index, cfg) ∷ rest) = do
  number ← octet index
  size ← octet (length cfg)
  more ← bis_octets rest
  ok (number ++ (size ++ (cfg ++ more)))

-- The octets of the subgroups.
unfoldable pub subgroup_octets : List Subgroup → Result (List ℕ)
unfolding bis_octets
subgroup_octets [] = ok []
subgroup_octets (g ∷ rest) =
    let later = subgroup_octets rest in
    if length g.bis == 0 then err value_error else (do
      count ← octet (length g.bis)
      cfg_size ← octet (length g.codec_config)
      meta_size ← octet (length g.metadata)
      bises ← bis_octets g.bis
      more ← later
      ok (
          count
          ++ ((0x06 ∷ 0 ∷ 0 ∷ 0 ∷ 0 ∷ [])
              ++ (cfg_size ++ (g.codec_config ++ (meta_size ++ (g.metadata ++ (bises ++ more))))))))

-- `base`
unfoldable pub base : ℕ → List Subgroup → Result (List ℕ)
unfolding subgroup_octets service_data
base presentation_delay_us subgroups =
    if ltb 0xFFFFFF presentation_delay_us
    then err value_error
    else if ltb (length subgroups) 1 || ltb 31 (length subgroups)
    then err value_error
    else (do
      groups ← subgroup_octets subgroups
      service_data 0x1851 (u24 presentation_delay_us ++ (length subgroups ∷ groups)))

-- `stereo_base`
pub stereo_base : ℕ → ℕ → ℕ → ℕ → Option ℕ → Option (List ℕ) → Option (List ℕ) → Result (List ℕ)
unfolding codec_config metadata channel_allocation base
stereo_base presentation_delay_us sample_rate_hz frame_us octets contexts program_info language = do
  config ← codec_config sample_rate_hz frame_us octets none
  meta ← metadata contexts program_info language
  left ← channel_allocation location_front_left
  right ← channel_allocation location_front_right
  base presentation_delay_us
      (record { codec_config = config; metadata = meta; bis = (1, left) ∷ (2, right) ∷ [] } ∷ [])
