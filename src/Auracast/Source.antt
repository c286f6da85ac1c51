-- ===== src/Auracast/Source.antt =====
-- The parameters of a broadcast in auracast.py: `PRESETS`, `create_big_payload`, and the object that
-- `AuracastSource` starts from. A preset's name is given by its place in the table.
use hci_controller.Base.{
  get_elem?, replicate, u24, Result, ok, err, key_error, value_error, ℕ, Bool, false, Option, none,
  some, List, [], ◌∷◌, ◌++◌, ◌>>=◌,
}
use hci_controller.Auracast.{broadcast_code}
use hci_controller.Auracast.Announcement.{pack_u16, octet, look_up}

abbrev pub big_handle : ℕ
big_handle = 0

abbrev pub adv_handle : ℕ
adv_handle = 0

-- `PRESETS`: sampling rate, frame duration and octets per frame.
abbrev pub presets : List (ℕ × ℕ × ℕ)
presets =
    (16000, 10000, 40)
    ∷ (24000, 10000, 60)
    ∷ (32000, 10000, 80)
    ∷ (48000, 10000, 100)
    ∷ (48000, 10000, 120)
    ∷ []

-- `SDU_INTERVAL_US`
abbrev pub sdu_interval_us : List (ℕ × ℕ)
sdu_interval_us = (7500, 7500) ∷ (10000, 10000) ∷ []

-- `create_big_payload`
pub create_big_payload : ℕ → ℕ → ℕ → ℕ → ℕ → ℕ → Option (List ℕ) → Result (List ℕ)
create_big_payload num_bis frame_us sdu_octets rtn latency_ms phy code = do
  count ← octet num_bis
  interval ← look_up key_error frame_us sdu_interval_us
  size ← pack_u16 sdu_octets
  latency ← pack_u16 latency_ms
  retransmissions ← octet rtn
  radio ← octet phy
  (let encrypted : ℕ = elim code [ none ↦ 0 | some [] ↦ 0 | some (x ∷ xs) ↦ 1 ] in
      let key : List ℕ = elim code [
        | none ↦ replicate 16 0
        | some [] ↦ replicate 16 0
        | some (x ∷ xs) ↦ x ∷ xs
      ] in
      ok (
        big_handle
        ∷ adv_handle
        ∷ (count
            ++ (u24 interval
                ++ (size
                    ++ (latency ++ (retransmissions ++ (radio ++ (0 ∷ 0 ∷ encrypted ∷ key)))))))))

-- The attributes of an `AuracastSource` but for `hci`.
pub record Source : Type 0 where
  pub rate : ℕ
  pub frame_us : ℕ
  pub octets : ℕ
  pub broadcast_id : ℕ
  pub name : List ℕ
  pub delay_us : ℕ
  pub rtn : ℕ
  pub latency_ms : ℕ
  pub phy : ℕ
  pub code : Option (List ℕ)
  pub program_info : Option (List ℕ)
  pub language : Option (List ℕ)
  pub bis_handles : List ℕ
  pub started : Bool

-- `__init__`, with the defaults of the presentation delay, the retransmissions, the latency and the PHY
pub init_source :
    ℕ → List ℕ → ℕ → Option (List ℕ) → Option (List ℕ) → Option (List ℕ) → Result Source
unfolding broadcast_code
init_source broadcast_id name preset password program_info language =
    elim (get_elem? presets preset) [
      | none ↦ err value_error
      | some (rate, frame_us, octets) ↦ (do
        code ← coded password
        ok (record {
          rate = rate;
          frame_us = frame_us;
          octets = octets;
          broadcast_id = broadcast_id;
          name = name;
          delay_us = 40000;
          rtn = 4;
          latency_ms = 65;
          phy = 2;
          code = code;
          program_info = program_info;
          language = language;
          bis_handles = [];
          started = false;
        }))
    ]
  where
    coded : Option (List ℕ) → Result (Option (List ℕ))
    coded none = ok none
    coded (some []) = ok none
    coded (some (x ∷ xs)) = do code ← broadcast_code (x ∷ xs); ok (some code)
