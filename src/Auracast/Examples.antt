-- ===== src/Auracast/Examples.antt =====
-- Advertising data at concrete inputs.
use hci_controller.Base.{
  length, replicate, ok, ℕ, ◌≡◌, refl, true, false, some, List, [], ◌∷◌, arith,
}
use hci_controller.Auracast.Announcement.{Subgroup, bis_octets, subgroup_octets, base}
use hci_controller.Auracast.Announcement.Reading.{subgroup, read_base, base-read}
use hci_controller.Auracast.Structures.{structures, walk, extended_adv_data-Structure}
use hci_controller.Auracast.{
  ltv, service_data, extended_adv_data, chunks, fragments, periodic_data_commands,
}
use hci_controller.Auracast.Periodic.{nothing, complete, set_all, set_all-periodic_data_commands}

-- 600 octets make three commands.
abbrev long_data : List ℕ
long_data = replicate 600 7

three_commands : length (periodic_data_commands 0 long_data) ≡ 3
unfolding periodic_data_commands chunks fragments
three_commands = refl

set_all-periodic_data_commands_example :
    set_all (periodic_data_commands 0 long_data) nothing ≡ some (complete long_data)
set_all-periodic_data_commands_example = set_all-periodic_data_commands 0 long_data nothing

extended_adv_data-Structure_example :
    (octets : List ℕ) × (extended_adv_data 0x123456 (0x54 ∷ 0x65 ∷ 0x73 ∷ 0x74 ∷ []) true false
      ≡ ok octets)
    × (walk 3 octets ≡ some (structures 0x123456 (0x54 ∷ 0x65 ∷ 0x73 ∷ 0x74 ∷ []) true false))
extended_adv_data-Structure_example =
    extended_adv_data-Structure 0x123456 (0x54 ∷ 0x65 ∷ 0x73 ∷ 0x74 ∷ []) true false (omega arith)
      (omega arith) (omega arith)

-- A left and a right channel at 48 kHz.
abbrev stereo : Subgroup
stereo =
    subgroup (2 ∷ 1 ∷ 8 ∷ 2 ∷ 2 ∷ 1 ∷ 3 ∷ 4 ∷ 100 ∷ 0 ∷ []) (3 ∷ 2 ∷ 4 ∷ 0 ∷ [])
      ((1, 5 ∷ 3 ∷ 1 ∷ 0 ∷ 0 ∷ 0 ∷ []) ∷ (2, 5 ∷ 3 ∷ 2 ∷ 0 ∷ 0 ∷ 0 ∷ []) ∷ [])

abbrev announcement : List ℕ
announcement =
    45 ∷ 0x16 ∷ 0x51 ∷ 0x18 ∷ 0x40 ∷ 0x9C ∷ 0 ∷ 1 ∷ 2 ∷ 6 ∷ 0 ∷ 0 ∷ 0 ∷ 0 ∷ 10 ∷ 2 ∷ 1 ∷ 8 ∷ 2 ∷ 2
    ∷ 1 ∷ 3 ∷ 4 ∷ 100 ∷ 0 ∷ 4 ∷ 3 ∷ 2 ∷ 4 ∷ 0 ∷ 1 ∷ 6 ∷ 5 ∷ 3 ∷ 1 ∷ 0 ∷ 0 ∷ 0 ∷ 2 ∷ 6 ∷ 5 ∷ 3 ∷ 2
    ∷ 0 ∷ 0 ∷ 0 ∷ []

base-read_example : read_base announcement ≡ some (40000, stereo ∷ [])
unfolding base subgroup_octets bis_octets service_data ltv
base-read_example = base-read 40000 (stereo ∷ []) announcement refl
