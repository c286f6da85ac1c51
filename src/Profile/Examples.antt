-- ===== src/Profile/Examples.antt =====
-- Capabilities of a controller at concrete inputs.
use hci_controller.Base.{
  replicate, Exn, ok, ℕ, ◌/◌, ◌%◌, ◌≡◌, refl, true, Option, none, some, List, [], ◌∷◌, ◌++◌,
}
use hci_controller.Transport.Packet.{Packet}
use hci_controller.Hci.{init, read_wire, on_event}
use hci_controller.Hci.Search.{search}
use hci_controller.Hci.Command.{command, finish, command_octets}
use hci_controller.Hci.Command
use hci_controller.Script.{◌>>=◌}
use hci_controller.Hci.Calls.{Device, Call, call}
use hci_controller.Profile.{
  Capabilities, command_supported, required, offered, offered_if, write_back, accept_timeout, start,
  read_controller_capabilities,
}
use hci_controller.Profile.Sent.Order.{Reported, capabilities_sent}

-- Command Complete with a status and return parameters.
abbrev completed : ℕ → List ℕ → Packet
completed opcode octets = record {
  kind = 0x04;
  code = some 0x0E;
  body = 1 ∷ (opcode % 256) ∷ (opcode / 256) ∷ octets;
}

-- Bits 2 and 3 of the octet 7 are set, and no later ones.
abbrev commands_octets : List ℕ
commands_octets = 0 ∷ 0 ∷ 0 ∷ 0 ∷ 0 ∷ 0 ∷ 0 ∷ 0x0C ∷ []

abbrev capable : Device
capable = record {
  hci = init;
  reads =
      ok (some (completed 0x0C03 (0 ∷ [])))
      ∷ ok (some (completed 0x1001 (0 ∷ 0x0E ∷ [])))
      ∷ ok (some (completed 0x1002 (0 ∷ commands_octets)))
      ∷ ok (some (completed 0x2003 (0 ∷ 0xFF ∷ [])))
      ∷ ok (some (completed 0x201C (1 ∷ [])))
      ∷ ok (some (completed 0x0C15 (0 ∷ 0x00 ∷ 0x7D ∷ [])))
      ∷ ok (some (completed 0x0C16 (0 ∷ [])))
      ∷ [];
  turns = replicate 7 9;
  sent = [];
  calls = [];
  unsupported = [];
}

abbrev wire : List ℕ → Option Exn
wire octets = none

abbrev found : Capabilities
found = record {
  version = 0x0E ∷ [];
  commands = commands_octets;
  features = 0xFF ∷ [];
  states = none;
  all_local_features = none;
  minimum_connection_interval = none;
  connection_accept_timeout = some (0x00 ∷ 0x7D ∷ []);
}

found_run : (read_controller_capabilities wire true capable).result ≡ ok found
unfolding read_controller_capabilities start required offered offered_if write_back accept_timeout
    command_supported ◌>>=◌ call command finish command_octets Command.answer search read_wire
    on_event
found_run = refl

capabilities_sent_example :
    (all : List Call) × ((read_controller_capabilities wire true capable).state.calls ≡ [] ++ all)
    × Reported true found all
capabilities_sent_example = capabilities_sent wire true capable found found_run
