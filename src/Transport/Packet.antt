-- ===== src/Transport/Packet.antt =====
-- The packet tuples of hci_transport.py, and the HCI packets of the Bluetooth specification
-- (Vol 4 Part A and Part E 5.4) that they stand for.
use hci_controller.Base.{length, u16, ℕ, ◌+◌, ◌*◌, ◌<◌, Option, none, some, List, ◌∷◌, ◌++◌}

abbrev pub h4_command : ℕ
h4_command = 0x01

abbrev pub h4_acl : ℕ
h4_acl = 0x02

abbrev pub h4_event : ℕ
h4_event = 0x04

abbrev pub h4_iso : ℕ
h4_iso = 0x05

-- The tuple `(kind, code, body)` that a transport hands to its caller.
pub record Packet : Type 0 where
  pub kind : ℕ
  pub code : Option ℕ
  pub body : List ℕ

-- A packet as the specification lays it out, with no reference to the code. `iso` also has the
-- two reserved bits above the 14 bits of its length.
pub data Frame : Type 0 where
  event : ℕ → List ℕ → Frame
  acl : ℕ → List ℕ → Frame
  iso : ℕ → ℕ → List ℕ → Frame

-- The length fits the field that carries it.
abbrev pub IsFrame : Frame → Type 0
IsFrame (event code params) = length params < 256
IsFrame (acl handle load) = length load < 65536
IsFrame (iso handle reserved load) = (length load < 16384) × (reserved < 4)

-- The octets of a packet, without the H:4 indicator.
abbrev pub octets : Frame → List ℕ
octets (event code params) = code ∷ length params ∷ params
octets (acl handle load) = u16 handle ++ (u16 (length load) ++ load)
octets (iso handle reserved load) = u16 handle ++ (u16 (length load + 16384 * reserved) ++ load)

abbrev pub indicator : Frame → ℕ
indicator (event code params) = h4_event
indicator (acl handle load) = h4_acl
indicator (iso handle reserved load) = h4_iso

-- The octets of a packet behind its indicator, as UART H:4 and USB Bulk Serialization have them.
abbrev pub wire : Frame → List ℕ
wire f = indicator f ∷ octets f

-- What a caller of the transport is to see of a packet.
abbrev pub packet_of : Frame → Packet
packet_of (event code params) = record { kind = h4_event; code = some code; body = params }
packet_of (acl handle load) = record { kind = h4_acl; code = none; body = octets (acl handle load) }
packet_of (iso handle reserved load) = record {
  kind = h4_iso;
  code = none;
  body = octets (iso handle reserved load);
}
