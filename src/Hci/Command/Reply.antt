-- ===== src/Hci/Command/Reply.antt =====
-- The events by which a controller answers a command, as the Bluetooth specification has them
-- (Vol 4 Part E 7.7.14 and 7.7.15), and that `Hci.command` reads them.
use hci_controller.Base.{u16, ok, ℕ, ◌<◌, ◌≡◌, refl, some, List, [], ◌∷◌, ◌++◌, arith}
use hci_controller.Transport.Packet.{Frame, event, packet_of}
use hci_controller.Hci.{read_wire, on_event, evt_command_complete, evt_command_status}
use hci_controller.Hci.Command.{answer}
use hci_controller.Hci.Search.Reach.{IsSound}

-- Command Complete with a status and what follows it, or Command Status. Both tell how many commands
-- the controller takes next.
pub data Reply : Type 0 where
  completed : ℕ → ℕ → List ℕ → Reply
  started : ℕ → ℕ → Reply

abbrev pub frame_of : ℕ → Reply → Frame
frame_of opcode (completed slots status rest) =
    event evt_command_complete (slots ∷ (u16 opcode ++ (status ∷ rest)))
frame_of opcode (started slots status) = event evt_command_status (status ∷ slots ∷ u16 opcode)

-- The status and the return parameters of an answer.
abbrev pub value_of : Reply → ℕ × List ℕ
value_of (completed slots status rest) = (status, rest)
value_of (started slots status) = (status, [])

pub answer-frame_of :
    (opcode : ℕ) (r : Reply)
    → opcode < 65536
    → answer opcode (packet_of (frame_of opcode r)) ≡ ok (some (value_of r))
unfolding answer
answer-frame_of opcode (completed slots status rest) h = ground arith
answer-frame_of opcode (started slots status) h = ground arith

pub reply-IsSound : (opcode : ℕ) (r : Reply) → IsSound (packet_of (frame_of opcode r))
unfolding read_wire on_event
reply-IsSound opcode (completed slots status rest) h = refl
reply-IsSound opcode (started slots status) h = refl
