-- ===== src/Hci/Command/Examples.antt =====
-- Commands at concrete inputs.
use hci_controller.Base.{
  Exn, Result, ok, ℕ, ◌≡◌, refl, false, Option, none, some, List, [], ◌∷◌, ◌++◌, arith,
}
use hci_controller.Transport.Packet.{Packet, packet_of}
use hci_controller.Hci.{Hci, init, read_wire}
use hci_controller.Hci.Command.{answer, command, command_octets, Ended, read_values}
use hci_controller.Hci.Command.Reply.{Reply, completed, frame_of}
use hci_controller.Hci.Command.Returns.{
  command_answered, command_answer_pending, command_returned, Sends, Took,
}
use hci_controller.Hci.Command.Counters.{read_values-block, block}
use hci_controller.Hci.Search.{IsOther}

-- A transport that takes everything.
abbrev accepting : List ℕ → Option Exn
accepting octets = none

-- A packet of ACL data, and the answer to HCI_Reset.
abbrev data_packet : Packet
data_packet = record { kind = 0x02; code = none; body = 1 ∷ 0 ∷ 0 ∷ 0 ∷ [] }

abbrev late_packet : Packet
late_packet = record { kind = 0x02; code = none; body = 2 ∷ 0 ∷ 0 ∷ 0 ∷ [] }

abbrev reset_reply : Reply
reset_reply = completed 1 0 []

abbrev waiting : Hci
waiting = record init { pending = data_packet ∷ [] }

reset_sent : Sends accepting 0x0C03 []
unfolding command_octets
reset_sent = (_, refl, refl)

data_packet-IsOther : IsOther (answer 0x0C03) data_packet
unfolding answer
data_packet-IsOther = refl

late_packet-IsOther : IsOther (answer 0x0C03) late_packet
unfolding answer
late_packet-IsOther = refl

late_packet-IsSound :
    (h : Hci) → (read_wire (ok (some late_packet)) h).result ≡ ok (some late_packet)
unfolding read_wire
late_packet-IsSound h = refl

abbrev reset_reads : List (Result (Option Packet))
reset_reads =
    (ok none ∷ ok (some late_packet) ∷ [])
    ++ (ok (some (packet_of (frame_of 0x0C03 reset_reply))) ∷ ok (some data_packet) ∷ [])

abbrev reset_run : Ended (ℕ × List ℕ)
reset_run = command accepting 5 reset_reads 0x0C03 [] false waiting

command_answered_example :
    (reset_run.result ≡ ok (0, []))
    × (reset_run.hci.pending ≡ data_packet ∷ late_packet ∷ [])
    × (reset_run.reads ≡ ok (some data_packet) ∷ [])
command_answered_example =
    command_answered accepting 0x0C03 [] false 5 (ok none ∷ ok (some late_packet) ∷ [])
      (ok (some data_packet) ∷ []) reset_reply waiting (omega arith) reset_sent
      (data_packet-IsOther, tt) (tt, ((late_packet-IsOther, late_packet-IsSound), tt)) (omega arith)

command_answer_pending_example :
    command accepting 5 [] 0x0C03 [] false (record init {
      pending = data_packet ∷ packet_of (frame_of 0x0C03 reset_reply) ∷ late_packet ∷ [];
    })
    ≡ record {
      result = ok (0, []);
      hci = record init { pending = late_packet ∷ data_packet ∷ [] };
      reads = [];
    }
command_answer_pending_example =
    command_answer_pending accepting 0x0C03 [] false 5 [] (data_packet ∷ []) (late_packet ∷ [])
      reset_reply init (omega arith) reset_sent (data_packet-IsOther, tt) (omega arith)

reset_returns : reset_run.result ≡ ok (0, [])
reset_returns =
    (command_answered accepting 0x0C03 [] false 5 (ok none ∷ ok (some late_packet) ∷ [])
      (ok (some data_packet) ∷ []) reset_reply waiting (omega arith) reset_sent
      (data_packet-IsOther, tt) (tt, ((late_packet-IsOther, late_packet-IsSound), tt))
      (omega arith)).0

command_returned_example :
    Took accepting 0x0C03 [] false waiting.pending reset_reads (0, []) reset_run
command_returned_example =
    command_returned accepting 0x0C03 [] false 5 reset_reads waiting (0, []) reset_returns

read_values-block_example :
    read_values (0, 4 ∷ (block (7 ∷ 65536 ∷ []) ++ (9 ∷ []))) ≡ some (7 ∷ 65536 ∷ [])
read_values-block_example =
    read_values-block 0 4 (7 ∷ 65536 ∷ []) (9 ∷ []) (omega arith, (omega arith, tt)) (omega arith)
