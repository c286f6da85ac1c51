-- ===== src/Transport/Usb/Write.antt =====
-- `NativeUsbTransport.write_packet` of python/hcicontroller/hci_transport.py. The device is a
-- parameter: what it says of a transfer.
use hci_controller.Base.{
  ◌==◌, if◌then◌else◌, length, Exn, Result, ok, err, transport_error, transport_gone, ℕ, Bool, List,
  [], ◌∷◌, ◌>>=◌,
}
use hci_controller.Transport.Packet.{h4_command, h4_acl}

-- A transfer that the host submits: `ctrl_transfer` or `bulk_out_ep.write`.
pub data Submission : Type 0 where
  control : List ℕ → Submission
  bulk_out : List ℕ → Submission

abbrev pub payload : Submission → List ℕ
payload (control bs) = bs
payload (bulk_out bs) = bs

-- How the device answers: the count of octets that it took, or a USB error as
-- `_classify_usb_error` raises it.
pub data Answer : Type 0 where
  wrote : ℕ → Answer
  usb_error : Exn → Answer

-- `_classify_usb_error`: whether the error is a time-out, or says that the device is gone.
pub classify_usb_error : Bool → Bool → Exn
classify_usb_error timeout gone =
    if timeout then transport_error else if gone then transport_gone else transport_error

-- The transfer that `write_packet` chooses.
pub submission : Bool → List ℕ → Result Submission
submission bulk_serialization [] = err transport_error
submission bulk_serialization (kind ∷ body) =
    if bulk_serialization
    then ok (bulk_out (kind ∷ body))
    else if kind == h4_command
    then ok (control body)
    else if kind == h4_acl
    then ok (bulk_out body)
    else err transport_error

-- `if written != len(...)`
abbrev complete_write : Submission → Answer → Result Submission
complete_write s (wrote n) = if n == length (payload s) then ok s else err transport_error
complete_write s (usb_error e) = err e

-- `write_packet`, with the transfer that it made
unfoldable pub write_packet : (Submission → Answer) → Bool → List ℕ → Result Submission
unfolding submission
write_packet device bulk_serialization packet = do
  s ← submission bulk_serialization packet
  complete_write s (device s)
