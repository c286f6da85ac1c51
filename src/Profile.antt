-- ===== src/Profile.antt =====
-- The reads of a controller's capabilities in python/hcicontroller/profile.py, as methods of the object of
-- Hci/Calls. The write to the transport is a parameter.
pub mod Sent
mod Examples
use hci_controller.Base.{
  ltb, ◌==◌, if◌then◌else◌, length, get_or, has_bit, Exn, runtime_error, ℕ, ◌^◌, Bool, true, false,
  ◌&&◌, Option, none, some, List, [],
}
use hci_controller.Script.{Script, ◌>>=◌, ◌>>◌, pure, raise, done}
use hci_controller.Hci.Calls.{Device, call, op_reset}

abbrev pub op_read_conn_accept_timeout : ℕ
op_read_conn_accept_timeout = 0x0C15

abbrev pub op_write_conn_accept_timeout : ℕ
op_write_conn_accept_timeout = 0x0C16

abbrev pub op_read_local_version : ℕ
op_read_local_version = 0x1001

abbrev pub op_read_local_supported_commands : ℕ
op_read_local_supported_commands = 0x1002

abbrev pub op_le_read_local_supported_features : ℕ
op_le_read_local_supported_features = 0x2003

abbrev pub op_le_read_supported_states : ℕ
op_le_read_supported_states = 0x201C

abbrev pub op_le_read_all_local_supported_features : ℕ
op_le_read_all_local_supported_features = 0x2087

abbrev pub op_le_read_min_supported_conn_interval : ℕ
op_le_read_min_supported_conn_interval = 0x20A3

-- The dictionary of capabilities; `None` is `none`.
pub record Capabilities : Type 0 where
  pub version : List ℕ
  pub commands : List ℕ
  pub features : List ℕ
  pub states : Option (List ℕ)
  pub all_local_features : Option (List ℕ)
  pub minimum_connection_interval : Option (List ℕ)
  pub connection_accept_timeout : Option (List ℕ)

-- `command_supported`
unfoldable pub command_supported : List ℕ → ℕ → ℕ → Bool
command_supported commands octet bit =
    ltb octet (length commands) && has_bit (get_or commands octet 0) (2 ^ bit)

module _ (write : List ℕ → Option Exn) where
  -- A read whose failure ends the reads.
  unfoldable pub required : ℕ → Script Device (List ℕ)
  required opcode = do
    (status, octets) ← call write opcode [] true
    (if status == 0 then pure octets else raise runtime_error)

  -- A read whose failure leaves `None`.
  unfoldable pub offered : ℕ → Script Device (Option (List ℕ))
  offered opcode = do
    (status, octets) ← call write opcode [] true
    (if status == 0 then pure (some octets) else pure none)

  -- A read that the list of supported commands decides about.
  unfoldable pub offered_if : Bool → ℕ → Script Device (Option (List ℕ))
  offered_if supported opcode = if supported then offered opcode else pure none

  -- The timeout's value, written back, and whether the controller took it.
  unfoldable pub write_back : List ℕ → Script Device (Option (List ℕ))
  write_back octets = do
    (status, answer) ← call write op_write_conn_accept_timeout octets true
    (if (status == 0) && (length answer == 0) then pure (some octets) else pure none)

  -- The read of the Connection Accept Timeout, and the write of the same value.
  unfoldable pub accept_timeout : Bool → Script Device (Option (List ℕ))
  accept_timeout supported =
      if supported
      then (do
        (status, octets) ← call write op_read_conn_accept_timeout [] true
        (if (status == 0) && (length octets == 2) then write_back octets else pure none))
      else pure none

  -- The reset before the reads.
  unfoldable pub start : Bool → Script Device (Unit {0})
  start reset = if reset then call write op_reset [] false >>= (λ answer. done) else done

  -- `read_controller_capabilities`
  unfoldable pub read_controller_capabilities : Bool → Script Device Capabilities
  read_controller_capabilities reset = do
    begun ← start reset
    version ← required op_read_local_version
    commands ← required op_read_local_supported_commands
    features ← required op_le_read_local_supported_features
    states ← offered op_le_read_supported_states
    all_local ← offered_if (command_supported commands 47 2) op_le_read_all_local_supported_features
    minimum ← offered_if (command_supported commands 48 7) op_le_read_min_supported_conn_interval
    timeout ← accept_timeout (command_supported commands 7 2 && command_supported commands 7 3)
    pure record {
      version = version;
      commands = commands;
      features = features;
      states = states;
      all_local_features = all_local;
      minimum_connection_interval = minimum;
      connection_accept_timeout = timeout;
    }
