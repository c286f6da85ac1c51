-- ===== src/Profile/Sent/Order.antt =====
-- The order of the commands that reading the capabilities sends.
use hci_controller.Base.{Exn, ok, ℕ, ◌≡◌, refl, Bool, true, ◌&&◌, Option, List, [], ◌∷◌, ◌++◌}
use hci_controller.Hci.Calls.{Device, Call}
use hci_controller.Profile.{
  op_read_local_version, op_read_local_supported_commands, op_le_read_local_supported_features,
  op_le_read_supported_states, op_le_read_all_local_supported_features,
  op_le_read_min_supported_conn_interval, Capabilities, command_supported, required, offered,
  offered_if, accept_timeout, start, read_controller_capabilities,
}
use hci_controller.Profile.Sent.{
  asked, Started, Offered, Exchange, Logs, pure_of-Logs, >>=-Logs, accept_timeout-Logs,
  required-Logs, offered-Logs, offered_if-Logs, start-Logs,
}

-- The calls of a whole run and the capabilities made of their answers.
abbrev pub Reported : Bool → Capabilities → List Call → Type 0
Reported reset c all =
    (begun states all_local minimum timeout : List Call) × (all
      ≡ begun
        ++ (asked op_read_local_version [] (0, c.version)
            ∷ asked op_read_local_supported_commands [] (0, c.commands)
            ∷ asked op_le_read_local_supported_features [] (0, c.features)
            ∷ (states ++ (all_local ++ (minimum ++ timeout)))))
    × Started reset begun
    × Offered true op_le_read_supported_states c.states states
    × Offered (command_supported c.commands 47 2) op_le_read_all_local_supported_features
        c.all_local_features all_local
    × Offered (command_supported c.commands 48 7) op_le_read_min_supported_conn_interval
        c.minimum_connection_interval minimum
    × Exchange (command_supported c.commands 7 2 && command_supported c.commands 7 3)
        c.connection_accept_timeout timeout

capabilities-Logs :
    (write : List ℕ → Option Exn) (reset : Bool)
    → Logs (read_controller_capabilities write reset) (Reported reset)
unfolding read_controller_capabilities
capabilities-Logs write reset = >>=-Logs (start write reset) _ _ (
    start-Logs write reset _ λ s hs. >>=-Logs (required write op_read_local_version) _ _ (
      required-Logs write op_read_local_version _ λ version.
        >>=-Logs (required write op_read_local_supported_commands) _ _ (
          required-Logs write op_read_local_supported_commands _ λ commands.
            >>=-Logs (required write op_le_read_local_supported_features) _ _ (
              required-Logs write op_le_read_local_supported_features _ λ features.
                >>=-Logs (offered write op_le_read_supported_states) _ _ (
                  offered-Logs write op_le_read_supported_states _ λ states ss hss.
                    >>=-Logs
                      (offered_if write (command_supported commands 47 2)
                        op_le_read_all_local_supported_features)
                      _ _
                      (offered_if-Logs write (command_supported commands 47 2)
                        op_le_read_all_local_supported_features _
                        λ all_local al hal.
                          >>=-Logs
                            (offered_if write (command_supported commands 48 7)
                              op_le_read_min_supported_conn_interval)
                            _ _
                            (offered_if-Logs write (command_supported commands 48 7)
                              op_le_read_min_supported_conn_interval _
                              λ minimum ml hml.
                                pure_of-Logs
                                  (accept_timeout write (
                                    command_supported commands 7 2
                                    && command_supported commands 7 3))
                                  _ _
                                  (accept_timeout-Logs write
                                    (command_supported commands 7 2
                                      && command_supported commands 7 3)
                                    _
                                    λ timeout tl htl.
                                      (s, ss, al, ml, tl, refl, hs, hss, hal, hml, htl)))))))))

-- Reading the capabilities, when it returns, has made these calls of `command` and no others, in this
-- order: the reset if it was asked for; the reads of the version, the supported commands and the
-- features, each answered with status 0 and what is returned for it; the read of the supported states;
-- the two reads that the list of supported commands tells of, each exactly where it does; and the exchange
-- about the Connection Accept Timeout. Of the optional reads the value is returned where the status was 0,
-- and none otherwise. The exchange takes place only if both of its commands are in the list; only where
-- the read was answered with status 0 and two octets are these octets written, and they are returned
-- exactly where the write was answered with status 0 and nothing else.
pub capabilities_sent :
    (write : List ℕ → Option Exn) (reset : Bool) (d : Device) (c : Capabilities)
    → (read_controller_capabilities write reset d).result ≡ ok c
    → (all : List Call) × ((read_controller_capabilities write reset d).state.calls
        ≡ d.calls ++ all)
      × Reported reset c all
unfolding Logs
capabilities_sent write reset d c h = capabilities-Logs write reset d c h
