-- ===== src/Lib.antt =====
-- Verification of the Python library of HciController, which tests Bluetooth HCI controllers over a
-- serial port or USB.
--
-- The program. python/hcicontroller/hci_transport.py turns the octets of a serial port or of USB
-- endpoints into HCI packets. hci_ble_test_impl.py runs HCI commands over a transport and waits for
-- their events; the test programs beside it (connected_features.py, periodic_features.py, auracast.py
-- and others) are sequences of such commands. smp_central.py has the two ends of LE Secure Connections
-- pairing, which exchange PDUs over the ACL link that the commands have set up.
--
-- The files, each with the code that it models:
-- - Base and its children: the exceptions as a result type, lists and octets by native numbers.
-- - Transport/Packet: the packet tuples of hci_transport.py, and the packets of the Bluetooth
--   specification as `Frame`, with no reference to the code.
-- - Transport/Serial: `SerialH4Transport`. `expected_length`, `take_packet` and `read_packet` are the
--   methods of those names. The port is a script of what its reads give; `rx` is `self._rx`.
--   Serial/Framing has one packet, Serial/Delivery a conversation.
-- - Transport/Usb: the reader threads of `NativeUsbTransport`. `reader_round` is one turn of
--   `_reader_loop`, on a script of USB transfers, for each of the three `Reader`s that
--   `_start_readers` starts. Usb/Framing, Usb/Delivery and Usb/Parser are about the reassembly,
--   Usb/Stop has the loop where `_reader_stop` is set from elsewhere, Usb/Write models `write_packet`,
--   Usb/Queue the callers' side with `read_packet` and `has_pending_input`.
-- - Hci: `Hci` of hci_ble_test_impl.py with the overrides of hci_ble_test.py. Hci/Search is the loop that
--   `command` and the waits share, Hci/Command has `command`, `send_acl` and `read_counters`, Hci/Wait
--   the waits of hci_ble_test.py and `parse_connection` of hci_events.py, Hci/Credits is about
--   `on_event`. Hci/Calls has the object as methods of a `Script`, with `setup` and `identity`. What
--   the reads of the transport give is a script, the clock a number of turns. Hci/Raises is about the
--   exceptions of the transport, which the methods translate, Command/Answer about the packets that
--   `command` takes for an answer.
-- - Profile: `command_supported` and `read_controller_capabilities` of profile.py, on the object of
--   Hci/Calls. Profile/Sent is about the commands that they send.
-- - Reports: what a scan reads of a report in hci_ble_test_impl.py: `parse_ext_report`,
--   `parse_legacy_report`, `local_name`, `addr_str`; Reports/Address has `addr_bytes`. How a name's octets
--   are decoded is a parameter; the fuel of `local_name_from` is the length of the data.
-- - Iso: hci_iso.py. Iso/Marker is about `send_iso` and `parse_iso`, Iso/Wait about `wait_iso`, whose
--   loop is that of Hci/Search with the packets passed over dropped.
-- - Auracast: the encoders of auracast.py. Auracast/Structures reads the extended advertising data as a
--   scanner does, Auracast/Periodic puts periodic advertising data together as a controller does.
--   Auracast/Announcement has the BASE, with a receiver's reader of it in Announcement/Reading, and
--   Auracast/Source the parameters of a broadcast.
-- - Att: `AttServer` of hci_ble_test_impl.py. Att/Requests has the reply to each request, with a reader
--   of the services in Requests/Client and one of a value in Requests/Values; Att/Feed has `feed`, `send`
--   and `notify`. The write to the transport is a parameter.
-- - Script: statements that change an object and may raise, as a monad.
-- - Legacy: `SmpPeripheral` of hci_ble_test_impl.py over a `Link`, an interface of the two methods of
--   `Hci` that it calls. Legacy/Wire fills it with `command` and `send_acl` of Hci/Command, over a
--   controller that is a parameter. Legacy/Reference has c1 and s1 as the specification writes them.
-- - ResultBook: `ResultBook` of results.py, by which a test run decides its exit code.
-- - Cleanup: hci_cis_cleanup.py. Cleanup/Teardown has `cleanup` on two controllers, Teardown/Order what
--   it sends.
-- - Smp/Toolbox, Smp/Pdu: the functions f4, f5, f6 and g2, the method table, the codes.
-- - Smp/Central, Smp/Responder: `SmpCentral` and `SmpResponder`, each a record of the object's
--   attributes with one function per method. `sent` lists what has gone to `send`; `failure` tells the
--   reasons that `_fail` logs apart.
-- - Smp/Session: both ends on one link.
-- The modules called Examples run the models and apply the theorems at concrete inputs.
--
-- How code becomes a model. A method that changes attributes takes the record and returns the new one.
-- An exception is `err` of a result, without its text; where the caller goes on with an object that a
-- raising method had already changed, the result carries that object too. Threads and clocks are
-- scripts: the packets that arrive, and whether the deadline has passed, are listed in the order in
-- which the code sees them. Octets are native numbers. A field of w bits has its mask written out.
--
-- Bounds. The loops of `read_packet` and of a reader recurse on their script, which ends where the
-- port stays silent. `_read_complete` recurses on the transfers too. `search` recurses on the turns
-- that the clock allows; theorems say how many reach an answer. `reader_rounds` counts rounds, and the
-- theorem on it says how many are enough. `chunks` has the number of octets as fuel: each slice takes
-- at least one, so the slices hold all of the data.
--
-- Not modelled: AES-CMAC and the P-256 exchange are the parameter `Crypto` of the pairing models. The
-- serial port, PyUSB and the clock are scripts. Messages of exceptions and logs are not kept. The
-- firmware in C++ and its tests, and the programs in python/examples, are not part of this library, nor
-- are the command lines, the choice of a transport, the sequences of test steps in periodic_features.py,
-- connected_features.py and the modules like them, and the catalogue of commands.
pub mod Base
pub mod Transport
pub mod Smp
pub mod Hci
pub mod Iso
pub mod Auracast
pub mod Profile
pub mod Reports
pub mod ResultBook
pub mod Cleanup
pub mod Att
pub mod Script
pub mod Legacy
