-- ===== src/Iso.antt =====
-- The ISO data helpers of python/hcicontroller/hci_iso.py.
pub mod Marker
pub mod Wait
use hci_controller.Base.{
  ltb, ◌==◌, if◌then◌else◌, bytes_eq, length, get_or, drop, replicate, slice, u16, from_little, Exn,
  Result, ok, err, hci_error, struct_error, ℕ, ◌+◌, ◌-◌, ◌*◌, ◌/◌, ◌%◌, Bool, true, false, not,
  ◌||◌, Option, none, some, List, [], ◌∷◌, ◌++◌,
}
use hci_controller.Transport.Packet.{Packet, h4_iso}
use hci_controller.Hci.{Hci, Outcome, translate, evt_disconnection_complete}
use hci_controller.Hci.Command.{Ended, is_event, command}
use hci_controller.Hci.Search.{Found, search}

abbrev pub iso_pb_first : ℕ
iso_pb_first = 0x00

abbrev pub iso_pb_complete : ℕ
iso_pb_complete = 0x02

-- The packet that `send_iso` builds. `|` joins bits that do not overlap, which is their sum.
pub iso_packet : ℕ → ℕ → List ℕ → List ℕ
iso_packet handle sequence sdu =
    let handle_flags = handle % 0x1000 + iso_pb_complete * 0x1000 in
    let load = u16 (sequence % 0x10000) ++ (u16 (length sdu % 0x1000) ++ sdu) in
    u16 handle_flags ++ (u16 (length load) ++ load)

-- `IsoHci.send_iso`
pub send_iso : (List ℕ → Option Exn) → ℕ → ℕ → List ℕ → Hci → Outcome (Unit {0})
send_iso write handle sequence sdu h =
    if ltb 0x0FFF (length sdu)
    then record { result = err hci_error; hci = h }
    else elim (write (h4_iso ∷ iso_packet handle sequence sdu)) [
      | some e ↦ record { result = err (translate e); hci = h }
      | none ↦ record { result = ok tt; hci = h }
    ]

-- The dictionary that `parse_iso` returns.
pub record IsoData : Type 0 where
  pub handle : ℕ
  pub pb : ℕ
  pub timestamp : Option ℕ
  pub sequence : Option ℕ
  pub sdu_len : Option ℕ
  pub status : Option ℕ
  pub fragment : List ℕ

-- The fields that a first fragment and a complete SDU have at `at`.
pub parse_header : ℕ → ℕ → Option ℕ → ℕ → List ℕ → Result IsoData
parse_header handle pb timestamp at packet =
    let field = from_little (slice packet (at + 2) (at + 4)) in
    if ltb (length packet) (at + 4)
    then err hci_error
    else ok (record {
      handle = handle;
      pb = pb;
      timestamp = timestamp;
      sequence = some (from_little (slice packet at (at + 2)));
      sdu_len = some (field % 0x1000);
      status = some (field / 0x4000 % 4);
      fragment = drop (at + 4) packet;
    })

-- `parse_iso`
pub parse_iso : List ℕ → Result IsoData
unfolding parse_header
parse_iso packet =
    let handle_flags = from_little (slice packet 0 2) in
    let total = from_little (slice packet 2 4) % 0x4000 in
    let handle = handle_flags % 0x1000 in
    let pb = handle_flags / 0x1000 % 4 in
    let ts = handle_flags / 0x4000 % 2 in
    if ltb (length packet) 8
    then err hci_error
    else if not (total == length packet - 4)
    then err hci_error
    else if (pb == iso_pb_first) || (pb == iso_pb_complete)
    then (if ts == 1
        then parse_header handle pb (some (from_little (slice packet 4 8))) 8 packet
        else parse_header handle pb none 4 packet)
    else ok (record {
      handle = handle;
      pb = pb;
      timestamp = none;
      sequence = none;
      sdu_len = none;
      status = none;
      fragment = drop 4 packet;
    })

-- `iso["status"] in (None, 0)`
abbrev pub is_valid : Option ℕ → Bool
is_valid none = true
is_valid (some s) = s == 0

-- `iso["sdu_len"] == n`
abbrev pub has_length : Option ℕ → ℕ → Bool
has_length none n = false
has_length (some k) n = k == n

-- What `wait_iso` does with the data of one ISO packet: `none` to go on.
pub match_marker : ℕ → List ℕ → IsoData → Result (Option (Unit {0}))
match_marker expected_handle expected_sdu iso =
    if not (iso.handle == expected_handle)
    then ok none
    else if not (is_valid iso.status)
    then ok none
    else if not (iso.pb == iso_pb_complete)
    then err hci_error
    else if not (has_length iso.sdu_len (length expected_sdu))
    then ok none
    else if not (has_length iso.sdu_len (length iso.fragment))
    then err hci_error
    else if bytes_eq iso.fragment expected_sdu
    then ok (some tt)
    else ok none

-- What `wait_iso` does with one packet.
pub marker : ℕ → List ℕ → Packet → Result (Option (Unit {0}))
marker expected_handle expected_sdu p =
    if p.kind == h4_iso
    then elim (parse_iso p.body) [
      | err e ↦ err e
      | ok iso ↦ match_marker expected_handle expected_sdu iso
    ]
    else if is_event evt_disconnection_complete p
    then (if ltb (length p.body) 3 then err struct_error else err hci_error)
    else ok none

-- The end of `wait_iso`: the packets passed over are dropped; a marker that has not come raises.
pub receive : Found (Unit {0}) → Ended (Unit {0})
receive o = record {
  result = elim o.result [ err e ↦ err e | ok none ↦ err hci_error | ok (some u) ↦ ok u ];
  hci = o.hci;
  reads = o.reads;
}

-- `wait_iso`
pub wait_iso : ℕ → List ℕ → ℕ → List (Result (Option Packet)) → Hci → Ended (Unit {0})
wait_iso expected_handle expected_sdu turns reads h =
    receive (search (marker expected_handle expected_sdu) turns reads [] h)

-- The payload of LE Setup ISO Data Path, with a transparent coding format over HCI.
abbrev pub path_payload : ℕ → ℕ → List ℕ
path_payload iso_handle direction =
    u16 iso_handle ++ (direction ∷ 0x00 ∷ 0x03 ∷ (replicate 4 0 ++ (replicate 3 0 ++ (0 ∷ []))))

-- A status that is not 0 raises.
abbrev pub require_success : ℕ × List ℕ → Result (List ℕ)
require_success (status, parameters) = if status == 0 then ok parameters else err hci_error

-- `setup_iso_path`, for a handle of 16 bits and a direction of 8.
pub setup_iso_path :
    (List ℕ → Option Exn) → ℕ → List (Result (Option Packet)) → ℕ → ℕ → Hci → Ended (Unit {0})
setup_iso_path write turns reads iso_handle direction h =
    let o = command write turns reads 0x206E (path_payload iso_handle direction) true h in
    record {
      result = elim o.result [
        | err e ↦ err e
        | ok a ↦ elim (require_success a) [ err e ↦ err e | ok parameters ↦ ok tt ]
      ];
      hci = o.hci;
      reads = o.reads;
    }

-- The checks of `read_iso_buffers` on the answer: the length of an ISO buffer.
pub iso_buffers : ℕ × List ℕ → Result ℕ
iso_buffers (status, parameters) =
    let iso_len = from_little (slice parameters 3 5) in
    if not (status == 0)
    then err hci_error
    else if ltb (length parameters) 6
    then err hci_error
    else if (iso_len == 0) || (get_or parameters 5 0 == 0)
    then err hci_error
    else ok iso_len

-- `read_iso_buffers`
pub read_iso_buffers : (List ℕ → Option Exn) → ℕ → List (Result (Option Packet)) → Hci → Ended ℕ
read_iso_buffers write turns reads h =
    let o = command write turns reads 0x2060 [] true h in
    record {
      result = elim o.result [ err e ↦ err e | ok a ↦ iso_buffers a ];
      hci = o.hci;
      reads = o.reads;
    }
