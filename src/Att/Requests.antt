-- ===== src/Att/Requests.antt =====
-- What an `AttServer` replies to each request, before `send` cuts the reply to the MTU.
pub mod Fits
pub mod Client
pub mod Short
pub mod Values
use hci_controller.Base.{
  ltb, leb, ◌==◌, if◌then◌else◌, bytes_eq, length, take, drop, slice, u16, from_little, Result, ok,
  err, struct_error, ℕ, ◌+◌, ◌-◌, ◌*◌, ◌%◌, Bool, not, ◌&&◌, ◌||◌, Option, none, some, List, [],
  ◌∷◌, ◌++◌,
}
use Prim.Native.Nat.{max, min}
use hci_controller.Att.{
  Attribute, Server, find, store, error_rsp, exchange_mtu_req, exchange_mtu_rsp,
  find_information_req, find_information_rsp, read_by_type_req, read_by_type_rsp, read_req,
  read_rsp, read_blob_req, read_blob_rsp, read_by_group_type_req, read_by_group_type_rsp, write_req,
  write_rsp, write_cmd, invalid_handle, request_not_supported, invalid_offset, attribute_not_found,
  uuid_primary_service,
}

-- The error response that `error` sends.
abbrev pub error : ℕ → ℕ → ℕ → List ℕ
error opcode handle code = error_rsp ∷ opcode ∷ (u16 handle ++ (code ∷ []))

-- The loop of `read_by_group_type` and `read_by_type`: entries of one length, as many as the MTU
-- holds. `size` is the length of the first entry, once there is one.
pub collect : ℕ → (Attribute → Option (List ℕ)) → List Attribute → ℕ → Option ℕ → List (List ℕ)
collect mtu entry_of [] count size = []
collect mtu entry_of (a ∷ rest) count size = elim (entry_of a) [
  | none ↦ collect mtu entry_of rest count size
  | some entry ↦
      let size' : ℕ = elim size [ none ↦ length entry | some n ↦ n ] in
      let more = entry ∷ collect mtu entry_of rest (count + 1) (some size') in
      if not (length entry == size')
      then []
      else if ltb mtu (2 + count * size' + size')
      then []
      else more
]

abbrev pub concat : List (List ℕ) → List ℕ
concat [] = []
concat (c ∷ cs) = c ++ concat cs

-- The response with the entries, or the error when there are none.
pub listing : ℕ → ℕ → ℕ → List (List ℕ) → List ℕ
listing req rsp start [] = error req start attribute_not_found
listing req rsp start (entry ∷ rest) = rsp ∷ length entry ∷ (entry ++ concat rest)

abbrev pub in_range : ℕ → ℕ → ℕ → Bool
in_range start end handle = leb start handle && leb handle end

-- The entry of an attribute in `read_by_group_type`, if it has one.
abbrev pub group_entry : ℕ → ℕ → Attribute → Option (List ℕ)
group_entry start end a = elim a.group_end [
  | none ↦ none
  | some last ↦
      if in_range start end a.handle then some (u16 a.handle ++ (u16 last ++ a.value)) else none
]

-- `read_by_group_type` once the range has been read
pub read_by_group_type : ℕ → List Attribute → ℕ → ℕ → List ℕ → List ℕ
unfolding collect listing
read_by_group_type mtu attrs start end group =
    if not (bytes_eq group (u16 uuid_primary_service))
    then error read_by_group_type_req start attribute_not_found
    else listing read_by_group_type_req read_by_group_type_rsp start
        (collect mtu (group_entry start end) attrs 0 none)

-- The entry of an attribute in `read_by_type`, if it has one.
abbrev pub type_entry : ℕ → ℕ → List ℕ → Attribute → Option (List ℕ)
type_entry start end wanted a =
    if bytes_eq a.uuid wanted && in_range start end a.handle
    then some (u16 a.handle ++ a.value)
    else none

-- `read_by_type` once the range has been read
pub read_by_type : ℕ → List Attribute → ℕ → ℕ → List ℕ → List ℕ
unfolding collect listing
read_by_type mtu attrs start end wanted =
    listing read_by_type_req read_by_type_rsp start
      (collect mtu (type_entry start end wanted) attrs 0 none)

abbrev pub format_of : Attribute → ℕ
format_of a = if length a.uuid == 2 then 0x01 else 0x02

-- The loop of `find_information`, with the format of the first entry once there is one.
pub gather : ℕ → ℕ → ℕ → List Attribute → ℕ → Option ℕ → List (List ℕ)
gather mtu start end [] count fmt = []
gather mtu start end (a ∷ rest) count fmt =
    let fmt' : ℕ = elim fmt [ none ↦ format_of a | some f ↦ f ] in
    let entry = u16 a.handle ++ a.uuid in
    let skip = gather mtu start end rest count fmt in
    let more = entry ∷ gather mtu start end rest (count + 1) (some fmt') in
    if not (in_range start end a.handle)
    then skip
    else if not (format_of a == fmt')
    then []
    else if ltb mtu (2 + (count + 1) * length entry)
    then []
    else more

-- `find_information` once the range has been read
pub find_information : ℕ → List Attribute → ℕ → ℕ → List ℕ
unfolding gather
find_information mtu attrs start end = elim (gather mtu start end attrs 0 none) [
  | [] ↦ error find_information_req start attribute_not_found
  | entry ∷ rest ↦
      find_information_rsp ∷ (if length entry == 4 then 0x01 else 0x02) ∷ (entry ++ concat rest)
]

-- A request's reply, if it has one, and the server that it leaves.
abbrev pub Reply : Type 0
Reply = Result (Server × Option (List ℕ))

abbrev pub silent : Server → Reply
silent s = ok (s, none)

abbrev pub reply : Server → List ℕ → Reply
reply s payload = ok (s, some payload)

-- `struct.unpack("<H", payload[1:3])` and the handling that follows
abbrev pub with_u16 : List ℕ → (ℕ → Reply) → Reply
with_u16 payload f =
    if ltb (length payload) 3 then err struct_error else f (from_little (slice payload 1 3))

-- `struct.unpack("<HH", payload[1:5])` and the handling that follows
abbrev pub with_range : List ℕ → (ℕ → ℕ → Reply) → Reply
with_range payload f =
    if ltb (length payload) 5
    then err struct_error
    else f (from_little (slice payload 1 3)) (from_little (slice payload 3 5))

unfoldable pub on_exchange_mtu : Server → List ℕ → Reply
on_exchange_mtu s payload = with_u16 payload λ peer.
    let mtu = max 23 (min peer 247) in reply (record s { mtu = mtu }) (exchange_mtu_rsp ∷ u16 mtu)

pub on_read : Server → List ℕ → Reply
on_read s payload = with_u16 payload λ handle. elim (find handle s.attrs) [
  | none ↦ reply s (error read_req handle invalid_handle)
  | some a ↦ reply s (read_rsp ∷ take (s.mtu - 1) a.value)
]

pub on_read_blob : Server → List ℕ → Reply
on_read_blob s payload = with_range payload λ handle offset. elim (find handle s.attrs) [
  | none ↦ reply s (error read_blob_req handle invalid_handle)
  | some a ↦
      if ltb (length a.value) offset
      then reply s (error read_blob_req handle invalid_offset)
      else reply s (read_blob_rsp ∷ slice a.value offset (offset + s.mtu - 1))
]

-- What a write leaves in the server: the client configuration and the receive characteristic are
-- noted besides.
pub written_server : Server → ℕ → List ℕ → Server
written_server s handle value =
    let s' : Server = record s { attrs = store handle value s.attrs } in
    if handle == 0x0015
    then record s' { cccd = from_little (take 2 (value ++ (0 ∷ 0 ∷ []))) }
    else if handle == 0x0012
    then record s' { written = s.written ++ value }
    else s'

pub on_write : ℕ → Server → List ℕ → Reply
unfolding written_server
on_write opcode s payload = with_u16 payload λ handle. elim (find handle s.attrs) [
  | none ↦ if opcode == write_req then reply s (error opcode handle invalid_handle) else silent s
  | some a ↦
      let s' = written_server s handle (drop 3 payload) in
      if opcode == write_req then reply s' (write_rsp ∷ []) else silent s'
]

-- The dispatch of `feed` on the opcode.
unfoldable pub handle_request : Server → ℕ → List ℕ → Reply
unfolding on_exchange_mtu read_by_group_type read_by_type find_information on_read on_read_blob
    on_write
handle_request s opcode payload =
    if opcode == exchange_mtu_req
    then on_exchange_mtu s payload
    else if opcode == read_by_group_type_req
    then with_range payload
        (λ start end. reply s (read_by_group_type s.mtu s.attrs start end (drop 5 payload)))
    else if opcode == read_by_type_req
    then with_range payload
        (λ start end. reply s (read_by_type s.mtu s.attrs start end (drop 5 payload)))
    else if opcode == find_information_req
    then with_range payload (λ start end. reply s (find_information s.mtu s.attrs start end))
    else if opcode == read_req
    then on_read s payload
    else if opcode == read_blob_req
    then on_read_blob s payload
    else if (opcode == write_req) || (opcode == write_cmd)
    then on_write opcode s payload
    else if opcode % 2 == 0
    then reply s (error opcode 0x0000 request_not_supported)
    else silent s
