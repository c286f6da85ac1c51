-- ===== src/Att.antt =====
-- The class `AttServer` of python/hcicontroller/hci_ble_test_impl.py: its codes, attributes and state.
-- Att/Requests has the reply to each request, Att/Feed what sends it. Texts are octets; what is printed
-- is not kept.
pub mod Requests
pub mod Feed
mod Examples
use hci_controller.Base.{◌==◌, if◌then◌else◌, u16, ℕ, Option, none, some, List, [], ◌∷◌, ◌++◌}
use hci_controller.Hci.{Hci}

abbrev pub cid_att : ℕ
cid_att = 0x0004

abbrev pub error_rsp : ℕ
error_rsp = 0x01

abbrev pub exchange_mtu_req : ℕ
exchange_mtu_req = 0x02

abbrev pub exchange_mtu_rsp : ℕ
exchange_mtu_rsp = 0x03

abbrev pub find_information_req : ℕ
find_information_req = 0x04

abbrev pub find_information_rsp : ℕ
find_information_rsp = 0x05

abbrev pub read_by_type_req : ℕ
read_by_type_req = 0x08

abbrev pub read_by_type_rsp : ℕ
read_by_type_rsp = 0x09

abbrev pub read_req : ℕ
read_req = 0x0A

abbrev pub read_rsp : ℕ
read_rsp = 0x0B

abbrev pub read_blob_req : ℕ
read_blob_req = 0x0C

abbrev pub read_blob_rsp : ℕ
read_blob_rsp = 0x0D

abbrev pub read_by_group_type_req : ℕ
read_by_group_type_req = 0x10

abbrev pub read_by_group_type_rsp : ℕ
read_by_group_type_rsp = 0x11

abbrev pub write_req : ℕ
write_req = 0x12

abbrev pub write_rsp : ℕ
write_rsp = 0x13

abbrev pub handle_value_ntf : ℕ
handle_value_ntf = 0x1B

abbrev pub write_cmd : ℕ
write_cmd = 0x52

abbrev pub invalid_handle : ℕ
invalid_handle = 0x01

abbrev pub request_not_supported : ℕ
request_not_supported = 0x06

abbrev pub invalid_offset : ℕ
invalid_offset = 0x07

abbrev pub attribute_not_found : ℕ
attribute_not_found = 0x0A

abbrev pub uuid_primary_service : ℕ
uuid_primary_service = 0x2800

abbrev pub uuid_characteristic : ℕ
uuid_characteristic = 0x2803

abbrev pub uuid_cccd : ℕ
uuid_cccd = 0x2902

abbrev pub uuid_device_name : ℕ
uuid_device_name = 0x2A00

abbrev pub uuid_appearance : ℕ
uuid_appearance = 0x2A01

pub record Attribute : Type 0 where
  pub handle : ℕ
  pub uuid : List ℕ
  pub value : List ℕ
  pub group_end : Option ℕ

abbrev pub attribute : ℕ → List ℕ → List ℕ → Attribute
attribute handle uuid value = record {
  handle = handle;
  uuid = uuid;
  value = value;
  group_end = none;
}

abbrev pub service : ℕ → List ℕ → ℕ → Attribute
service handle value end = record {
  handle = handle;
  uuid = u16 uuid_primary_service;
  value = value;
  group_end = some end;
}

-- The Nordic UART UUIDs, least significant octet first, with their third octet from the end.
abbrev nus_uuid : ℕ → List ℕ
nus_uuid k =
    0x9E ∷ 0xCA ∷ 0xDC ∷ 0x24 ∷ 0x0E ∷ 0xE5 ∷ 0xA9 ∷ 0xE0 ∷ 0x93 ∷ 0xF3 ∷ 0xA3 ∷ 0xB5 ∷ k ∷ 0x00
    ∷ 0x40 ∷ 0x6E ∷ []

abbrev pub nus_service : List ℕ
nus_service = nus_uuid 0x01

abbrev pub nus_rx : List ℕ
nus_rx = nus_uuid 0x02

abbrev pub nus_tx : List ℕ
nus_tx = nus_uuid 0x03

-- `build`
abbrev pub build : List ℕ → List Attribute
build name =
    service 0x0001 (u16 0x1800) 0x0005
    ∷ attribute 0x0002 (u16 uuid_characteristic) (0x02 ∷ (u16 0x0003 ++ u16 uuid_device_name))
    ∷ attribute 0x0003 (u16 uuid_device_name) name
    ∷ attribute 0x0004 (u16 uuid_characteristic) (0x02 ∷ (u16 0x0005 ++ u16 uuid_appearance))
    ∷ attribute 0x0005 (u16 uuid_appearance) (u16 0x0000)
    ∷ service 0x0010 nus_service 0x0015
    ∷ attribute 0x0011 (u16 uuid_characteristic) (0x0C ∷ (u16 0x0012 ++ nus_rx))
    ∷ attribute 0x0012 nus_rx []
    ∷ attribute 0x0013 (u16 uuid_characteristic) (0x10 ∷ (u16 0x0014 ++ nus_tx))
    ∷ attribute 0x0014 nus_tx []
    ∷ attribute 0x0015 (u16 uuid_cccd) (u16 0x0000)
    ∷ []

-- The attributes of an `AttServer`; `sent` lists what `send_acl` has been called with.
pub record Server : Type 0 where
  pub conn : ℕ
  pub mtu : ℕ
  pub requests : ℕ
  pub responses : ℕ
  pub notifications : ℕ
  pub written : List ℕ
  pub cccd : ℕ
  pub attrs : List Attribute
  pub hci : Hci
  pub sent : List (List ℕ)

-- `__init__`
abbrev pub init : Hci → ℕ → List ℕ → Server
init hci handle name = record {
  conn = handle;
  mtu = 23;
  requests = 0;
  responses = 0;
  notifications = 0;
  written = [];
  cccd = 0;
  attrs = build name;
  hci = hci;
  sent = [];
}

-- `find`
pub find : ℕ → List Attribute → Option Attribute
find handle [] = none
find handle (a ∷ rest) = if a.handle == handle then some a else find handle rest

-- `attr.value = value` for the attribute that `find` returns.
pub store : ℕ → List ℕ → List Attribute → List Attribute
store handle value [] = []
store handle value (a ∷ rest) =
    if a.handle == handle then record a { value = value } ∷ rest else a ∷ store handle value rest
