-- ===== src/Att/Requests/Client.antt =====
-- A client that discovers the primary services, by Read By Group Type from handle 1 on.
pub mod Taken
pub mod Discovery
use hci_controller.Base.{
  ◌==◌, if◌then◌else◌, length, drop, slice, u16, from_little, ok, err, ℕ, zero, suc, ◌+◌, ◌≤◌, ◌<◌,
  ◌≡◌, ◌⊎◌, Option, none, some, List, [], ◌∷◌, ◌++◌,
}
use hci_controller.Att.{
  Attribute, Server, read_by_group_type_req, read_by_group_type_rsp, uuid_primary_service,
}
use hci_controller.Att.Requests.{
  collect, concat, listing, read_by_group_type, handle_request, Reply, group_entry, in_range,
}
use hci_controller.Att.Requests.Fits.{IsMtu}

-- The first handle, the last one and the UUID of a service.
abbrev pub Group : Type 0
Group = ℕ × ℕ × List ℕ

abbrev pub group : ℕ → ℕ → List ℕ → Group
group first last value = (first, last, value)

-- The entry of a service in the response.
abbrev pub entry : Group → List ℕ
entry (first, last, value) = u16 first ++ (u16 last ++ value)

-- The services of an attribute table.
abbrev pub groups : List Attribute → List Group
groups [] = []
groups (a ∷ rest) = elim a.group_end [
  | none ↦ groups rest
  | some last ↦ group a.handle last a.value ∷ groups rest
]

-- Services with UUIDs of 16 or 128 bits, whose ranges lie one after the other from `low` on.
abbrev pub IsOrdered : ℕ → List Group → Type 0
IsOrdered low [] = Unit {0}
IsOrdered low ((first, last, value) ∷ gs) =
    (low ≤ first)
    × (first ≤ last)
    × (last < 0xFFFF)
    × ((length value ≡ 2) ⊎ (length value ≡ 16))
    × IsOrdered (last + 1) gs

-- The client: what it asks from a handle on, how it reads the answer, and its rounds.
abbrev pub request : ℕ → List ℕ
request start = read_by_group_type_req ∷ (u16 start ++ (u16 0xFFFF ++ u16 uuid_primary_service))

abbrev pub entries : ℕ → ℕ → List ℕ → List Group
entries zero size octets = []
entries (suc k) size [] = []
entries (suc k) size (x ∷ xs) =
    let octets = x ∷ xs in
    group (from_little (slice octets 0 2)) (from_little (slice octets 2 4)) (slice octets 4 size)
    ∷ entries k size (drop size octets)

pub answer_groups : List ℕ → List Group
answer_groups (code ∷ size ∷ octets) =
    if code == read_by_group_type_rsp then entries (length octets) size octets else []
answer_groups _ = []

abbrev pub next_start : ℕ → List Group → ℕ
next_start start [] = start
next_start start ((first, last, value) ∷ gs) = next_start (last + 1) gs

pub discover : ℕ → (ℕ → List ℕ) → ℕ → Option (List Group)
unfolding answer_groups
discover zero ask start = none
discover (suc n) ask start =
    let found = answer_groups (ask start) in
    let more : Option (List Group) = elim (discover n ask (next_start start found)) [
      | none ↦ none
      | some later ↦ some (found ++ later)
    ] in
    elim found [ [] ↦ some [] | g ∷ gs ↦ more ]

-- What the server replies to a request.
pub answer : Server → ℕ → List ℕ
unfolding handle_request
answer s start = elim (handle_request s read_by_group_type_req (request start)) [
  | err e ↦ []
  | ok (after, none) ↦ []
  | ok (after, some payload) ↦ payload
]

abbrev pub IsHandle : Attribute → Type 0
IsHandle a = a.handle ≤ 0xFFFF
