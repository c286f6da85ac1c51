-- ===== src/Cleanup.antt =====
-- `wait_disconnected` of python/hcicontroller/hci_cis_cleanup.py.
pub mod Teardown
mod Examples
use hci_controller.Base.{
  ltb, ◌==◌, if◌then◌else◌, le→ltb, ==_refl, ==→eq, Bool-cases, length, slice, All, u16,
  from_little, from_little-u16, small_mod, Result-cases, Exn, Result, ok, err, transport_error,
  transport_gone, selection_error, hci_error, hci_gone, struct_error, index_error, key_error,
  value_error, pairing_error, runtime_error, ℕ, ◌+◌, ◌*◌, ◌%◌, ◌<◌, ◌≡◌, refl, sym, ap, subst, ◌∙◌,
  inl, inr, Bool, true, false, not, ◌&&◌, Option, none, some, List, [], ◌∷◌, ◌++◌, arith,
}
use hci_controller.Transport.Packet.{Packet, Frame, event, packet_of, h4_event}
use hci_controller.Hci.{Hci, evt_disconnection_complete}
use hci_controller.Hci.Command.{Ended, is_event}
use hci_controller.Hci.Steps.{packets_of, event_read}
use hci_controller.Hci.Search.{Found, search, IsOther}
use hci_controller.Hci.Search.Conserve.{Account, search-Conserves}
use hci_controller.Hci.Search.Reach.{IsQuiet, IsSound, search_wire}

-- The event that the wait is for; it does not look at the status.
pub disconnected : ℕ → Packet → Result (Option (Unit {0}))
disconnected handle p =
    if not (is_event evt_disconnection_complete p)
    then ok none
    else if ltb (length p.body) 3
    then ok none
    else if from_little (slice p.body 1 3) % 0x1000 == handle
    then ok (some tt)
    else ok none

-- The end of the wait: the packets passed over are dropped, and `HciError` and `HciGone` give False.
pub conclude : Found (Unit {0}) → Ended Bool
conclude o = record {
  result = elim o.result [
    | err hci_error ↦ ok false
    | err hci_gone ↦ ok false
    | err e ↦ err e
    | ok none ↦ ok false
    | ok (some u) ↦ ok true
  ];
  hci = o.hci;
  reads = o.reads;
}

-- `wait_disconnected`
unfoldable pub wait_disconnected : ℕ → ℕ → List (Result (Option Packet)) → Hci → Ended Bool
unfolding conclude
wait_disconnected handle turns reads h = conclude (search (disconnected handle) turns reads [] h)

-- Disconnection Complete (Vol 4 Part E 7.7.5).
abbrev pub disconnection : ℕ → ℕ → ℕ → Packet
disconnection status handle reason =
    packet_of (event evt_disconnection_complete (status ∷ (u16 handle ++ (reason ∷ []))))

disconnected-disconnection :
    (status handle reason : ℕ)
    → handle < 0x1000
    → disconnected handle (disconnection status handle reason) ≡ ok (some tt)
unfolding disconnected
disconnected-disconnection status handle reason h =
    rw (from_little-u16 handle (omega arith), small_mod handle h, ==_refl handle) refl

-- Where no pending packet tells of the handle's disconnection, and the wire gives a Disconnection
-- Complete for it behind reads of other packets, none of which makes `on_event` raise, a wait
-- with time for all of them returns True, whatever the status of the event is.
pub wait_disconnected_any_status :
    (status handle reason turns : ℕ) (rs more : List (Result (Option Packet))) (h : Hci)
    → handle < 0x1000
    → All (IsOther (disconnected handle)) h.pending
    → All (IsQuiet (disconnected handle)) rs
    → length h.pending + length rs < turns
    → let o =
        wait_disconnected handle turns
          (rs ++ (ok (some (disconnection status handle reason)) ∷ more))
          h in
      (o.result ≡ ok true) × (o.reads ≡ more)
unfolding wait_disconnected conclude
wait_disconnected_any_status status handle reason turns rs more h small others quiet lt =
    let (found, aside, empty, unread) =
      search_wire (disconnected handle) (disconnection status handle reason) tt
        (disconnected-disconnection status handle reason small) turns rs more [] h.pending h others
        quiet
        (λ h'.
          event_read evt_disconnection_complete (disconnection status handle reason).body h' refl)
        lt in
    rw (found, unread) (refl, refl)

-- A Disconnection Complete for the handle, as the specification lays it out: the event code, then at
-- least a status and the handle in 12 bits of the two octets behind it.
abbrev pub IsDisconnection : ℕ → Packet → Type 0
IsDisconnection handle p =
    (p.kind ≡ h4_event)
    × (p.code ≡ some 0x05)
    × (status low high : ℕ) × (rest : List ℕ) × (p.body ≡ status ∷ low ∷ high ∷ rest)
    × ((low + 256 * high) % 4096 ≡ handle)

both_tests : (a b c d : ℕ) → ((a == b) && (c == d)) ≡ true → (a ≡ b) × (c ≡ d)
both_tests a b c d h = (ground arith, ground arith)

long_enough :
    (status low high : ℕ) (rest : List ℕ) → ltb (length (status ∷ low ∷ high ∷ rest)) 3 ≡ false
long_enough status low high rest = le→ltb (length (status ∷ low ∷ high ∷ rest)) 3 (omega arith)

-- What the wait looks for is exactly that.
disconnected_only :
    (handle kind : ℕ) (code : Option ℕ) (body : List ℕ)
    → let p : Packet = record { kind = kind; code = code; body = body } in
      disconnected handle p ≡ ok (some tt) → IsDisconnection handle p
unfolding disconnected
disconnected_only handle kind none body h = cc
disconnected_only handle kind (some c) body h =
    elim (Bool-cases ((kind == h4_event) && (c == evt_disconnection_complete))) [
      | inr miss ↦ absurd (cc (rw miss at h))
      | inl hit ↦
          let (k, e) = both_tests kind h4_event c evt_disconnection_complete hit in
          by_body body (rw hit at h) k e
    ]
  where
    by_body :
        (body : List ℕ)
        → (let r : Result (Option (Unit {0})) =
              if ltb (length body) 3
              then ok none
              else if from_little (slice body 1 3) % 0x1000 == handle
              then ok (some tt)
              else ok none in
            let picked : Result (Option (Unit {0})) = ok (some tt) in r ≡ picked)
        → kind ≡ h4_event
        → c ≡ 0x05
        → IsDisconnection handle (record { kind = kind; code = some c; body = body })
    by_body [] h k e = cc
    by_body (status ∷ []) h k e = cc
    by_body (status ∷ low ∷ []) h k e = cc
    by_body (status ∷ low ∷ high ∷ rest) h k e =
        elim (Bool-cases ((low + 256 * (high + 256 * 0)) % 0x1000 == handle)) [
          | inr miss ↦ absurd (cc (rw (long_enough status low high rest, miss) at h))
          | inl hit ↦
              let same = ==→eq ((low + 256 * (high + 256 * 0)) % 0x1000) handle hit in
              (k, ap some e, status, low, high, rest, refl, omega (arith, same))
        ]

disconnected-IsDisconnection :
    (handle : ℕ) (p : Packet) → disconnected handle p ≡ ok (some tt) → IsDisconnection handle p
disconnected-IsDisconnection handle p h = disconnected_only handle p.kind p.code p.body h

-- A packet that the wait passes over is none.
passed_over :
    (handle : ℕ) (p : Packet) → IsOther (disconnected handle) p → ¬ IsDisconnection handle p
unfolding disconnected
passed_over handle p h (kind, code, status, low, high, rest, body, same) =
    let value : ((low + 256 * (high + 256 * 0)) % 0x1000 == handle) ≡ true = ground (arith, same) in
    let found : disconnected handle p ≡ ok (some tt) =
      rw (disconnected, code, kind, body, long_enough status low high rest, value) refl in
    absurd (cc (sym h ∙ found))

each_passed_over :
    (handle : ℕ) (ps : List Packet)
    → All (IsOther (disconnected handle)) ps
    → All (λ p. ¬ IsDisconnection handle p) ps
each_passed_over handle [] h = tt
each_passed_over handle (p ∷ ps) h = (passed_over handle p h.0, each_passed_over handle ps h.1)

-- A wait that returns True has made some of the reads, and the first Disconnection Complete for the
-- handle, as the specification lays it out and with any status, among the packets pending and those
-- that the reads gave, is the last one taken; what followed is still pending.
pub wait_disconnected_returned :
    (handle turns : ℕ) (reads : List (Result (Option Packet))) (h : Hci)
    → (wait_disconnected handle turns reads h).result ≡ ok true
    → let o = wait_disconnected handle turns reads h in
      (used : List (Result (Option Packet))) × (pre : List Packet) × (x : Packet) × (reads
        ≡ used ++ o.reads)
      × (h.pending ++ packets_of used ≡ pre ++ (x ∷ o.hci.pending))
      × All (λ p. ¬ IsDisconnection handle p) pre
      × IsDisconnection handle x
unfolding wait_disconnected conclude
wait_disconnected_returned handle turns reads h e =
    let pick = disconnected handle in
    let o = search pick turns reads [] h in
    let (used, split, others, account) = search-Conserves pick turns reads h in
    elim (Result-cases o.result) [
      | inl (x, f) ↦ absurd (raised x (rw f at e))
      | inr (none, f) ↦ absurd (cc (rw f at e))
      | inr (some u, f) ↦
          let (x, right, all) =
            subst (λ r. Account pick (h.pending ++ packets_of used) (record o { result = r })) f
              account in
          (
            used,
            o.deferred,
            x,
            split,
            all,
            each_passed_over handle o.deferred others,
            disconnected-IsDisconnection handle x right,
          )
    ]
  where
    raised :
        (x : Exn)
        → ¬ (
            (conclude
              (record (search (disconnected handle) turns reads [] h) { result = err x })).result
            ≡ ok true)
    raised hci_error e = cc
    raised hci_gone e = cc
    raised transport_error e = cc
    raised transport_gone e = cc
    raised selection_error e = cc
    raised struct_error e = cc
    raised index_error e = cc
    raised key_error e = cc
    raised value_error e = cc
    raised pairing_error e = cc
    raised runtime_error e = cc
