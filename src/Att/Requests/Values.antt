-- ===== src/Att/Requests/Values.antt =====
-- A client that writes a value and reads it back in parts.
use hci_controller.Base.{
  ltb, ◌==◌, if◌then◌else◌, ltb→lt, le→ltb, ltb→ge, Bool-cases, length, drop, slice,
  take-append-drop, length-take, length-drop, take_of_le, u16, from_little, from_little-u16, ok,
  err, ℕ, zero, suc, ◌+◌, ◌-◌, ◌≤◌, ◌<◌, ◌≡◌, refl, sym, ap, subst, ◌∙◌, inl, inr, false, Option,
  none, some, List, [], ◌∷◌, ◌++◌, arith,
}
use hci_controller.Att.{
  Attribute, Server, find, store, read_blob_req, read_blob_rsp, write_req, write_rsp,
}
use hci_controller.Att.Requests.{handle_request, on_write, on_read_blob, written_server, reply}
use hci_controller.Att.Requests.Fits.{IsMtu}

abbrev pub write_request : ℕ → List ℕ → List ℕ
write_request handle value = write_req ∷ (u16 handle ++ value)

abbrev pub blob_request : ℕ → ℕ → List ℕ
blob_request handle offset = read_blob_req ∷ (u16 handle ++ u16 offset)

-- What a Read Blob Request brings, if it brings a part of the value.
pub blob : Server → ℕ → ℕ → Option (List ℕ)
unfolding handle_request
blob s handle offset = elim (handle_request s read_blob_req (blob_request handle offset)) [
  | err e ↦ none
  | ok (after, none) ↦ none
  | ok (after, some []) ↦ none
  | ok (after, some (code ∷ part)) ↦ if code == read_blob_rsp then some part else none
]

-- The parts from an offset on, up to one that is shorter than a response holds.
pub read_long : ℕ → Server → ℕ → ℕ → Option (List ℕ)
unfolding blob
read_long zero s handle offset = none
read_long (suc n) s handle offset = elim (blob s handle offset) [
  | none ↦ none
  | some part ↦
      let more : Option (List ℕ) = elim (read_long n s handle (offset + length part)) [
        | none ↦ none
        | some later ↦ some (part ++ later)
      ] in
      if ltb (length part) (s.mtu - 1) then some part else more
]

find-store :
    (handle : ℕ) (value : List ℕ) (attrs : List Attribute) (a : Attribute)
    → find handle attrs ≡ some a
    → (b : Attribute) × (find handle (store handle value attrs) ≡ some b) × (b.value ≡ value)
unfolding find store
find-store handle value [] a e = cc
find-store handle value (x ∷ attrs) a e = elim (Bool-cases (x.handle == handle)) [
  | inl f ↦ rw (f, f) (record x { value = value }, refl, refl)
  | inr f ↦
      rw (f, f) (find-store handle value attrs a (subst (λ o. o ≡ some a) (rw (find, f) refl) e))
]

blob-slice :
    (s : Server) (handle offset : ℕ) (a : Attribute)
    → handle < 65536
    → offset < 65536
    → find handle s.attrs ≡ some a
    → offset ≤ length a.value
    → blob s handle offset ≡ some (slice a.value offset (offset + s.mtu - 1))
unfolding blob handle_request on_read_blob
blob-slice s handle offset a hh ho e h =
    let found : find (from_little (u16 handle)) s.attrs ≡ some a =
      subst (λ k. find k s.attrs ≡ some a) (sym (from_little-u16 handle hh)) e in
    let at : from_little (u16 offset) ≡ offset = from_little-u16 offset ho in
    let inside : ltb (length a.value) (from_little (u16 offset)) ≡ false =
      le→ltb (length a.value) (from_little (u16 offset))
        (subst (λ k. k ≤ length a.value) (sym at) h) in
    rw (blob, found, inside) (ap (λ k. some (slice a.value k (k + s.mtu - 1))) at)

drop_nil : (n : ℕ) → drop {A = ℕ} n [] ≡ []
drop_nil zero = refl
drop_nil (suc n) = refl

drop_add : (n k : ℕ) (xs : List ℕ) → drop (n + k) xs ≡ drop k (drop n xs)
drop_add zero k xs = let e : zero + k ≡ k = omega arith in ap (λ m. drop m xs) e
drop_add (suc n) k [] = drop_nil (suc n + k) ∙ sym (drop_nil k)
drop_add (suc n) k (x ∷ xs) =
    let e : suc n + k ≡ suc (n + k) = omega arith in ap (λ m. drop m (x ∷ xs)) e ∙ drop_add n k xs

read_long-drop :
    (n : ℕ) (s : Server) (handle offset : ℕ) (a : Attribute)
    → IsMtu s.mtu
    → handle < 65536
    → find handle s.attrs ≡ some a
    → length a.value < 65536
    → offset ≤ length a.value
    → length a.value < offset + n
    → read_long n s handle offset ≡ some (drop offset a.value)
unfolding read_long
read_long-drop zero s handle offset a hm hh e hv ho fuel =
    let no : ⊥ = omega (arith, fuel, ho) in elim no [ ]
read_long-drop (suc n) s handle offset a hm hh e hv ho fuel =
    let width = offset + s.mtu - 1 - offset in
    let part = slice a.value offset (offset + s.mtu - 1) in
    let got : blob s handle offset ≡ some part =
      blob-slice s handle offset a hh (omega (arith, hv, ho)) e ho in
    elim (Bool-cases (ltb (length part) (s.mtu - 1))) [
      | inl f ↦
          rw (read_long, got, f)
            (ap some (
              take_of_le width (drop offset a.value) (
                omega (
                  arith,
                  hm,
                  ltb→lt (length part) (s.mtu - 1) f,
                  length-take width (drop offset a.value),
                ))))
      | inr f ↦
          let full : length part ≡ s.mtu - 1 = omega (
            arith,
            hm,
            ltb→ge (length part) (s.mtu - 1) f,
            length-take width (drop offset a.value),
          ) in
          let on : drop (offset + length part) a.value ≡ drop width (drop offset a.value) =
            drop_add offset (length part) a.value
            ∙ ap (λ k. drop k (drop offset a.value)) (omega (arith, hm, full)) in
          let bound = length-drop offset a.value in
          let cut = length-take width (drop offset a.value) in
          let later : read_long n s handle (offset + length part)
              ≡ some (drop (offset + length part) a.value) =
            read_long-drop n s handle (offset + length part) a hm hh e hv
              (omega (arith, ho, bound, cut)) (omega (arith, hm, full, fuel)) in
          rw (read_long, got, f, later)
            (ap some (ap (λ r. part ++ r) on ∙ take-append-drop width (drop offset a.value)))
    ]

-- The server that a Write Request for an attribute of the table leaves.
write_answered :
    (s : Server) (handle : ℕ) (value : List ℕ) (a : Attribute)
    → handle < 65536
    → find handle s.attrs ≡ some a
    → handle_request s write_req (write_request handle value)
      ≡ ok (written_server s handle value, some (write_rsp ∷ []))
unfolding handle_request on_write
write_answered s handle value a hh e =
    let found : find (from_little (u16 handle)) s.attrs ≡ some a =
      subst (λ k. find k s.attrs ≡ some a) (sym (from_little-u16 handle hh)) e in
    let enough : ltb (length (write_request handle value)) 3 ≡ false =
      le→ltb (length (write_request handle value)) 3 (omega arith) in
    rw (handle_request, on_write, found, enough)
      (ap (λ k. reply (written_server s k value) (write_rsp ∷ [])) (from_little-u16 handle hh))

written_server-find :
    (s : Server) (handle : ℕ) (value : List ℕ) (a : Attribute)
    → find handle s.attrs ≡ some a
    → (b : Attribute) × (find handle (written_server s handle value).attrs ≡ some b)
      × (b.value ≡ value)
      × ((written_server s handle value).mtu ≡ s.mtu)
unfolding written_server
written_server-find s handle value a e =
    let (b, found, same) = find-store handle value s.attrs a e in
    elim (Bool-cases (handle == 0x0015)) [
      | inl f ↦ rw f (b, found, same, refl)
      | inr f ↦ elim (Bool-cases (handle == 0x0012)) [
        | inl g ↦ rw (f, g) (b, found, same, refl)
        | inr g ↦ rw (f, g) (b, found, same, refl)
      ]
    ]

-- A Write Request for an attribute of the table is answered with a Write Response, and a client that
-- then reads the attribute by Read Blob Requests, until a part is shorter than a response holds, gets
-- exactly the value written: for an MTU from 23 to 247 and values shorter than 65536 octets, with more
-- requests allowed than the value has octets.
pub write_request-read_long :
    (s : Server) (handle n : ℕ) (value : List ℕ) (a : Attribute)
    → IsMtu s.mtu
    → handle < 65536
    → find handle s.attrs ≡ some a
    → length value < 65536
    → length value < n
    → (after : Server) × (handle_request s write_req (write_request handle value)
        ≡ ok (after, some (write_rsp ∷ [])))
      × (read_long n after handle 0 ≡ some value)
write_request-read_long s handle n value a hm hh e hv fuel =
    let (b, found, same, mtu) = written_server-find s handle value a e in
    let after = written_server s handle value in
    (
      after,
      write_answered s handle value a hh e,
      read_long-drop n after handle 0 b (subst IsMtu (sym mtu) hm) hh found
            (omega (arith, hv, ap length same)) (omega arith) (omega (arith, fuel, ap length same))
          ∙ ap some same,
    )
