-- ===== src/Att/Requests/Fits.antt =====
-- Every reply fits the MTU before `send` cuts it.
use hci_controller.Base.{
  ltb, ◌==◌, if◌then◌else◌, ==_refl, ==→eq, ltb→ge, Bool-cases, Option-cases, bytes_eq, length,
  drop, slice, All, length-append, length-take, u16, from_little, ok, err, ℕ, ◌+◌, ◌-◌, ◌*◌, ◌%◌,
  ◌≤◌, ◌≡◌, refl, sym, ap, subst, ◌∙◌, ◌⊎◌, inl, inr, Bool, true, false, not, ◌||◌, Option, none,
  some, List, [], ◌∷◌, ◌++◌, arith,
}
use hci_controller.Att.{
  Attribute, Server, find, store, write_req, write_cmd, read_req, read_blob_req, read_by_type_req,
  read_by_group_type_req, exchange_mtu_req, find_information_req, find_information_rsp,
  attribute_not_found, uuid_primary_service,
}
use hci_controller.Att.Requests.{
  collect, concat, listing, gather, read_by_group_type, read_by_type, find_information, error,
  on_exchange_mtu, on_read, on_read_blob, on_write, written_server, handle_request, Reply,
  format_of, in_range,
}

-- The limits that `AttServer` keeps its MTU in.
abbrev pub IsMtu : ℕ → Type 0
IsMtu n = (23 ≤ n) × (n ≤ 247)

-- One round of the loop of `collect`, once a first entry has set the size: it passes over the
-- attribute, ends, or takes an entry that fits.
collect_round :
    (mtu : ℕ) (entry_of : Attribute → Option (List ℕ)) (a : Attribute) (rest : List Attribute)
    (count size : ℕ)
    → ((entry_of a ≡ none)
        × (collect mtu entry_of (a ∷ rest) count (some size)
            ≡ collect mtu entry_of rest count (some size)))
      ⊎ ((collect mtu entry_of (a ∷ rest) count (some size) ≡ [])
          ⊎ ((entry : List ℕ) × (entry_of a ≡ some entry)
              × (length entry ≡ size)
              × (2 + count * size + size ≤ mtu)
              × (collect mtu entry_of (a ∷ rest) count (some size)
                  ≡ entry ∷ collect mtu entry_of rest (count + 1) (some size))))
unfolding collect
collect_round mtu entry_of a rest count size = elim (Option-cases (entry_of a)) [
  | inl e ↦ inl (e, rw (collect, e) refl)
  | inr (entry, e) ↦ elim (Bool-cases (length entry == size)) [
    | inr f ↦ inr (inl (rw (collect, e, f) refl))
    | inl f ↦ elim (Bool-cases (ltb mtu (2 + count * size + size))) [
      | inl g ↦ inr (inl (rw (collect, e, f, g) refl))
      | inr g ↦
          inr (inr (entry, e, ground (arith, f), ground (arith, g), rw (collect, e, f, g) refl))
    ]
  ]
]

suc_mul : (n k : ℕ) → (n + 1) * k ≡ n * k + k
suc_mul n k = grind arith

-- Entries of `size` octets, `count` of them already taken, in a response of at most `mtu` octets.
collect_fits :
    (mtu : ℕ) (entry_of : Attribute → Option (List ℕ)) (attrs : List Attribute) (count size : ℕ)
    → 2 + count * size ≤ mtu
    → 2 + count * size + length (concat (collect mtu entry_of attrs count (some size))) ≤ mtu
unfolding collect
collect_fits mtu entry_of [] count size h = omega arith
collect_fits mtu entry_of (a ∷ rest) count size h =
    elim (collect_round mtu entry_of a rest count size) [
      | inl (e, same) ↦ rw same (collect_fits mtu entry_of rest count size h)
      | inr (inl over) ↦ rw over (omega arith)
      | inr (inr (entry, e, sized, fits, more)) ↦ rw more (
          omega (
            arith,
            suc_mul count size,
            length-append entry (concat (collect mtu entry_of rest (count + 1) (some size))),
            collect_fits mtu entry_of rest (count + 1) size (omega (arith, suc_mul count size)),
          ))
    ]

-- The loop before there is an entry.
collect_start :
    (mtu : ℕ) (entry_of : Attribute → Option (List ℕ)) (a : Attribute) (rest : List Attribute)
    → ((entry_of a ≡ none)
        × (collect mtu entry_of (a ∷ rest) 0 none ≡ collect mtu entry_of rest 0 none))
      ⊎ ((collect mtu entry_of (a ∷ rest) 0 none ≡ [])
          ⊎ ((entry : List ℕ) × (entry_of a ≡ some entry)
              × (2 + length entry ≤ mtu)
              × (collect mtu entry_of (a ∷ rest) 0 none
                  ≡ entry ∷ collect mtu entry_of rest 1 (some (length entry)))))
unfolding collect
collect_start mtu entry_of a rest = elim (Option-cases (entry_of a)) [
  | inl e ↦ inl (e, rw (collect, e) refl)
  | inr (entry, e) ↦ elim (Bool-cases (ltb mtu (2 + 0 * length entry + length entry))) [
    | inl g ↦ inr (inl (rw (collect, e, ==_refl (length entry), g) refl))
    | inr g ↦ inr (
        inr (
          entry,
          e,
          ground (arith, g, zero_mul (length entry)),
          rw (collect, e, ==_refl (length entry), g) refl,
        ))
  ]
]
  where
    zero_mul : (n : ℕ) → 0 * n ≡ 0
    zero_mul n = omega arith

pub listing_fits :
    (mtu req rsp start : ℕ) (entry_of : Attribute → Option (List ℕ)) (attrs : List Attribute)
    → 23 ≤ mtu
    → length (listing req rsp start (collect mtu entry_of attrs 0 none)) ≤ mtu
unfolding listing collect
listing_fits mtu req rsp start entry_of [] h = omega arith
listing_fits mtu req rsp start entry_of (a ∷ rest) h = elim (collect_start mtu entry_of a rest) [
  | inl (e, same) ↦ rw same (listing_fits mtu req rsp start entry_of rest h)
  | inr (inl over) ↦ rw over (omega arith)
  | inr (inr (entry, e, fits, more)) ↦
      let later = collect mtu entry_of rest 1 (some (length entry)) in
      rw more (
        omega (
          arith,
          length-append entry (concat later),
          collect_fits mtu entry_of rest 1 (length entry) (omega arith),
        ))
]

-- UUIDs of 16 and of 128 bits.
abbrev pub HasUuid : Attribute → Type 0
HasUuid a = (length a.uuid ≡ 2) ⊎ (length a.uuid ≡ 16)

abbrev size_of : ℕ → ℕ
size_of fmt = if fmt == 0x01 then 4 else 18

size-format : (a : Attribute) → HasUuid a → size_of (format_of a) ≡ 2 + length a.uuid
size-format a (inl e) = rw e refl
size-format a (inr e) = rw e refl

gather_round :
    (mtu start end : ℕ) (a : Attribute) (rest : List Attribute) (count fmt : ℕ)
    → HasUuid a
    → (gather mtu start end (a ∷ rest) count (some fmt)
        ≡ gather mtu start end rest count (some fmt))
      ⊎ ((gather mtu start end (a ∷ rest) count (some fmt) ≡ [])
          ⊎ ((2 + length a.uuid ≡ size_of fmt)
              × (2 + (count + 1) * size_of fmt ≤ mtu)
              × (gather mtu start end (a ∷ rest) count (some fmt)
                  ≡ (u16 a.handle ++ a.uuid) ∷ gather mtu start end rest (count + 1) (some fmt))))
unfolding gather
gather_round mtu start end a rest count fmt u = elim (Bool-cases (in_range start end a.handle)) [
  | inr e ↦ inl (rw (gather, e) refl)
  | inl e ↦ elim (Bool-cases (format_of a == fmt)) [
    | inr f ↦ inr (inl (rw (gather, e, f) refl))
    | inl f ↦ elim (Bool-cases (ltb mtu (2 + (count + 1) * length (u16 a.handle ++ a.uuid)))) [
      | inl g ↦ inr (inl (rw (gather, e, f, g) refl))
      | inr g ↦
          let sized : length (u16 a.handle ++ a.uuid) ≡ size_of fmt =
            omega (arith, sym (size-format a u) ∙ ap size_of (==→eq (format_of a) fmt f)) in
          inr (
            inr (
              omega (arith, sized),
              subst (λ n. 2 + (count + 1) * n ≤ mtu) sized (ltb→ge mtu _ g),
              rw (gather, e, f, g) refl,
            ))
    ]
  ]
]

gather_fits :
    (mtu start end : ℕ) (attrs : List Attribute) (count fmt : ℕ)
    → All HasUuid attrs
    → 2 + count * size_of fmt ≤ mtu
    → 2 + count * size_of fmt + length (concat (gather mtu start end attrs count (some fmt))) ≤ mtu
unfolding gather
gather_fits mtu start end [] count fmt hs h = omega arith
gather_fits mtu start end (a ∷ rest) count fmt hs h =
    elim (gather_round mtu start end a rest count fmt hs.0) [
      | inl same ↦ rw same (gather_fits mtu start end rest count fmt hs.1 h)
      | inr (inl over) ↦ rw over (omega arith)
      | inr (inr (sized, fits, more)) ↦ rw more (
          omega (
            arith,
            suc_mul count (size_of fmt),
            length-append a.uuid (concat (gather mtu start end rest (count + 1) (some fmt))),
            gather_fits mtu start end rest (count + 1) fmt hs.1 fits,
          ))
    ]

gather_start :
    (mtu start end : ℕ) (a : Attribute) (rest : List Attribute)
    → (gather mtu start end (a ∷ rest) 0 none ≡ gather mtu start end rest 0 none)
      ⊎ (gather mtu start end (a ∷ rest) 0 none
          ≡ gather mtu start end (a ∷ rest) 0 (some (format_of a)))
unfolding gather
gather_start mtu start end a rest = elim (Bool-cases (in_range start end a.handle)) [
  | inr e ↦ inl (rw (gather, e) refl)
  | inl e ↦ inr (rw (gather, e) refl)
]

-- The reply that `find_information` makes of its entries.
abbrev information : List (List ℕ) → ℕ → List ℕ
information entries start = elim entries [
  | [] ↦ error find_information_req start attribute_not_found
  | entry ∷ rest ↦
      find_information_rsp ∷ (if length entry == 4 then 0x01 else 0x02) ∷ (entry ++ concat rest)
]

information_fits :
    (mtu start : ℕ) (entries : List (List ℕ))
    → 23 ≤ mtu
    → 2 + length (concat entries) ≤ mtu
    → length (information entries start) ≤ mtu
information_fits mtu start [] h fits = omega arith
information_fits mtu start (entry ∷ rest) h fits = omega arith

find_information_fits :
    (mtu start end : ℕ) (attrs : List Attribute)
    → 23 ≤ mtu
    → All HasUuid attrs
    → length (information (gather mtu start end attrs 0 none) start) ≤ mtu
unfolding gather
find_information_fits mtu start end [] h hs = omega arith
find_information_fits mtu start end (a ∷ rest) h hs = elim (gather_start mtu start end a rest) [
  | inl same ↦ rw same (find_information_fits mtu start end rest h hs.1)
  | inr first ↦ rw first (
      information_fits mtu start (gather mtu start end (a ∷ rest) 0 (some (format_of a))) h
        (omega (arith, gather_fits mtu start end (a ∷ rest) 0 (format_of a) hs (omega arith))))
]

-- The MTU is between its limits, the UUIDs have one of two lengths, and `past` is what has been sent.
abbrev pub IsKept : List (List ℕ) → Server → Type 0
IsKept past s = IsMtu s.mtu × All HasUuid s.attrs × (s.sent ≡ past)

-- The server that a request leaves is kept, and the reply, if there is one, is no longer than the MTU.
abbrev pub Fits : List (List ℕ) → Reply → Type 0
Fits past (err e) = Unit {0}
Fits past (ok (s, none)) = IsKept past s
Fits past (ok (s, some payload)) = IsKept past s × (length payload ≤ s.mtu)

if-Fits :
    (past : List (List ℕ)) (b : Bool) (x y : Reply)
    → Fits past x
    → Fits past y
    → Fits past (if b then x else y)
if-Fits past true x y hx hy = hx
if-Fits past false x y hx hy = hy

store-HasUuid :
    (handle : ℕ) (value : List ℕ) (attrs : List Attribute)
    → All HasUuid attrs
    → All HasUuid (store handle value attrs)
unfolding store
store-HasUuid handle value [] hs = tt
store-HasUuid handle value (a ∷ rest) hs = elim (Bool-cases (a.handle == handle)) [
  | inl e ↦ rw e hs
  | inr e ↦ rw e (hs.0, store-HasUuid handle value rest hs.1)
]

if-fits :
    (b : Bool) (x y : List ℕ) (n : ℕ)
    → length x ≤ n
    → length y ≤ n
    → length (if b then x else y) ≤ n
if-fits true x y n hx hy = hx
if-fits false x y n hx hy = hy

written_server-IsKept :
    (past : List (List ℕ)) (s : Server) (handle : ℕ) (value : List ℕ)
    → IsKept past s
    → IsKept past (written_server s handle value)
unfolding written_server
written_server-IsKept past s handle value (hm, hs, hp) =
    let kept = store-HasUuid handle value s.attrs hs in
    elim (Bool-cases (handle == 0x0015)) [
      | inl e ↦ rw e (hm, kept, hp)
      | inr e ↦ elim (Bool-cases (handle == 0x0012)) [
        | inl f ↦ rw (e, f) (hm, kept, hp)
        | inr f ↦ rw (e, f) (hm, kept, hp)
      ]
    ]

module _ (past : List (List ℕ)) (s : Server) (h : IsKept past s) (payload : List ℕ) where
  on_exchange_mtu-Fits : Fits past (on_exchange_mtu s payload)
  unfolding on_exchange_mtu
  on_exchange_mtu-Fits =
      if-Fits past (ltb (length payload) 3) _ _ tt
        (((omega (arith, h.0), omega (arith, h.0)), h.1, h.2), omega (arith, h.0))

  on_read-Fits : Fits past (on_read s payload)
  unfolding on_read
  on_read-Fits =
      if-Fits past (ltb (length payload) 3) _ _ tt
        (elim (Option-cases (find (from_little (slice payload 1 3)) s.attrs)) [
          | inl e ↦ rw e (h, omega (arith, h.0))
          | inr (a, e) ↦ rw e (h, omega (arith, h.0, length-take (s.mtu - 1) a.value))
        ])

  on_read_blob-Fits : Fits past (on_read_blob s payload)
  unfolding on_read_blob
  on_read_blob-Fits =
      if-Fits past (ltb (length payload) 5) _ _ tt
        (elim (Option-cases (find (from_little (slice payload 1 3)) s.attrs)) [
          | inl e ↦ rw e (h, omega (arith, h.0))
          | inr (a, e) ↦ rw e (
              if-Fits past (ltb (length a.value) (from_little (slice payload 3 5))) _ _
                (h, omega (arith, h.0))
                (
                  h,
                  omega (
                    arith,
                    h.0,
                    length-take
                        (from_little (slice payload 3 5)
                          + s.mtu
                          - 1
                          - from_little (slice payload 3 5))
                        (drop (from_little (slice payload 3 5)) a.value),
                  ),
                ))
        ])

  on_write-Fits : (opcode : ℕ) → Fits past (on_write opcode s payload)
  unfolding on_write
  on_write-Fits opcode =
      if-Fits past (ltb (length payload) 3) _ _ tt
        (elim (Option-cases (find (from_little (slice payload 1 3)) s.attrs)) [
          | inl e ↦ rw e (if-Fits past (opcode == write_req) _ _ (h, omega (arith, h.0)) h)
          | inr (a, e) ↦
              let kept =
                written_server-IsKept past s (from_little (slice payload 1 3)) (drop 3 payload) h in
              rw e (if-Fits past (opcode == write_req) _ _ (kept, omega (arith, kept.0)) kept)
        ])

  pub handle_request-Fits : (opcode : ℕ) → Fits past (handle_request s opcode payload)
  unfolding handle_request read_by_group_type read_by_type find_information
  handle_request-Fits opcode = if-Fits past (opcode == exchange_mtu_req) _ _ on_exchange_mtu-Fits (
      if-Fits past (opcode == read_by_group_type_req) _ _
        (if-Fits past (ltb (length payload) 5) _ _ tt (
          h,
          if-fits (not (bytes_eq (drop 5 payload) (u16 uuid_primary_service))) _ _ s.mtu
              (omega (arith, h.0)) (listing_fits s.mtu _ _ _ _ s.attrs (omega (arith, h.0))),
        ))
        (if-Fits past (opcode == read_by_type_req) _ _
          (if-Fits past (ltb (length payload) 5) _ _ tt
            (h, listing_fits s.mtu _ _ _ _ s.attrs (omega (arith, h.0))))
          (if-Fits past (opcode == find_information_req) _ _
            (if-Fits past (ltb (length payload) 5) _ _ tt
              (h, find_information_fits s.mtu _ _ s.attrs (omega (arith, h.0)) h.1))
            (if-Fits past (opcode == read_req) _ _ on_read-Fits (
              if-Fits past (opcode == read_blob_req) _ _ on_read_blob-Fits (
                if-Fits past ((opcode == write_req) || (opcode == write_cmd)) _ _
                  (on_write-Fits opcode)
                  (if-Fits past (opcode % 2 == 0) _ _ (h, omega (arith, h.0)) h)))))))
