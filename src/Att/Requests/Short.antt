-- ===== src/Att/Requests/Short.antt =====
-- Requests that are too short for their fields.
use hci_controller.Base.{
  ltb, ◌==◌, if◌then◌else◌, ltb→lt, ltb→ge, Bool-cases, Option-cases, length, slice, from_little,
  ok, err, struct_error, ℕ, ◌%◌, ◌≤◌, ◌<◌, ◌≡◌, refl, inl, inr, Bool, true, false, ◌||◌, List,
  arith,
}
use hci_controller.Att.{
  Server, find, exchange_mtu_req, read_by_group_type_req, read_by_type_req, find_information_req,
  read_req, read_blob_req, write_req, write_cmd,
}
use hci_controller.Att.Requests.{
  Reply, on_exchange_mtu, on_read, on_read_blob, on_write, handle_request,
}

-- The octets of a request up to the end of its fixed fields, in the order of the Bluetooth codes.
abbrev pub fields : ℕ → ℕ
fields opcode =
    if opcode == exchange_mtu_req
    then 3
    else if opcode == read_by_group_type_req
    then 5
    else if opcode == read_by_type_req
    then 5
    else if opcode == find_information_req
    then 5
    else if opcode == read_req
    then 3
    else if opcode == read_blob_req
    then 5
    else if (opcode == write_req) || (opcode == write_cmd)
    then 3
    else 0

-- A raise of struct.error for fewer octets than `n`, no raise for others.
abbrev pub Answers : List ℕ → ℕ → Reply → Type 0
Answers payload n (err e) = (e ≡ struct_error) × (length payload < n)
Answers payload n (ok r) = n ≤ length payload

module _ (payload : List ℕ) where
  if-Answers :
      (b : Bool) (n m : ℕ) (x y : Reply)
      → Answers payload n x
      → Answers payload m y
      → Answers payload (if b then n else m) (if b then x else y)
  if-Answers true n m x y hx hy = hx
  if-Answers false n m x y hx hy = hy

  if-Answers_both :
      (b : Bool) (n : ℕ) (x y : Reply)
      → Answers payload n x
      → Answers payload n y
      → Answers payload n (if b then x else y)
  if-Answers_both true n x y hx hy = hx
  if-Answers_both false n x y hx hy = hy

  enough-Answers :
      (n : ℕ) (x : Reply) → n ≤ length payload → Answers payload 0 x → Answers payload n x
  enough-Answers n (ok r) le h = le
  enough-Answers n (err e) le h = let no : ⊥ = omega (arith, h.1) in elim no [ ]

  guard-Answers :
      (n : ℕ) (x : Reply)
      → Answers payload 0 x
      → Answers payload n (if ltb (length payload) n then err struct_error else x)
  guard-Answers n x h = elim (Bool-cases (ltb (length payload) n)) [
    | inl e ↦ rw e (refl, ltb→lt (length payload) n e)
    | inr e ↦ rw e (enough-Answers n x (ltb→ge (length payload) n e) h)
  ]

  module _ (s : Server) where
    on_exchange_mtu-Answers : Answers payload 3 (on_exchange_mtu s payload)
    unfolding on_exchange_mtu
    on_exchange_mtu-Answers = guard-Answers 3 _ (omega arith)

    on_read-Answers : Answers payload 3 (on_read s payload)
    unfolding on_read
    on_read-Answers =
        guard-Answers 3 _ (elim (Option-cases (find (from_little (slice payload 1 3)) s.attrs)) [
          | inl e ↦ rw e (omega arith)
          | inr (a, e) ↦ rw e (omega arith)
        ])

    on_read_blob-Answers : Answers payload 5 (on_read_blob s payload)
    unfolding on_read_blob
    on_read_blob-Answers =
        guard-Answers 5 _ (elim (Option-cases (find (from_little (slice payload 1 3)) s.attrs)) [
          | inl e ↦ rw e (omega arith)
          | inr (a, e) ↦ rw e (
              if-Answers_both (ltb (length a.value) (from_little (slice payload 3 5))) 0 _ _
                (omega arith) (omega arith))
        ])

    on_write-Answers : (opcode : ℕ) → Answers payload 3 (on_write opcode s payload)
    unfolding on_write
    on_write-Answers opcode =
        guard-Answers 3 _ (elim (Option-cases (find (from_little (slice payload 1 3)) s.attrs)) [
          | inl e ↦ rw e (if-Answers_both (opcode == write_req) 0 _ _ (omega arith) (omega arith))
          | inr (a, e) ↦
              rw e (if-Answers_both (opcode == write_req) 0 _ _ (omega arith) (omega arith))
        ])

    -- Handling a request raises struct.error if the PDU ends before its fixed fields do, and raises
    -- nothing otherwise.
    pub handle_request-Answers :
        (opcode : ℕ) → Answers payload (fields opcode) (handle_request s opcode payload)
    unfolding handle_request
    handle_request-Answers opcode =
        if-Answers (opcode == exchange_mtu_req) _ _ _ _ on_exchange_mtu-Answers (
          if-Answers (opcode == read_by_group_type_req) _ _ _ _ (guard-Answers 5 _ (omega arith)) (
            if-Answers (opcode == read_by_type_req) _ _ _ _ (guard-Answers 5 _ (omega arith)) (
              if-Answers (opcode == find_information_req) _ _ _ _ (guard-Answers 5 _ (omega arith))
                (if-Answers (opcode == read_req) _ _ _ _ on_read-Answers (
                  if-Answers (opcode == read_blob_req) _ _ _ _ on_read_blob-Answers (
                    if-Answers ((opcode == write_req) || (opcode == write_cmd)) _ _ _ _
                      (on_write-Answers opcode)
                      (if-Answers_both (opcode % 2 == 0) _ _ _ (omega arith) (omega arith))))))))
