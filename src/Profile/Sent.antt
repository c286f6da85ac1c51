-- ===== src/Profile/Sent.antt =====
-- The commands that reading the capabilities sends, with their answers.
pub mod Order
use hci_controller.Base.{
  ◌==◌, if◌then◌else◌, ==→eq, length, Result-cases, ok-injective, Exn, ok, runtime_error, ℕ, ◌≡◌,
  refl, sym, ap, ap₂, subst, ◌∙◌, ◌≢◌, inl, inr, Bool, true, false, ◌&&◌, Option, none, some, List,
  [], ◌∷◌, ◌++◌, append-nil, append_assoc, arith,
}
use hci_controller.Script.{Script, Ran, ◌>>=◌, pure, raise, done}
use hci_controller.Hci.Calls.{Device, Call, call, op_reset}
use hci_controller.Profile.{
  op_read_conn_accept_timeout, op_write_conn_accept_timeout, Capabilities, required, offered,
  offered_if, write_back, accept_timeout, start,
}

-- A command that was answered with a status and return parameters.
abbrev pub asked : ℕ → List ℕ → ℕ × List ℕ → Call
asked opcode payload answer = record { opcode = opcode; payload = payload; result = ok answer }

-- The reset, if it is asked for.
pub data Started : Bool → List Call → Type 0 where
  untouched : Started false []
  was_reset : (answer : ℕ × List ℕ) → Started true (asked op_reset [] answer ∷ [])

-- A read whose failure is not one of the run: only where the controller supports it, and its value is
-- kept where the status is 0.
pub data Offered (supported : Bool) (opcode : ℕ) (value : Option (List ℕ))
    : List Call → Type 0 where
  unsupported : supported ≡ false → value ≡ none → Offered supported opcode value []
  refused :
      (status : ℕ) (octets : List ℕ)
      → supported ≡ true
      → status ≢ 0
      → value ≡ none
      → Offered supported opcode value (asked opcode [] (status, octets) ∷ [])
  given :
      (octets : List ℕ)
      → supported ≡ true
      → value ≡ some octets
      → Offered supported opcode value (asked opcode [] (0, octets) ∷ [])

-- The timeout: nothing unless both of its commands are supported, no write unless the read was answered
-- with two octets, and then those octets, which are the value if the write was answered with status 0 and
-- nothing else.
pub data Exchange (supported : Bool) (timeout : Option (List ℕ)) : List Call → Type 0 where
  left_out : supported ≡ false → timeout ≡ none → Exchange supported timeout []
  unread :
      (answer : ℕ × List ℕ)
      → supported ≡ true
      → ¬ ((answer.0 ≡ 0) × (length answer.1 ≡ 2))
      → timeout ≡ none
      → Exchange supported timeout (asked op_read_conn_accept_timeout [] answer ∷ [])
  unwritten :
      (octets : List ℕ) (answer : ℕ × List ℕ)
      → supported ≡ true
      → length octets ≡ 2
      → ¬ ((answer.0 ≡ 0) × (length answer.1 ≡ 0))
      → timeout ≡ none
      → Exchange supported timeout (
          asked op_read_conn_accept_timeout [] (0, octets)
          ∷ asked op_write_conn_accept_timeout octets answer
          ∷ [])
  written :
      (octets : List ℕ)
      → supported ≡ true
      → length octets ≡ 2
      → timeout ≡ some octets
      → Exchange supported timeout (
          asked op_read_conn_accept_timeout [] (0, octets)
          ∷ asked op_write_conn_accept_timeout octets (0, [])
          ∷ [])

-- A part that returns has called `command` some times more, and `R` holds of its result and those calls.
unfoldable pub Logs : {A : Type 0} → Script Device A → (A → List Call → Type 0) → Type 0
Logs m R =
    (d : Device) (a : _)
    → (m d).result ≡ ok a
    → (l : List Call) × ((m d).state.calls ≡ d.calls ++ l) × R a l

pure-Logs : {A : Type 0} (a : A) (R : A → List Call → Type 0) → R a [] → Logs (pure a) R
unfolding Logs
pure-Logs a R h d b f = ([], sym (append-nil d.calls), subst (λ x. R x []) (ok-injective a b f) h)

pub >>=-Logs :
    {A B : Type 0} (m : Script Device A) (f : A → Script Device B) (R : B → List Call → Type 0)
    → Logs m (λ a l. Logs (f a) (λ b k. R b (l ++ k)))
    → Logs (m >>= f) R
unfolding Logs ◌>>=◌
>>=-Logs m f R h d b = elim (Result-cases (m d).result) [
  | inl (x, q) ↦ rw (◌>>=◌, q) (λ g. absurd (cc g))
  | inr (a, q) ↦
      rw (◌>>=◌, q)
        (λ g.
          let (l, s, next) = h d a q in
          let (k, s', r) = next (m d).state b g in
          (l ++ k, s' ∙ ap (λ x. x ++ k) s ∙ append_assoc d.calls l k, r))
]

-- A part whose result something is made of.
pub pure_of-Logs :
    {A B : Type 0} (m : Script Device A) (g : A → B) (R : B → List Call → Type 0)
    → Logs m (λ a l. R (g a) l)
    → Logs (m >>= λ a. pure (g a)) R
unfolding Logs ◌>>=◌
pure_of-Logs m g R h d b = elim (Result-cases (m d).result) [
  | inl (x, q) ↦ rw (◌>>=◌, q) (λ k. absurd (cc k))
  | inr (a, q) ↦
      rw (◌>>=◌, q)
        (λ k. let (l, s, r) = h d a q in (l, s, subst (λ y. R y l) (ok-injective (g a) b k) r))
]

raise-Logs : {A : Type 0} (x : Exn) (R : A → List Call → Type 0) → Logs (raise x) R
unfolding Logs
raise-Logs x R d a f = absurd (cc f)

if-Logs :
    {A : Type 0} (b : Bool) (m n : Script Device A) (R : A → List Call → Type 0)
    → (b ≡ true → Logs m R)
    → (b ≡ false → Logs n R)
    → Logs (if b then m else n) R
if-Logs true m n R h k = h refl
if-Logs false m n R h k = k refl

both : (a b n : ℕ) → ((a == 0) && (b == n)) ≡ true → (a ≡ 0) × (b ≡ n)
both a b n h = (ground arith, ground arith)

not_both : (a b n : ℕ) → ((a == 0) && (b == n)) ≡ false → ¬ ((a ≡ 0) × (b ≡ n))
not_both a b n h (e, f) = ground (arith, e, f)

no_octets : (octets : List ℕ) → length octets ≡ 0 → octets ≡ []
no_octets [] h = refl
no_octets (x ∷ xs) h = absurd (omega (arith, h))

module _ (write : List ℕ → Option Exn) where
  call-Logs :
      (opcode : ℕ) (octets : List ℕ) (allow_fail : Bool) (R : ℕ × List ℕ → List Call → Type 0)
      → ((a : ℕ × List ℕ) → R a (asked opcode octets a ∷ []))
      → Logs (call write opcode octets allow_fail) R
  unfolding Logs call
  call-Logs opcode octets allow_fail R h d a e = (
    asked opcode octets a ∷ [],
    ap (λ r. d.calls ++ (record { opcode = opcode; payload = octets; result = r } ∷ [])) e,
    h a,
  )

  pub required-Logs :
      (opcode : ℕ) (R : List ℕ → List Call → Type 0)
      → ((octets : List ℕ) → R octets (asked opcode [] (0, octets) ∷ []))
      → Logs (required write opcode) R
  unfolding required
  required-Logs opcode R h = >>=-Logs (call write opcode [] true) _ R (
      call-Logs opcode [] true _ (λ a.
        if-Logs (a.0 == 0) _ _ _
          (λ e.
            pure-Logs a.1 _
              (subst (λ s. R a.1 (asked opcode [] (s, a.1) ∷ [])) (sym (==→eq a.0 0 e)) (h a.1)))
          (λ e. raise-Logs runtime_error _)))

  pub offered-Logs :
      (opcode : ℕ) (R : Option (List ℕ) → List Call → Type 0)
      → ((value : Option (List ℕ)) (l : List Call) → Offered true opcode value l → R value l)
      → Logs (offered write opcode) R
  unfolding offered
  offered-Logs opcode R h = >>=-Logs (call write opcode [] true) _ R (
      call-Logs opcode [] true _ (λ a.
        if-Logs (a.0 == 0) _ _ _
          (λ e. pure-Logs (some a.1) _ (
            subst (λ s. R (some a.1) (asked opcode [] (s, a.1) ∷ [])) (sym (==→eq a.0 0 e))
              (h (some a.1) _ (given a.1 refl refl))))
          (λ e.
            pure-Logs none _ (h none _ (refused a.0 a.1 refl (λ f. ground (arith, e, f)) refl)))))

  pub offered_if-Logs :
      (supported : Bool) (opcode : ℕ) (R : Option (List ℕ) → List Call → Type 0)
      → ((value : Option (List ℕ)) (l : List Call) → Offered supported opcode value l → R value l)
      → Logs (offered_if write supported opcode) R
  unfolding offered_if
  offered_if-Logs true opcode R h = offered-Logs opcode R h
  offered_if-Logs false opcode R h = pure-Logs none R (h none [] (unsupported refl refl))

  pub start-Logs :
      (reset : Bool) (R : Unit {0} → List Call → Type 0)
      → ((l : List Call) → Started reset l → R tt l)
      → Logs (start write reset) R
  unfolding start
  start-Logs true R h =
      >>=-Logs (call write op_reset [] false) _ R
        (call-Logs op_reset [] false _ (λ a. pure-Logs tt _ (h _ (was_reset a))))
  start-Logs false R h = pure-Logs tt R (h [] untouched)

  write_back-Logs :
      (octets : List ℕ) (R : Option (List ℕ) → List Call → Type 0)
      → ((answer : ℕ × List ℕ)
          → ¬ ((answer.0 ≡ 0) × (length answer.1 ≡ 0))
          → R none (asked op_write_conn_accept_timeout octets answer ∷ []))
      → R (some octets) (asked op_write_conn_accept_timeout octets (0, []) ∷ [])
      → Logs (write_back write octets) R
  unfolding write_back
  write_back-Logs octets R failed taken =
      >>=-Logs (call write op_write_conn_accept_timeout octets true) _ R (
        call-Logs op_write_conn_accept_timeout octets true _ (λ a.
          if-Logs ((a.0 == 0) && (length a.1 == 0)) _ _ _
            (λ e.
              let (zero_status, short) = both a.0 (length a.1) 0 e in
              pure-Logs (some octets) _ (
                subst (λ x. R (some octets) (asked op_write_conn_accept_timeout octets x ∷ []))
                  (sym (ap₂ (λ s o. (s, o)) zero_status (no_octets a.1 short))) taken))
            (λ e. pure-Logs none _ (failed a (not_both a.0 (length a.1) 0 e)))))

  pub accept_timeout-Logs :
      (supported : Bool) (R : Option (List ℕ) → List Call → Type 0)
      → ((timeout : Option (List ℕ)) (l : List Call) → Exchange supported timeout l → R timeout l)
      → Logs (accept_timeout write supported) R
  unfolding accept_timeout
  accept_timeout-Logs false R h = pure-Logs none R (h none [] (left_out refl refl))
  accept_timeout-Logs true R h = >>=-Logs (call write op_read_conn_accept_timeout [] true) _ R (
      call-Logs op_read_conn_accept_timeout [] true _ (λ a.
        if-Logs ((a.0 == 0) && (length a.1 == 2)) _ _ _
          (λ e.
            let (zero_status, two) = both a.0 (length a.1) 2 e in
            let first : (rest : List Call) → List Call =
              λ rest. asked op_read_conn_accept_timeout [] (0, a.1) ∷ rest in
            subst
              (λ s. Logs (write_back write a.1) (λ timeout k.
                R timeout ((asked op_read_conn_accept_timeout [] (s, a.1) ∷ []) ++ k)))
              (sym zero_status)
              (write_back-Logs a.1 (λ timeout k. R timeout (first k))
                (λ answer failed. h none _ (unwritten a.1 answer refl two failed refl))
                (h (some a.1) _ (written a.1 refl two refl))))
          (λ e. pure-Logs none _ (h none _ (unread a refl (not_both a.0 (length a.1) 2 e) refl)))))
