-- ===== src/Cleanup/Teardown/Order.antt =====
-- The commands of a whole teardown.
use hci_controller.Base.{
  ltb, if◌then◌else◌, Result-cases, Exn, ok, err, transport_error, transport_gone, selection_error,
  hci_error, hci_gone, struct_error, value_error, ℕ, ◌≡◌, refl, sym, ap, ◌∙◌, ◌≢◌, ◌⊎◌, inl, inr,
  Bool, true, false, Option, none, some, List, [], ◌∷◌, ◌++◌,
}
use hci_controller.Script.{Script, ◌>>=◌, done, rescue, raise}
use hci_controller.Hci.Calls.{call}
use hci_controller.Cleanup.Teardown.{
  Pair, remove_path, disconnect, remove_cig, stop_advertising, clear_host_support, wait_link_down,
  tell_central, tell_peripheral, given, wait_central, wait_peripheral, cleanup,
}
use hci_controller.Cleanup.Teardown.Sent.{
  is_transport, Sends, if_given, done-Sends, >>-Sends, central-Sends, peripheral-Sends, call-Tells,
  wait_link_down-Tells, drain-Sends,
}

module _ (write_central write_peripheral : List ℕ → Option Exn) where
  central_told :
      (c : ℕ × List ℕ) → Sends (tell_central write_central write_peripheral c) (c ∷ []) []
  unfolding tell_central
  central_told (opcode, payload) =
      central-Sends (rescue (call write_central opcode payload true >>= λ a. done) done)
        ((opcode, payload) ∷ []) (call-Tells write_central opcode payload)

  peripheral_told :
      (c : ℕ × List ℕ) → Sends (tell_peripheral write_central write_peripheral c) [] (c ∷ [])
  unfolding tell_peripheral
  peripheral_told (opcode, payload) =
      peripheral-Sends (rescue (call write_peripheral opcode payload true >>= λ a. done) done)
        ((opcode, payload) ∷ []) (call-Tells write_peripheral opcode payload)

-- A check that raises another exception than those of the transport.
check-Sends :
    (b : Bool) (x : Exn) (m : Script Pair (Unit {0})) (xs ys : List (ℕ × List ℕ))
    → is_transport x ≡ false
    → Sends m xs ys
    → Sends (if b then raise x else m) xs ys
unfolding Sends
check-Sends true x m xs ys other h p = (other, λ f. absurd (cc f))
check-Sends false x m xs ys other h p = h p

module _ (write_central write_peripheral : List ℕ → Option Exn) (limit : ℕ) (x : Exn)
    (other : is_transport x ≡ false) (f : ℕ → ℕ × List ℕ) where
  central_given :
      (o : Option ℕ)
      → Sends
          (given write_central write_peripheral o (λ v.
            if ltb limit v then raise x else tell_central write_central write_peripheral (f v)))
          (if_given o f)
          []
  central_given none = done-Sends
  central_given (some v) =
      check-Sends (ltb limit v) x _ _ _ other (central_told write_central write_peripheral (f v))

  peripheral_given :
      (o : Option ℕ)
      → Sends
          (given write_central write_peripheral o (λ v.
            if ltb limit v then raise x else tell_peripheral write_central write_peripheral (f v)))
          []
          (if_given o f)
  peripheral_given none = done-Sends
  peripheral_given (some v) =
      check-Sends (ltb limit v) x _ _ _ other (peripheral_told write_central write_peripheral (f v))

apart : (x y : Exn) → is_transport x ≡ false → is_transport y ≡ true → x ≢ y
apart x y h k e = cc (sym h ∙ ap is_transport e ∙ k)

-- The commands of a whole teardown, in order.
abbrev pub central_commands : Option ℕ → Option ℕ → Option ℕ → List (ℕ × List ℕ)
central_commands cig_id cis acl =
    if_given cis remove_path
    ++ (if_given cis disconnect
        ++ (if_given cig_id remove_cig ++ (if_given acl disconnect ++ (clear_host_support ∷ []))))

abbrev pub peripheral_commands : Option ℕ → Option ℕ → List (ℕ × List ℕ)
peripheral_commands cis acl =
    if_given cis remove_path
    ++ (if_given acl disconnect ++ (stop_advertising ∷ clear_host_support ∷ []))

module _ (write_central write_peripheral : List ℕ → Option Exn) where
  central_waits :
      (o : Option ℕ)
      → Sends
          (given write_central write_peripheral o (wait_central write_central write_peripheral))
          []
          []
  central_waits none = done-Sends
  central_waits (some v) = central-Sends (wait_link_down v) [] (wait_link_down-Tells v)

  peripheral_waits :
      (o : Option ℕ)
      → Sends
          (given write_central write_peripheral o (wait_peripheral write_central write_peripheral))
          []
          []
  peripheral_waits none = done-Sends
  peripheral_waits (some v) = peripheral-Sends (wait_link_down v) [] (wait_link_down-Tells v)

  cleanup-Sends :
      (rounds : ℕ) (cig_id central_cis peripheral_cis central_acl peripheral_acl : Option ℕ)
      → Sends
          (cleanup write_central write_peripheral rounds cig_id central_cis peripheral_cis
            central_acl peripheral_acl)
          (central_commands cig_id central_cis central_acl)
          (peripheral_commands peripheral_cis peripheral_acl)
  unfolding cleanup
  cleanup-Sends rounds cig_id central_cis peripheral_cis central_acl peripheral_acl =
      let c = central_given write_central write_peripheral 65535 struct_error refl in
      let q = peripheral_given write_central write_peripheral 65535 struct_error refl in
      let g = central_given write_central write_peripheral 255 value_error refl in
      let C1 = if_given central_cis disconnect in
      let C2 = if_given cig_id remove_cig in
      let C3 = if_given central_acl disconnect in
      let end = clear_host_support ∷ [] in
      let P1 = if_given peripheral_acl disconnect in
      let P2 = stop_advertising ∷ end in
      >>-Sends _ _ (if_given central_cis remove_path) [] (C1 ++ (C2 ++ (C3 ++ end)))
        (if_given peripheral_cis remove_path ++ (P1 ++ P2)) (c remove_path central_cis)
        (>>-Sends _ _ [] (if_given peripheral_cis remove_path) (C1 ++ (C2 ++ (C3 ++ end)))
          (P1 ++ P2) (q remove_path peripheral_cis)
          (>>-Sends _ _ C1 [] (C2 ++ (C3 ++ end)) (P1 ++ P2) (c disconnect central_cis) (
            >>-Sends _ _ [] [] (C2 ++ (C3 ++ end)) (P1 ++ P2) (drain-Sends rounds) (
              >>-Sends _ _ C2 [] (C3 ++ end) (P1 ++ P2) (g remove_cig cig_id) (
                >>-Sends _ _ C3 [] end (P1 ++ P2) (c disconnect central_acl) (
                  >>-Sends _ _ [] P1 end P2 (q disconnect peripheral_acl) (
                    >>-Sends _ _ [] (stop_advertising ∷ []) end end
                      (peripheral_told write_central write_peripheral stop_advertising)
                      (>>-Sends _ _ [] [] end end (central_waits central_acl) (
                        >>-Sends _ _ [] [] end end (peripheral_waits peripheral_acl) (
                          >>-Sends _ _ end [] [] end
                            (central_told write_central write_peripheral clear_host_support)
                            (peripheral_told write_central write_peripheral
                              clear_host_support)))))))))))

  -- Whatever the two controllers answer, and whether they answer, `cleanup` does not end in an exception
  -- of the transport, neither as the transport raises it nor as `Hci` translates it; if it ends in no exception, it has called `command` on each with all of its commands, in
  -- order: to the central the removal of the data path, the disconnection of the stream, the removal
  -- of the group, the disconnection of the link and the clearing of host support, to the peripheral
  -- the removal of the data path, the disconnection of the link, the end of advertising and the
  -- clearing of host support, without those whose handle is not given.
  pub cleanup_sent :
      (rounds : ℕ) (cig_id central_cis peripheral_cis central_acl peripheral_acl : Option ℕ)
      (p : Pair)
      → let o =
          cleanup write_central write_peripheral rounds cig_id central_cis peripheral_cis
            central_acl peripheral_acl p in
        ((x : Exn) × (o.result ≡ err x)
          × (x ≢ hci_error)
          × (x ≢ hci_gone)
          × (x ≢ transport_error)
          × (x ≢ transport_gone)
          × (x ≢ selection_error))
        ⊎ ((o.result ≡ ok tt)
            × (o.state.central.sent
                ≡ p.central.sent ++ central_commands cig_id central_cis central_acl)
            × (o.state.peripheral.sent
                ≡ p.peripheral.sent ++ peripheral_commands peripheral_cis peripheral_acl))
  unfolding Sends
  cleanup_sent rounds cig_id central_cis peripheral_cis central_acl peripheral_acl p =
      let o =
        cleanup write_central write_peripheral rounds cig_id central_cis peripheral_cis central_acl
          peripheral_acl p in
      let (quiet, sent) =
        cleanup-Sends rounds cig_id central_cis peripheral_cis central_acl peripheral_acl p in
      elim (Result-cases o.result) [
        | inl (x, e) ↦
            let other : is_transport x ≡ false = rw e at quiet in
            inl (
              x,
              e,
              apart x hci_error other refl,
              apart x hci_gone other refl,
              apart x transport_error other refl,
              apart x transport_gone other refl,
              apart x selection_error other refl,
            )
        | inr (u, e) ↦ let (central, peripheral) = sent e in inr (e, central, peripheral)
      ]
