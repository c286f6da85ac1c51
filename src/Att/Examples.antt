-- ===== src/Att/Examples.antt =====
-- An attribute server at concrete inputs.
use hci_controller.Base.{
  replicate, Exn, ok, ℕ, ◌≤◌, ◌≡◌, refl, inl, inr, Option, none, some, List, [], ◌∷◌, arith,
}
use hci_controller.Att.{
  Attribute, Server, init, find, cid_att, exchange_mtu_req, exchange_mtu_rsp, read_req, write_req,
  write_rsp, nus_rx, attribute,
}
use hci_controller.Att.Requests.{handle_request, on_exchange_mtu}
use hci_controller.Att.Requests.Fits.{IsMtu}
use hci_controller.Att.Requests.Client.{groups, discover, answer}
use hci_controller.Att.Requests.Client.Discovery.{discover_complete}
use hci_controller.Att.Requests.Values.{write_request, read_long, write_request-read_long}
use hci_controller.Att.Requests.Short.{Answers, handle_request-Answers}
use hci_controller.Att.Feed.{feed}
use hci_controller.Att.Feed.Bounds.{IsBounded, serve, serve-init-IsBounded, feed_whole}
use hci_controller.Hci

abbrev wire : List ℕ → Option Exn
wire octets = none

abbrev name : List ℕ
name = 72 ∷ 67 ∷ 73 ∷ []

abbrev server : Server
server = init Hci.init 0x0001 name

abbrev text : List ℕ
text = replicate 50 65

abbrev receiver : Attribute
receiver = attribute 0x0012 nus_rx []

write_request-read_long_example :
    (after : Server) × (handle_request server write_req (write_request 0x0012 text)
      ≡ ok (after, some (write_rsp ∷ [])))
    × (read_long 60 after 0x0012 0 ≡ some text)
unfolding find
write_request-read_long_example =
    write_request-read_long server 0x0012 60 text receiver (omega arith, omega arith) (omega arith)
      refl (omega arith) (omega arith)

discover_complete_example : discover 3 (answer server) 1 ≡ some (groups server.attrs)
discover_complete_example =
    discover_complete server 3 (omega arith, omega arith)
      (
        omega arith,
        (
          omega arith,
          (
            omega arith,
            (
              omega arith,
              (
                omega arith,
                (
                  omega arith,
                  (omega arith, (omega arith, (omega arith, (omega arith, (omega arith, tt))))),
                ),
              ),
            ),
          ),
        ),
      )
      (
        omega arith,
        omega arith,
        omega arith,
        inl refl,
        (omega arith, omega arith, omega arith, inr refl, tt),
      )
      (omega arith)

-- A Read Request whose handle has a single octet.
handle_request-Answers_example :
    Answers (read_req ∷ 0x03 ∷ []) 3 (handle_request server read_req (read_req ∷ 0x03 ∷ []))
handle_request-Answers_example = handle_request-Answers (read_req ∷ 0x03 ∷ []) server read_req

abbrev pdus : List (List ℕ × ℕ)
pdus =
    (exchange_mtu_req ∷ 0x05 ∷ 0x02 ∷ [], cid_att)
    ∷ (write_request 0x0012 text, cid_att)
    ∷ (read_req ∷ 0x12 ∷ 0x00 ∷ [], cid_att)
    ∷ (read_req ∷ [], cid_att)
    ∷ []

serve-init-IsBounded_example : IsBounded (serve wire server pdus)
serve-init-IsBounded_example = serve-init-IsBounded wire Hci.init 0x0001 name pdus

feed_whole_example :
    ((feed wire server (exchange_mtu_req ∷ 0x05 ∷ 0x02 ∷ []) cid_att).server.sent
      ≡ (exchange_mtu_rsp ∷ 0xF7 ∷ 0x00 ∷ []) ∷ [])
    × (3 ≤ 247)
    × IsMtu 247
unfolding handle_request on_exchange_mtu
feed_whole_example =
    feed_whole wire server exchange_mtu_req (0x05 ∷ 0x02 ∷ []) (exchange_mtu_rsp ∷ 0xF7 ∷ 0x00 ∷ [])
      (record server { mtu = 247; requests = 1 }) (omega arith, omega arith)
      (
        inl refl,
        (
          inl refl,
          (
            inl refl,
            (
              inl refl,
              (
                inl refl,
                (inl refl, (inl refl, (inr refl, (inl refl, (inr refl, (inl refl, tt)))))),
              ),
            ),
          ),
        ),
      )
      refl
