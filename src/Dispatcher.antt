-- ===== src/Dispatcher.antt =====
-- `Reception_Point::dispatcher` of include/reception_point.C, which takes the action that a message
-- asks for. `respond` is virtual, and the services are the user's functions: both are parameters.
pub mod Actions
use gservices.Base.{
  ℕ, ◌==◌, List, [], Option, none, some, Bool, true, false, not, M, Aleph, done, null_pointer,
  out_of_bounds, pure, get, stop, assert, error, ◌>>=◌, ◌>>◌, str_eq,
}
use gservices.Readwrite.{Ssize}
use gservices.Message.{
  MsgEntryHeader, MsgExitHeader, ServiceCode, add, send, shutdown, service_of, registration_ok,
  service_not_found, response_for_registration, header_size, entry_at, service_name_of,
}
use gservices.Reception.{Service, ReceptionPoint, entry}
use gservices.Binding.{set_still_busy, set_request_message}

-- The first `respond` of a binding, and the function that a table entry runs, which is given the
-- binding and the message.
pub record Server (L : Type 0) : Type 0 where
  pub respond : ℕ → MsgExitHeader → List ℕ → ℕ → M (ReceptionPoint L) Ssize
  pub service : ℕ → ℕ → List ℕ → M (ReceptionPoint L) (Unit {0})

module _ {L : Type 0} where
  abbrev pub raise_shutdown : M (ReceptionPoint L) (Unit {0})
  raise_shutdown s = (done tt, record s { is_shutdown = true })

module _ {L : Type 0} (server : Server L) (k : Aleph) where
  -- The answer to a registration.
  abbrev pub answer : ℕ → MsgExitHeader → M (ReceptionPoint L) (Unit {0})
  answer to_whom response = do _ ← server.respond to_whom response [] header_size; pure tt

  -- DEMSERV_ADD: the name of the entry is compared with the one in the message. The ERROR for an
  -- entry that is NULL reads its name.
  pub on_add : ℕ → List ℕ → Option Service → M (ReceptionPoint L) (Unit {0})
  on_add to_whom message none = stop null_pointer
  on_add to_whom message (some s) = elim (service_name_of message) [
    | none ↦ stop out_of_bounds
    | some name ↦ elim (str_eq s.service_name name) [
      | true ↦ answer to_whom (response_for_registration registration_ok)
      | false ↦ do error k; answer to_whom (response_for_registration service_not_found)
    ]
  ]

  -- DEMSERV_SEND
  pub on_send : ℕ → ℕ → List ℕ → ℕ → M (ReceptionPoint L) (Unit {0})
  unfolding entry
  on_send to_whom address message service_code = do
    s ← get
    assert k (s.registered_services == s.number_of_services)
    set_request_message to_whom address
    e ← entry service_code
    elim e [ none ↦ error k | some f ↦ server.service f.service_function to_whom message ]

  -- The message is given by its address and its bytes.
  unfoldable pub dispatcher : ℕ → ℕ → List ℕ → M (ReceptionPoint L) (Unit {0})
  unfolding entry_at entry on_add on_send
  dispatcher to_whom address message = do
    (header, _) ← entry_at message
    elim (service_of header.deamon_service_code) [
      | none ↦ pure tt
      | some code ↦ elim code [
        | add ↦ do e ← entry header.client_service_code; on_add to_whom message e
        | send ↦ on_send to_whom address message header.client_service_code
        | shutdown ↦ do set_still_busy to_whom false; raise_shutdown
        | _ ↦ pure tt
      ]
    ]
