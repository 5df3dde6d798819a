-- ===== src/Dispatcher/Actions.antt =====
-- What the dispatcher of include/reception_point.C does with each kind of message.
use gservices.Base.{
  ℕ, Option, Outcome, str_eq, ◌^◌, ◌<◌, ◌≡◌, List, none, some, true, false, Aleph, done, stopped,
  null_pointer, arith, length, get_elem?, error_exit, if◌then◌else◌, get_elem?,
}
use gservices.Wire.{IsText}
use gservices.Message.{
  MsgEntryHeader, send, shutdown, service_value, decode_entry, registration_ok, service_not_found,
  response_for_registration, register_message,
}
use gservices.Message.Layout.{register_message_reads}
use gservices.Reception.{Service, BindingNode, ReceptionPoint}
use gservices.Binding.{find_binding, update_binding, change_binding}
use gservices.Dispatcher.{Server, answer, on_add, dispatcher}

module _ {L : Type 0} (server : Server L) (k : Aleph) where
  -- What a registration under a name comes to, by the table's entry for its code.
  abbrev pub registered :
      ℕ → List ℕ → Option Service → ReceptionPoint L → Outcome (Unit {0}) × ReceptionPoint L
  registered to_whom name none s = (stopped null_pointer, s)
  registered to_whom name (some known) s =
      if str_eq known.service_name name
      then answer server k to_whom (response_for_registration registration_ok) s
      else if k.error_stops
      then (stopped error_exit, s)
      else answer server k to_whom (response_for_registration service_not_found) s

  -- A client registers a service whose code lies inside the table, under a name without NUL bytes
  -- that fits the message. If the server's entry for the code has that name, the answer is
  -- DEMRESP_REGISTRATION_OK. If it has another name, the server reports an ERROR, and if that
  -- returns, the answer is DEMRESP_SERVICE_NOT_FOUND. If it is NULL, the server calls a method of
  -- it.
  pub dispatcher_adds :
      (to_whom address code : ℕ) (name array message : List ℕ) (e : Option Service)
      (s : ReceptionPoint L)
      → code < 2 ^ 32
      → IsText name
      → length name < length array
      → register_message code name array ≡ some message
      → get_elem? s.table code ≡ some e
      → dispatcher server k to_whom address message s ≡ registered to_whom name e s
  unfolding dispatcher on_add
  dispatcher_adds to_whom address code name array message none s fits text room made there =
      let (copy, built, sized, header, named) =
        register_message_reads code name array fits text room in
      ground (arith, header)
  dispatcher_adds to_whom address code name array message (some known) s fits text room made there =
      let (copy, built, sized, header, named) =
        register_message_reads code name array fits text room in
      ground (arith, header, named)

  -- A request for a service, once all services are registered: the binding is told the message's
  -- address, and the function that is registered under the message's code is called with the
  -- binding and the message.
  pub dispatcher_serves :
      (to_whom address : ℕ) (h : MsgEntryHeader) (message rest : List ℕ) (s : ReceptionPoint L)
      (f : Service) (b : BindingNode)
      → decode_entry message ≡ some (h, rest)
      → h.deamon_service_code ≡ service_value send
      → s.registered_services ≡ s.number_of_services
      → get_elem? s.table h.client_service_code ≡ some (some f)
      → find_binding to_whom s.binding_list ≡ some b
      → dispatcher server k to_whom address message s
        ≡ server.service f.service_function to_whom message (record s {
          binding_list =
              update_binding to_whom
                (λ b'. record b' { request_message = some address })
                s.binding_list;
        })
  unfolding dispatcher change_binding
  dispatcher_serves to_whom address h message rest s f b read is_send full there found =
      ground arith

  -- A shutdown message marks its binding as answered and raises the flag; nothing else changes.
  pub dispatcher_shuts_down :
      (to_whom address : ℕ) (h : MsgEntryHeader) (message rest : List ℕ) (s : ReceptionPoint L)
      (b : BindingNode)
      → decode_entry message ≡ some (h, rest)
      → h.deamon_service_code ≡ service_value shutdown
      → find_binding to_whom s.binding_list ≡ some b
      → dispatcher server k to_whom address message s ≡ (
        done tt,
        record s {
          is_shutdown = true;
          binding_list =
              update_binding to_whom (λ b'. record b' { still_busy = false }) s.binding_list;
        },
      )
  unfolding dispatcher change_binding
  dispatcher_shuts_down to_whom address h message rest s b read is_shut found = ground arith

  -- A message with any code that is none of these three is dropped.
  pub dispatcher_drops :
      (to_whom address : ℕ) (h : MsgEntryHeader) (message rest : List ℕ) (s : ReceptionPoint L)
      → decode_entry message ≡ some (h, rest)
      → service_value shutdown < h.deamon_service_code
      → dispatcher server k to_whom address message s ≡ (done tt, s)
  unfolding dispatcher
  dispatcher_drops to_whom address h message rest s read other = ground arith
