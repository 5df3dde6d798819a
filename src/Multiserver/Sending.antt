-- ===== src/Multiserver/Sending.antt =====
-- How include/remote_multiserver_point.H sends a request to another server.
use gservices.Base.{
  ℕ, ◌+◌, ◌≤◌, ◌<◌, ◌^◌, ◌≡◌, List, ◌∷◌, ◌++◌, none, some, true, false, Aleph, done, M, thrown,
  stopped, null_pointer, not_found, arith, length, get_elem?, take, take_ge, length-append,
  length-take,
}
use gservices.Message.{MsgEntryHeader, send, service_value, decode_entry, header_size}
use gservices.Multiserver.{
  SendingType, loccom_rpc, loccom_async, Service, Multiserver, Network, take_out,
}
use gservices.Multiserver.Sender.{sending_check, async_send, rpc_send, rpc_send_invocation}

module _ {L : Type 0} (net : Network L) (k : Aleph) where
  abbrev pub transmit : SendingType → ℕ → List ℕ → M L ℕ
  transmit loccom_rpc = net.rpc_send_request
  transmit loccom_async = net.send_message

  module _ (s : Multiserver L) (h : MsgEntryHeader) (memory rest : List ℕ) where
    -- A request for a service that this server has in its table, of the kind that the call is for,
    -- is sent: the network is given its first `request_size` bytes and the port, and nothing else
    -- changes.
    pub rpc_send_sends :
        (target size id : ℕ) (e : Service) (l : L)
        → decode_entry memory ≡ some (h, rest)
        → h.deamon_service_code ≡ service_value send
        → get_elem? s.table h.client_service_code ≡ some (some e)
        → e.who_am_i ≡ loccom_rpc
        → size ≤ length memory
        → net.rpc_send_request target (take size memory) s.link ≡ (done id, l)
        → rpc_send net k target memory size s ≡ (done tt, record s { link = l })
    unfolding rpc_send sending_check
    rpc_send_sends target size id e l read code there type inside sent = ground (arith, sent)

    pub async_send_sends :
        (target id : ℕ) (e : Service) (l : L)
        → decode_entry memory ≡ some (h, rest)
        → h.deamon_service_code ≡ service_value send
        → get_elem? s.table h.client_service_code ≡ some (some e)
        → e.who_am_i ≡ loccom_async
        → header_size + h.parameters_size < 2 ^ 32
        → header_size + h.parameters_size ≤ length memory
        → net.send_message target (take (header_size + h.parameters_size) memory) s.link
          ≡ (done id, l)
        → async_send net k target memory s ≡ (done tt, record s { link = l })
    unfolding async_send sending_check
    async_send_sends target id e l read code there type small inside sent = ground (arith, sent)

    -- With ASSERT in force, a request for a service that is not in the table does not end with
    -- NotFound, as declared: the ASSERT before calls a method of the NULL entry, in both kinds of
    -- send.
    pub send_unregistered_stops :
        (target size : ℕ)
        → k.assert_stops ≡ true
        → decode_entry memory ≡ some (h, rest)
        → h.deamon_service_code ≡ service_value send
        → get_elem? s.table h.client_service_code ≡ some none
        → (async_send net k target memory s ≡ (stopped null_pointer, s))
          × (rpc_send net k target memory size s ≡ (stopped null_pointer, s))
    unfolding async_send rpc_send
    send_unregistered_stops target size stops read code gone = (ground arith, ground arith)

    -- `rpc_send` with an invocation: the message is both parts, and its block has been freed when
    -- the call returns.
    pub rpc_send_invocation_sends :
        (address target size invocation_size id : ℕ) (invocation rest' : List ℕ) (e : Service)
        (l : L)
        → decode_entry memory ≡ some (h, rest)
        → decode_entry (take size memory ++ take invocation_size invocation) ≡ some (h, rest')
        → h.deamon_service_code ≡ service_value send
        → get_elem? s.table h.client_service_code ≡ some (some e)
        → e.who_am_i ≡ loccom_rpc
        → size ≤ length memory
        → invocation_size ≤ length invocation
        → size + invocation_size < 2 ^ 32
        → net.rpc_send_request target (take size memory ++ take invocation_size invocation) s.link
          ≡ (done id, l)
        → rpc_send_invocation net k address target memory size invocation invocation_size s
          ≡ (done tt, record s { link = l })
    unfolding rpc_send_invocation sending_check take_out
    rpc_send_invocation_sends address target size invocation_size id invocation rest' e l read back
          code there type inside inside' small sent =
        let message : List ℕ = take size memory ++ take invocation_size invocation in
        let sized : length message ≡ size + invocation_size = omega (
          arith,
          length-append (take size memory) (take invocation_size invocation),
          length-take size memory,
          length-take invocation_size invocation,
        ) in
        let whole : take (size + invocation_size) message ≡ message =
          take_ge (size + invocation_size) message (omega arith) in
        let first = length-take size memory in
        let second = length-take invocation_size invocation in
        ground (arith, sized, whole, first, second, sent)

    -- When ASSERT does nothing and the service is not in the table, `rpc_send` with an invocation
    -- throws NotFound and leaves the block of the message allocated.
    pub rpc_send_invocation_leaks :
        (address target size invocation_size : ℕ) (invocation rest' : List ℕ)
        → k.assert_stops ≡ false
        → decode_entry memory ≡ some (h, rest)
        → decode_entry (take size memory ++ take invocation_size invocation) ≡ some (h, rest')
        → h.deamon_service_code ≡ service_value send
        → get_elem? s.table h.client_service_code ≡ some none
        → size ≤ length memory
        → invocation_size ≤ length invocation
        → size + invocation_size < 2 ^ 32
        → rpc_send_invocation net k address target memory size invocation invocation_size s
          ≡ (thrown not_found, record s { live = address ∷ s.live })
    unfolding rpc_send_invocation sending_check
    rpc_send_invocation_leaks address target size invocation_size invocation rest' off read back
          code gone inside inside' small =
        let sized = length-take size memory in
        let sized' = length-take invocation_size invocation in ground (arith, sized, sized')
