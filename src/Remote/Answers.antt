-- ===== src/Remote/Answers.antt =====
-- A request to the engine of include/remote_reception_point.C whose service answers it at once.
use gservices.Base.{
  ℕ, ◌+◌, ◌≤◌, ◌≡◌, refl, ap, ◌∙◌, List, ◌∷◌, ◌++◌, some, false, M, Aleph, done, pure, ◌>>=◌, arith,
  length, drop, take_ge, append_assoc, get_elem?,
}
use gservices.Message.{
  MsgEntryHeader, MsgExitHeader, send, service_value, header_size, encode_entry, decode_entry,
}
use gservices.Message.Layout.{EntryFits, decode_entry-encode_entry}
use gservices.Access.{overwrite}
use gservices.Reception.{Service, BindingNode, ReceptionPoint}
use gservices.Reception.Freeing.{kept, dropped_blocks, binding_list_freeing_fct_lem}
use gservices.Binding.{on_link, find_binding, update_binding, change_binding, remote_respond}
use gservices.Binding.Responds.{reply_bytes, length-reply_bytes}
use gservices.Dispatcher.{Server}
use gservices.Dispatcher.Actions.{dispatcher_serves}
use gservices.Remote.{buffer_size, Incoming, new_node, reply_to_shutdown, take_request}

module _ {L : Type 0} (send_reply : List ℕ → ℕ → M L (Unit {0})) (header : MsgExitHeader)
    (body : List ℕ) where
  -- A service that answers the binding that it is given, and returns.
  abbrev pub remote_answer : ℕ → M (ReceptionPoint L) (Unit {0})
  remote_answer binding = do
    _ ←
        remote_respond (on_link (λ id message. send_reply message id)) binding header body
          (header_size + length body)
    pure tt

  -- The entry of a request that has been answered.
  abbrev pub answered_node : Incoming → BindingNode
  answered_node m = record (new_node m) { request_message = some m.message; still_busy = false }

  remote_answer_sends :
      (m : Incoming) (bs : List BindingNode) (s : ReceptionPoint L) (l : L)
      → s.binding_list ≡ record (new_node m) { request_message = some m.message } ∷ bs
      → send_reply (reply_bytes header body 0) m.id s.link ≡ (done tt, l)
      → remote_answer m.binding_point s
        ≡ (done tt, record s { link = l; binding_list = answered_node m ∷ bs })
  unfolding remote_respond change_binding find_binding update_binding
  remote_answer_sends m bs s l first sent = ground (
    arith,
    first,
    sent,
    length-reply_bytes header body 0,
    take_ge (header_size + length body) (reply_bytes header body 0),
  )

module _ {L : Type 0} (send_reply : List ℕ → ℕ → M L (Unit {0})) (server : Server L)
    (header : MsgExitHeader) (body : List ℕ) where
  -- The request is for a service of the table, which answers it.
  pub record AnswersRequest (m : Incoming) (point : ReceptionPoint L) : Type 0 where
    pub entry : MsgEntryHeader
    pub rest : List ℕ
    pub service : Service
    pub words : EntryFits entry
    pub is_request : m.body ≡ encode_entry entry ++ rest
    pub code : entry.deamon_service_code ≡ service_value send
    pub all : point.registered_services ≡ point.number_of_services
    pub there : get_elem? point.table entry.client_service_code ≡ some (some service)
    pub answers :
        (s : ReceptionPoint L)
        → server.service service.service_function m.binding_point m.body s
          ≡ remote_answer send_reply header body m.binding_point s

  request_only :
      (contents : List ℕ) (m : Incoming) (s : ReceptionPoint L)
      → AnswersRequest m s
      → reply_to_shutdown send_reply (overwrite m.body contents) m.id s ≡ (done tt, s)
  unfolding reply_to_shutdown
  request_only contents m s a =
      let behind : List ℕ = drop (length m.body) contents in
      let code = a.code in
      let whole : overwrite m.body contents ≡ encode_entry a.entry ++ (a.rest ++ behind) =
        ap (λ (x : List ℕ). x ++ behind) a.is_request
        ∙ append_assoc (encode_entry a.entry) a.rest behind in
      let read : decode_entry (overwrite m.body contents) ≡ some (a.entry, a.rest ++ behind) =
        ap decode_entry whole ∙ decode_entry-encode_entry a.entry (a.rest ++ behind) a.words in
      ground (arith, read, code)

  -- The server runs, a service of its table answers at once a request of at most 4096 bytes, and the IPC sends the reply.
  -- Then the engine's turn for this request returns: the reply of the service has been sent under the
  -- id of the request, the entries that were answered before are freed, and the entry of this
  -- request is marked as answered.
  pub take_request_answers :
      (k : Aleph) (contents : List ℕ) (m : Incoming) (s : ReceptionPoint L) (l : L)
      → s.is_shutdown ≡ false
      → length m.body ≤ buffer_size
      → AnswersRequest m s
      → send_reply (reply_bytes header body 0) m.id s.link ≡ (done tt, l)
      → take_request send_reply server k contents m s ≡ (
        done (overwrite m.body contents),
        record s {
          link = l;
          binding_list = answered_node send_reply header body m ∷ kept false s.binding_list;
          freed = s.freed ++ dropped_blocks false s.binding_list;
        },
      )
  unfolding take_request find_binding update_binding
  take_request_answers k contents m s l up inside a sent =
      let quiet = request_only contents m s a in
      let freeing =
        binding_list_freeing_fct_lem (record s { binding_list = new_node m ∷ s.binding_list }) in
      let taken : ReceptionPoint L = record s {
        binding_list = new_node m ∷ kept false s.binding_list;
        freed = s.freed ++ dropped_blocks false s.binding_list;
      } in
      let told : ReceptionPoint L = record taken {
        binding_list =
            record (new_node m) { request_message = some m.message } ∷ kept false s.binding_list;
      } in
      let read : decode_entry m.body ≡ some (a.entry, a.rest) =
        ap decode_entry a.is_request ∙ decode_entry-encode_entry a.entry a.rest a.words in
      let found : find_binding m.binding_point taken.binding_list ≡ some (new_node m) =
        ground arith in
      let serves =
        dispatcher_serves server k m.binding_point m.message a.entry m.body a.rest taken a.service
          (new_node m) read a.code a.all a.there found in
      let asked = a.answers told in
      let ran =
        remote_answer_sends send_reply header body m (kept false s.binding_list) told l refl sent in
      ground (arith, up, quiet, freeing, serves, asked, ran)
