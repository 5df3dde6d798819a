-- ===== src/LocalEngine/Answers.antt =====
-- A request to the engine of include/local_reception_point.C whose service answers it at once.
use gservices.Base.{
  ℕ, ◌+◌, ◌^◌, ◌≤◌, ◌<◌, ◌≡◌, ◌∙◌, subst, refl, List, ◌∷◌, ◌++◌, some, false, M, Aleph, done, pure,
  ◌>>=◌, arith, length, get_elem?,
}
use gservices.Readwrite.{ret}
use gservices.Readwrite.Output.{capacity}
use gservices.Readwrite.Stream.{stream}
use gservices.Message.{
  MsgEntryHeader, MsgExitHeader, send, service_value, encode_entry, header_size,
}
use gservices.Message.Layout.{decode_entry-encode_entry}
use gservices.Reception.{Service, BindingNode, ReceptionPoint}
use gservices.Reception.Freeing.{kept, dropped_blocks, binding_list_freeing_fct_lem}
use gservices.Binding.{on_link, find_binding, update_binding, local_respond, is_failure}
use gservices.Binding.Responds.{reply_bytes, length-reply_bytes, local_respond_writes}
use gservices.Dispatcher.{Server, dispatcher}
use gservices.Dispatcher.Actions.{dispatcher_serves}
use gservices.LocalReception.{Sockets, update, Blocks, new_node, socket_writen}
use gservices.LocalReception.Framing.{PartsFit, sent_message, read_request_frames}
use gservices.LocalReception.Quiet.{Outputs, read_request-Outputs, socket_writen_sends}
use gservices.LocalEngine.{Engine, serve, none_left}

module _ (k : Aleph) (header : MsgExitHeader) (body : List ℕ) where
  -- A service that answers the binding that it is given, and returns.
  abbrev pub local_answer : ℕ → M (ReceptionPoint Sockets) (Unit {0})
  local_answer binding = do
    _ ← local_respond (on_link socket_writen) k binding header body (header_size + length body)
    pure tt

  -- The entry of a request that has been answered.
  abbrev pub answered_node : ℕ → Blocks → BindingNode
  answered_node fd b = record (new_node fd b) {
    request_message = some b.message;
    still_busy = false;
  }

  local_answer_writes :
      (fd : ℕ) (b : Blocks) (bs : List BindingNode) (s : ReceptionPoint Sockets)
      → s.binding_list ≡ record (new_node fd b) { request_message = some b.message } ∷ bs
      → header_size + length body ≤ capacity (s.link.writes fd)
      → header_size + length body < 2 ^ 31
      → (t : Sockets) × (local_answer b.binding_point s
          ≡ (done tt, record s { link = t; binding_list = answered_node fd b ∷ bs }))
        × (t.sent ≡ update s.link.sent fd (s.link.sent fd ++ reply_bytes header body 0))
        × (t.reads ≡ s.link.reads)
  unfolding find_binding update_binding
  local_answer_writes fd b bs s first room small =
      let message : List ℕ = reply_bytes header body 0 in
      let counted = length-reply_bytes header body 0 in
      let (t, wrote, sent, quiet) = socket_writen_sends fd message s.link (omega arith) in
      let here : BindingNode = record (new_node fd b) { request_message = some b.message } in
      let found : find_binding b.binding_point s.binding_list ≡ some here = ground (arith, first) in
      let responds =
        local_respond_writes socket_writen k b.binding_point header body s here
          (ret (length message)) t found wrote in
      let good : is_failure (ret (length message)) ≡ false = ground arith in
      (t, ground (arith, first, responds, good), sent, quiet)

  module _ (server : Server Sockets) (fd : ℕ) (b : Blocks) (h : MsgEntryHeader)
      (parameters invocation later : List ℕ) (f : Service) where
    abbrev pub whole : List ℕ
    whole = sent_message fd h parameters invocation later b

    -- The service of the request's code, which answers it.
    pub record AnswersRequest (point : ReceptionPoint Sockets) : Type 0 where
      pub code : h.deamon_service_code ≡ service_value send
      pub all : point.registered_services ≡ point.number_of_services
      pub there : get_elem? point.table h.client_service_code ≡ some (some f)
      pub answers :
          (s : ReceptionPoint Sockets)
          → server.service f.service_function b.binding_point whole s
            ≡ local_answer b.binding_point s

    dispatcher_answers :
        (bs : List BindingNode) (s : ReceptionPoint Sockets)
        → AnswersRequest s
        → PartsFit h parameters invocation
        → s.binding_list ≡ new_node fd b ∷ bs
        → header_size + length body ≤ capacity (s.link.writes fd)
        → header_size + length body < 2 ^ 31
        → (t : Sockets) × (dispatcher server k b.binding_point b.message whole s
            ≡ (done tt, record s { link = t; binding_list = answered_node fd b ∷ bs }))
          × (t.sent ≡ update s.link.sent fd (s.link.sent fd ++ reply_bytes header body 0))
          × (t.reads ≡ s.link.reads)
    unfolding find_binding update_binding
    dispatcher_answers bs s a fit first room small =
        let told : ReceptionPoint Sockets = record s {
          binding_list = record (new_node fd b) { request_message = some b.message } ∷ bs;
        } in
        let (t, ran, sent, quiet) = local_answer_writes fd b bs told refl room small in
        let found : find_binding b.binding_point s.binding_list ≡ some (new_node fd b) =
          ground (arith, first) in
        let read = decode_entry-encode_entry h (parameters ++ invocation) fit.words in
        let serves =
          dispatcher_serves server k b.binding_point b.message h whole (parameters ++ invocation) s
            f (new_node fd b) read a.code a.all a.there found in
        let asked = a.answers told in (t, ground (arith, first, serves, asked, ran), sent, quiet)

    -- The engine comes to a client's socket with a whole request for a service that answers it at
    -- once, the kernel takes the reply, and the reply is smaller than 2 ^ 31. Then the reply of
    -- the service is written to that socket, exactly the request is taken from it, the entries that
    -- were answered before are freed, and the entry of this request is marked as answered.
    pub serve_answers :
        (i : ℕ) (e : Engine)
        → length e.entry_msg ≡ header_size
        → PartsFit h parameters invocation
        → stream (e.point.link.reads fd) ≡ whole ++ later
        → AnswersRequest e.point
        → header_size + length body ≤ capacity (e.point.link.writes fd)
        → header_size + length body < 2 ^ 31
        → (l : Sockets) × (serve server k i fd b e
            ≡ none_left (record e {
              entry_msg = encode_entry h;
              point = record (e.point) {
                link = l;
                binding_list = answered_node fd b ∷ kept e.point.is_shutdown e.point.binding_list;
                freed = e.point.freed ++ dropped_blocks e.point.is_shutdown e.point.binding_list;
              };
            }))
          × (l.sent
              ≡ update e.point.link.sent fd (e.point.link.sent fd ++ reply_bytes header body 0))
          × (stream (l.reads fd) ≡ later)
    unfolding serve
    serve_answers i e sized fit arrives a room small =
        let p : ReceptionPoint Sockets = record (e.point) {
          binding_list = kept e.point.is_shutdown e.point.binding_list;
          freed = e.point.freed ++ dropped_blocks e.point.is_shutdown e.point.binding_list;
        } in
        let freeing = binding_list_freeing_fct_lem e.point in
        let (l, reads, left) =
          read_request_frames fd h parameters invocation later b e.entry_msg p sized fit arrives in
        let quiet : Outputs p.link l =
          subst (λ x. Outputs p.link (x.1.link)) reads (read_request-Outputs fd e.entry_msg b p) in
        let taken : ReceptionPoint Sockets = record p {
          link = l;
          binding_list = new_node fd b ∷ p.binding_list;
        } in
        let (t, dispatched, sent, same) =
          dispatcher_answers p.binding_list taken
            (record { code = a.code; all = a.all; there = a.there; answers = a.answers }) fit refl
            (rw quiet.writes room) small in
        (t, ground (arith, freeing, reads, dispatched), sent ∙ rw quiet.sent refl, rw same left)
