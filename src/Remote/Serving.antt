-- ===== src/Remote/Serving.antt =====
-- The engine of include/remote_reception_point.C when a client asks for the shutdown, and the
-- client's reads of include/remote_access_point.C.
use gservices.Base.{
  ap, ◌∙◌, ℕ, ◌≤◌, ◌≡◌, refl, List, [], ◌∷◌, ◌++◌, some, true, false, M, Aleph, done, stopped,
  assertion, arith, take-append_le, take_ge, length, take, drop, if◌then◌else◌, ◌==◌,
}
use gservices.Readwrite.{ret}
use gservices.Message.{shutdown_response, shutdown_message, encode_exit, encode_entry, decode_entry}
use gservices.Message.Layout.{length-encode_entry, decode_entry-encode_entry}
use gservices.Access.{overwrite}
use gservices.Reception.{BindingNode, ReceptionPoint}
use gservices.Reception.Freeing.{kept, dropped_blocks, binding_list_freeing_fct_lem}
use gservices.Binding.{find_binding, update_binding, change_binding}
use gservices.Dispatcher.{Server, dispatcher}
use gservices.Remote.{
  new_node, IpcClient, readn_f, Incoming, reply_to_shutdown, take_request, deamon_engine,
  buffer_size,
}

module _ {L : Type 0} (send_reply : List ℕ → ℕ → M L (Unit {0})) (server : Server L)
    (k : Aleph) where
  shutdown_answered :
      (contents : List ℕ) (id : ℕ) (s : ReceptionPoint L) (l : L)
      → send_reply (encode_exit shutdown_response) id s.link ≡ (done tt, l)
      → reply_to_shutdown send_reply (encode_entry shutdown_message ++ contents) id s
        ≡ (done tt, record s { link = l })
  unfolding reply_to_shutdown
  shutdown_answered contents id s l sent =
      ground (arith, decode_entry-encode_entry shutdown_message contents (omega arith), sent)

  shutdown_dispatched :
      (m : Incoming) (s : ReceptionPoint L) (bs : List BindingNode)
      → s.binding_list ≡ new_node m ∷ bs
      → dispatcher server k m.binding_point m.message (encode_entry shutdown_message) s ≡ (
        done tt,
        record s {
          is_shutdown = true;
          binding_list = record (new_node m) { still_busy = false } ∷ bs;
        },
      )
  unfolding dispatcher change_binding find_binding update_binding encode_entry gservices.Wire.word
  shutdown_dispatched m s bs first =
      let read : decode_entry (encode_entry shutdown_message) ≡ some (shutdown_message, []) =
        decode_entry-encode_entry shutdown_message [] (omega arith) in
      ground (arith, read, first)

  engine_over :
      (contents : List ℕ) (later : List Incoming) (s : ReceptionPoint L)
      → s.is_shutdown ≡ true
      → deamon_engine send_reply server k contents later s ≡ (done tt, s)
  unfolding deamon_engine
  engine_over contents [] s down = ground arith
  engine_over contents (m ∷ ms) s down = ground arith

  -- If the server runs and the reply goes out, a request for the shutdown is answered at once, its
  -- entry is marked as answered, and the engine ends: whatever requests come after it are not
  -- taken.
  pub deamon_engine_ends :
      (contents : List ℕ) (m : Incoming) (later : List Incoming) (s : ReceptionPoint L) (l : L)
      → s.is_shutdown ≡ false
      → m.body ≡ encode_entry shutdown_message
      → send_reply (encode_exit shutdown_response) m.id s.link ≡ (done tt, l)
      → deamon_engine send_reply server k contents (m ∷ later) s ≡ (
        done tt,
        record s {
          link = l;
          is_shutdown = true;
          binding_list = record (new_node m) { still_busy = false } ∷ kept false s.binding_list;
          freed = s.freed ++ dropped_blocks false s.binding_list;
        },
      )
  unfolding deamon_engine take_request
  deamon_engine_ends contents m later s l up body sent =
      let short : length m.body ≡ 16 = ap length body ∙ length-encode_entry shutdown_message in
      let answered =
        shutdown_answered (drop (length (encode_entry shutdown_message)) contents) m.id s l sent in
      let freeing =
        binding_list_freeing_fct_lem
          (record s { link = l; binding_list = new_node m ∷ s.binding_list }) in
      let dispatched =
        shutdown_dispatched m
          (record s {
            link = l;
            binding_list = new_node m ∷ kept false s.binding_list;
            freed = s.freed ++ dropped_blocks false s.binding_list;
          })
          (kept false s.binding_list) refl in
      let taken : take_request send_reply server k contents m s ≡ (
        done (overwrite m.body contents),
        record s {
          link = l;
          is_shutdown = true;
          binding_list = record (new_node m) { still_busy = false } ∷ kept false s.binding_list;
          freed = s.freed ++ dropped_blocks false s.binding_list;
        },
      ) =
        ground (arith, body, up, short, answered, freeing, dispatched) in
      let over : (c : List ℕ) (t : ReceptionPoint L)
          → t.is_shutdown ≡ true
          → deamon_engine send_reply server k c later t ≡ (done tt, t) =
        λ c t down. engine_over c later t down in
      ground (
        arith,
        up,
        taken,
        over (overwrite m.body contents)
            (record s {
              link = l;
              is_shutdown = true;
              binding_list = record (new_node m) { still_busy = false } ∷ kept false s.binding_list;
              freed = s.freed ++ dropped_blocks false s.binding_list;
            })
            refl,
      )

module _ {L : Type 0} (ipc : IpcClient L) (k : Aleph) (contents : List ℕ) where
  -- With ASSERT in force, a read of `n` bytes, at most 4096, ends with exactly the bytes of the
  -- reply if they are `n`, and stops the process for a reply of any other size.
  pub remote_readn_lem :
      (n : ℕ) (body : List ℕ) (l l' : L)
      → k.assert_stops ≡ true
      → n ≤ buffer_size
      → ipc.receive_reply l ≡ (done body, l')
      → readn_f ipc k contents n l
        ≡ (if n == length body then (done (ret n, body), l') else (stopped assertion, l'))
  unfolding readn_f
  remote_readn_lem n body l l' stops fits arrived =
      let whole : n ≡ length body → take n (overwrite body contents) ≡ body = λ e.
        rw (e, take-append_le (length body) body (drop (length body) contents) (omega arith))
          (take_ge (length body) body (omega arith)) in
      ground (arith, arrived, whole)
