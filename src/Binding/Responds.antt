-- ===== src/Binding/Responds.antt =====
-- What a reply of include/local_binding.C and include/remote_binding.C contains, and whose binding
-- it marks as answered.
use gservices.Base.{
  ◌<◌, ◌^◌, suc, ℕ, ◌+◌, ◌≡◌, refl, List, [], ◌∷◌, ◌++◌, some, false, M, Aleph, done, arith, length,
  take_ge, if◌then◌else◌, length-append,
}
use gservices.Readwrite.{Ssize, ret}
use gservices.Message.{MsgExitHeader, encode_exit, header_size}
use gservices.Message.Layout.{length-encode_exit}
use gservices.Reception.{BindingNode, ReceptionPoint, blocks_of}
use gservices.Reception.Freeing.{blocks}
use gservices.Binding.{
  on_link, local_respond_with_buffer, remote_respond_with_buffer, find_binding, update_binding,
  change_binding, is_failure, local_respond,
}

-- A change of a binding's fields leaves the list's blocks alone.
pub blocks-update_binding :
    (binding : ℕ) (f : BindingNode → BindingNode) (bs : List BindingNode)
    → ((b : BindingNode) → blocks_of (f b) ≡ blocks_of b)
    → blocks (update_binding binding f bs) ≡ blocks bs
unfolding update_binding
blocks-update_binding binding f [] h = refl
blocks-update_binding binding f (b ∷ bs) h =
    ground (arith, h b, blocks-update_binding binding f bs h)

pub find_binding-update_binding :
    (binding : ℕ) (f : BindingNode → BindingNode) (bs : List BindingNode) (b : BindingNode)
    → ((b : BindingNode) → (f b).binding_point ≡ b.binding_point)
    → find_binding binding bs ≡ some b
    → find_binding binding (update_binding binding f bs) ≡ some (f b)
unfolding find_binding update_binding
find_binding-update_binding binding f [] b h e = absurd (cc)
find_binding-update_binding binding f (x ∷ bs) b h e =
    ground (arith, h x, find_binding-update_binding binding f bs b h)

-- The bytes of a reply: its header, with the two sizes filled in, and what the service added.
abbrev pub reply_bytes : MsgExitHeader → List ℕ → ℕ → List ℕ
reply_bytes header body buffer_size =
    encode_exit
      (record header { response_size = header_size + length body; invocation_size = buffer_size })
    ++ body

pub length-reply_bytes :
    (header : MsgExitHeader) (body : List ℕ) (n : ℕ)
    → length (reply_bytes header body n) ≡ header_size + length body
length-reply_bytes header body n = omega (
  arith,
  length-append
      (encode_exit
        (record header { response_size = header_size + length body; invocation_size = n }))
      body,
  length-encode_exit
      (record header { response_size = header_size + length body; invocation_size = n }),
)

abbrev pub answered : ℕ → List BindingNode → List BindingNode
answered binding = update_binding binding (λ b. record b { still_busy = false })

module _ {L : Type 0} (writen : ℕ → List ℕ → M L Ssize) (k : Aleph) where
  -- A local reply of the size of its object goes to the socket of its binding, whole, with both
  -- sizes in its header. If the write succeeds the binding is marked as answered, and otherwise
  -- nothing of the server changes but the link.
  pub local_respond_writes :
      (binding : ℕ) (header : MsgExitHeader) (body : List ℕ) (s : ReceptionPoint L)
      (b : BindingNode) (status : Ssize) (l : L)
      → find_binding binding s.binding_list ≡ some b
      → writen b.peer (reply_bytes header body 0) s.link ≡ (done status, l)
      → local_respond (on_link writen) k binding header body (header_size + length body) s ≡ (
          if is_failure status
          then (done (ret 0), record s { link = l })
          else (done status, record s { link = l; binding_list = answered binding s.binding_list }))
  unfolding local_respond change_binding
  local_respond_writes binding header body s b status l found wrote = ground (
    arith,
    wrote,
    length-reply_bytes header body 0,
    take_ge (header_size + length body) (reply_bytes header body 0),
  )

  -- A local reply with a buffer that is not empty: the reply goes to the socket of its binding with
  -- both sizes in its header, and then the buffer. If both writes succeed the binding is marked as
  -- answered, and the status of the second is returned.
  pub local_respond_with_buffer_writes :
      (binding : ℕ) (header : MsgExitHeader) (body : List ℕ) (x : ℕ) (xs : List ℕ)
      (s : ReceptionPoint L) (b : BindingNode) (status status' : Ssize) (l l' : L)
      → find_binding binding s.binding_list ≡ some b
      → writen b.peer (reply_bytes header body (suc (length xs))) s.link ≡ (done status, l)
      → is_failure status ≡ false
      → writen b.peer (x ∷ xs) l ≡ (done status', l')
      → is_failure status' ≡ false
      → local_respond_with_buffer
          (on_link writen)
          k
          binding
          header
          body
          (header_size + length body)
          (x ∷ xs)
          s
        ≡ (done status', record s { link = l'; binding_list = answered binding s.binding_list })
  unfolding local_respond_with_buffer change_binding
  local_respond_with_buffer_writes binding header body x xs s b status status' l l' found wrote ok
        wrote' ok' =
      ground (
        arith,
        wrote,
        wrote',
        length-reply_bytes header body (suc (length xs)),
        take_ge (header_size + length body) (reply_bytes header body (suc (length xs))),
      )

module _ {L : Type 0} (send_reply : ℕ → List ℕ → M L (Unit {0})) where
  -- A remote reply with a buffer, of less than 2 ^ 32 bytes together, goes out as one message, the reply with both sizes in its header
  -- and then the buffer, and its binding is marked as answered.
  pub remote_respond_with_buffer_sends :
      (binding : ℕ) (header : MsgExitHeader) (body buffer : List ℕ) (s : ReceptionPoint L)
      (b : BindingNode) (l : L)
      → header_size + length body + length buffer < 2 ^ 32
      → find_binding binding s.binding_list ≡ some b
      → send_reply b.peer (reply_bytes header body (length buffer) ++ buffer) s.link ≡ (done tt, l)
      → remote_respond_with_buffer
          (on_link send_reply)
          binding
          header
          body
          (header_size + length body)
          buffer
          s
        ≡ (done (ret 0), record s { link = l; binding_list = answered binding s.binding_list })
  unfolding remote_respond_with_buffer change_binding
  remote_respond_with_buffer_sends binding header body buffer s b l small found sent = ground (
    arith,
    sent,
    length-reply_bytes header body (length buffer),
    take_ge (header_size + length body) (reply_bytes header body (length buffer)),
  )
