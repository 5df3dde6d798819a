-- ===== src/Binding/Threads.antt =====
-- A thread of a service that answers by include/local_binding.C or include/remote_binding.C, while
-- the engine and the other threads go on.
use gservices.Base.{ℕ, ◌+◌, ◌≡◌, List, ◌++◌, not, ltb, leb, M, Aleph, after, assert, arith, length}
use gservices.Wire.{u32}
use gservices.Readwrite.{Ssize, ret}
use gservices.Message.{MsgExitHeader, header_size}
use gservices.Reception.{BindingNode, ReceptionPoint}
use gservices.Binding.{
  binding_at, first_bytes, is_failure, write_buffer, local_respond, local_respond_with_buffer,
  remote_respond, remote_respond_with_buffer,
}
use gservices.Binding.Effects.{Pending}
use gservices.Binding.Meanwhile.{
  Interleaves, Found, Holds, Pending-Found, done-Holds, after-Holds, choice-Holds, if-Holds,
  assert-Kept, first_bytes-Kept, call-Kept, found-Holds, accomplished-Holds,
}

-- The four ways to answer.
pub data Answer : Type 0 where
  near far : MsgExitHeader → List ℕ → ℕ → Answer
  near_buffer far_buffer : MsgExitHeader → List ℕ → ℕ → List ℕ → Answer

module _ {L : Type 0} (a peer : ℕ) (writen : ℕ → List ℕ → M (ReceptionPoint L) Ssize)
    (send_reply : ℕ → List ℕ → M (ReceptionPoint L) (Unit {0})) (k : Aleph) where
  abbrev pub respond : Answer → M (ReceptionPoint L) Ssize
  respond (near header body size) = local_respond writen k a header body size
  respond (far header body size) = remote_respond send_reply a header body size
  respond (near_buffer header body size buffer) =
      local_respond_with_buffer writen k a header body size buffer
  respond (far_buffer header body size buffer) =
      remote_respond_with_buffer send_reply a header body size buffer

  -- The part of each `respond` before the first write.
  begun-Holds :
      (header : MsgExitHeader) (body : List ℕ) (size : ℕ)
      (f : BindingNode → List ℕ → M (ReceptionPoint L) Ssize) (s : ReceptionPoint L)
      → Pending a peer s
      → ((b : BindingNode) (bytes : List ℕ) (t : ReceptionPoint L)
          → b.peer ≡ peer
          → Pending a peer t
          → Holds (Found a peer) (f b bytes t))
      → Holds
          (Found a peer)
          (after (binding_at a s) (λ b t. after (first_bytes header body size t) (f b)))
  begun-Holds header body size f s p next =
      found-Holds a peer (Found a peer) (λ b t. after (first_bytes header body size t) (f b)) s p
        (λ b same.
          after-Holds a peer (Found a peer) (first_bytes header body size s) (f b)
            (Pending-Found a peer) (first_bytes-Kept a peer header body size s p)
            (λ bytes t p'. next b bytes t same p'))

  local_respond-Holds :
      (header : MsgExitHeader) (body : List ℕ) (size : ℕ) (s : ReceptionPoint L)
      → Interleaves a peer writen
      → Pending a peer s
      → Holds (Found a peer) (local_respond writen k a header body size s)
  unfolding local_respond
  local_respond-Holds header body size s w p =
      after-Holds a peer (Found a peer) (assert k (leb header_size size) s) _ (Pending-Found a peer)
        (assert-Kept a peer k (leb header_size size) s p)
        λ _ s1 p1.
          begun-Holds (record header { response_size = size; invocation_size = 0 }) body size _ s1
            p1
            λ b bytes s2 same p2.
              after-Holds a peer (Found a peer) (writen b.peer bytes s2) _ (Pending-Found a peer)
                (call-Kept a peer writen b.peer bytes s2 w same p2)
                λ status s3 p3.
                  if-Holds a peer (Found a peer) (is_failure status) _ _ s3
                    (done-Holds a peer (Found a peer) _ s3 (Pending-Found a peer s3 p3))
                    (accomplished-Holds a peer status s3 p3)

  write_buffer-Kept :
      (to : ℕ) (buffer : List ℕ) (status : Ssize) (s : ReceptionPoint L)
      → Interleaves a peer writen
      → to ≡ peer
      → Pending a peer s
      → Holds (Pending a peer) (write_buffer writen k to buffer status s)
  unfolding write_buffer
  write_buffer-Kept to buffer status s w same p =
      if-Holds a peer (Pending a peer) (ltb 0 (length buffer)) _ _ s
        (after-Holds a peer (Pending a peer) (writen to buffer s) _ (λ t q. q)
          (call-Kept a peer writen to buffer s w same p)
          (λ status' t p'.
            after-Holds a peer (Pending a peer) (assert k (not (is_failure status')) t) _ (λ u q. q)
              (assert-Kept a peer k (not (is_failure status')) t p')
              (λ _ u p''. done-Holds a peer (Pending a peer) status' u p'')))
        (done-Holds a peer (Pending a peer) status s p)

  local_respond_with_buffer-Holds :
      (header : MsgExitHeader) (body : List ℕ) (size : ℕ) (buffer : List ℕ) (s : ReceptionPoint L)
      → Interleaves a peer writen
      → Pending a peer s
      → Holds (Found a peer) (local_respond_with_buffer writen k a header body size buffer s)
  unfolding local_respond_with_buffer
  local_respond_with_buffer-Holds header body size buffer s w p =
      after-Holds a peer (Found a peer) (assert k (leb header_size size) s) _ (Pending-Found a peer)
        (assert-Kept a peer k (leb header_size size) s p)
        λ _ s1 p1.
          begun-Holds (record header { response_size = size; invocation_size = length buffer }) body
            size _ s1 p1
            λ b bytes s2 same p2.
              after-Holds a peer (Found a peer) (writen b.peer bytes s2) _ (Pending-Found a peer)
                (call-Kept a peer writen b.peer bytes s2 w same p2)
                λ status s3 p3.
                  choice-Holds a peer (Found a peer) (is_failure status) _ _ s3
                    (done-Holds a peer (Found a peer) _ s3 (Pending-Found a peer s3 p3))
                    (after-Holds a peer (Found a peer)
                      (write_buffer writen k b.peer buffer status s3) _ (Pending-Found a peer)
                      (write_buffer-Kept b.peer buffer status s3 w same p3)
                      (λ status' s4 p4. accomplished-Holds a peer status' s4 p4))

  remote_respond-Holds :
      (header : MsgExitHeader) (body : List ℕ) (size : ℕ) (s : ReceptionPoint L)
      → Interleaves a peer send_reply
      → Pending a peer s
      → Holds (Found a peer) (remote_respond send_reply a header body size s)
  unfolding remote_respond
  remote_respond-Holds header body size s w p =
      begun-Holds (record header { response_size = size; invocation_size = 0 }) body size _ s p
        λ b bytes s2 same p2.
          after-Holds a peer (Found a peer) (send_reply b.peer bytes s2) _ (Pending-Found a peer)
            (call-Kept a peer send_reply b.peer bytes s2 w same p2)
            λ _ s3 p3. accomplished-Holds a peer (ret 0) s3 p3

  remote_respond_with_buffer-Holds :
      (header : MsgExitHeader) (body : List ℕ) (size : ℕ) (buffer : List ℕ) (s : ReceptionPoint L)
      → Interleaves a peer send_reply
      → Pending a peer s
      → Holds (Found a peer) (remote_respond_with_buffer send_reply a header body size buffer s)
  unfolding remote_respond_with_buffer
  remote_respond_with_buffer-Holds header body size buffer s w p =
      begun-Holds (record header { response_size = size; invocation_size = length buffer }) body
        size _ s p
        λ b bytes s2 same p2.
          choice-Holds a peer (Found a peer)
            (leb (size + length buffer) (u32 (size + length buffer))) _ _ s2
            (after-Holds a peer (Found a peer) (send_reply b.peer (bytes ++ buffer) s2) _
              (Pending-Found a peer)
              (call-Kept a peer send_reply b.peer (bytes ++ buffer) s2 w same p2)
              (λ _ s3 p3. accomplished-Holds a peer (ret 0) s3 p3))
            ((λ e. ground (arith, e)), Pending-Found a peer s2 p2)

  -- A server that has not been shut down, and whose clients keep their connections open. A thread
  -- answers, by any of the four `respond`, a request that is pending: its binding is in the list and
  -- busy. Each write that it begins while this is so, to the client of the binding, returns, and
  -- during the write the engine and the other threads have taken any number of steps: new
  -- requests, the freeing of what is answered, messages told to bindings, and answers through
  -- other bindings. Then, however the answer ends, no freed binding has been used, and the binding
  -- of the request, with its client, is still in the list.
  pub respond_meanwhile :
      (r : Answer) (s : ReceptionPoint L)
      → Interleaves a peer writen
      → Interleaves a peer send_reply
      → Pending a peer s
      → Holds (Found a peer) (respond r s)
  respond_meanwhile (near header body size) s w w' p = local_respond-Holds header body size s w p
  respond_meanwhile (far header body size) s w w' p = remote_respond-Holds header body size s w' p
  respond_meanwhile (near_buffer header body size buffer) s w w' p =
      local_respond_with_buffer-Holds header body size buffer s w p
  respond_meanwhile (far_buffer header body size buffer) s w w' p =
      remote_respond_with_buffer-Holds header body size buffer s w' p
