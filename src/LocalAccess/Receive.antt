-- ===== src/LocalAccess/Receive.antt =====
-- What a client of include/local_access_point.C gets from `receive`.
use gservices.Base.{
  ℕ, ◌+◌, ◌≤◌, ◌≡◌, ◌==◌, if◌then◌else◌, List, ◌++◌, false, Aleph, done, thrown, size_fault, arith,
  length, take, drop, length-append, append-nil, drop_ge, drop_all, take_all, ◌∙◌,
}
use gservices.Readwrite.{ret, ReadAnswer}
use gservices.Readwrite.Stream.{stream, readn_delivers}
use gservices.Message.{MsgExitHeader, encode_exit, header_size}
use gservices.Message.Layout.{ExitFits, length-encode_exit, decode_exit-encode_exit}
use gservices.Access.{AccessPoint, receive_reply, overwrite}
use gservices.LocalAccess.{LocalLink, local_transport, readn_f}

module _ (k : Aleph) (h : MsgExitHeader) (body later : List ℕ) where
  abbrev pub reply_message : List ℕ
  reply_message = encode_exit h ++ body

  readn_f_delivers :
      (l : LocalLink)
      → stream l.reads ≡ reply_message ++ later
      → (rest : List ReadAnswer) × (readn_f (header_size + length body) l
          ≡ (done (ret (header_size + length body), reply_message), record l { reads = rest }))
        × (stream rest ≡ later)
  unfolding readn_f
  readn_f_delivers l e =
      let size : ℕ = header_size + length body in
      let counted : length reply_message ≡ size =
        omega (arith, length-append (encode_exit h) body, length-encode_exit h) in
      let enough : size ≤ length (stream l.reads) =
        rw e (omega (arith, length-append reply_message later)) in
      let (rest, r, left, end) = readn_delivers l.reads size enough in
      let first : take size (stream l.reads) ≡ reply_message =
        rw e (rw⁻¹ counted (take_all reply_message later)) in
      let others : drop size (stream l.reads) ≡ later =
        rw e (rw⁻¹ counted (drop_all reply_message later)) in
      (rest, ground (arith, r, first), left ∙ others)

  -- When a whole reply is there and the caller asks for its size, `receive` frees the mutex and
  -- takes exactly the reply: it returns the reply if the size in its header is the size asked for,
  -- and throws SizeFault otherwise. The object `reply` has that size, whatever it held.
  pub receive_reply_lem :
      (reply : List ℕ) (s : AccessPoint LocalLink)
      → ExitFits h
      → length reply ≡ header_size + length body
      → stream s.link.reads ≡ reply_message ++ later
      → (rest : List ReadAnswer) × (receive_reply
            (local_transport k)
            k
            reply
            (header_size + length body)
            s
          ≡ (
            if header_size + length body == h.response_size
                then done reply_message
                else thrown (size_fault (header_size + length body)),
            record s { locked = false; link = record (s.link) { reads = rest } },
          ))
        × (stream rest ≡ later)
  unfolding receive_reply
  receive_reply_lem reply s fit sized e =
      let counted : length reply_message ≡ header_size + length body =
        omega (arith, length-append (encode_exit h) body, length-encode_exit h) in
      let (rest, r, left) = readn_f_delivers s.link e in
      let over : overwrite reply_message reply ≡ reply_message =
        rw (drop_ge (length reply_message) reply (omega arith)) (append-nil reply_message) in
      let read = decode_exit-encode_exit h body fit in (rest, ground (arith, r, over, read), left)
