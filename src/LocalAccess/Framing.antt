-- ===== src/LocalAccess/Framing.antt =====
-- What a client of include/local_access_point.C puts on the wire for a message.
use gservices.Base.{
  ap, ◌∙◌, ℕ, ◌+◌, ◌≤◌, ◌≡◌, List, [], ◌++◌, true, false, Aleph, done, arith, length, length-append,
}
use gservices.Readwrite.{ret, WriteAnswer}
use gservices.Readwrite.Output.{capacity, writen_sends}
use gservices.Message.{MsgEntryHeader, encode_entry, header_size}
use gservices.Message.Layout.{length-encode_entry}
use gservices.Access.{AccessPoint, send_request, send_with_buffer}
use gservices.Access.Lock.{IsQuiet}
use gservices.Access.Sending.{
  MaySend, RequestFits, request, reported, send_request_writes, send_with_buffer_writes,
}
use gservices.LocalAccess.{LocalLink, local_transport, readn_f, writen_f}

-- The functions of the local link throw nothing.
pub local_transport-IsQuiet : (k : Aleph) → IsQuiet (local_transport k)
unfolding readn_f writen_f
local_transport-IsQuiet k = record { reads = λ n l. ground arith; writes = λ m l. ground arith }

-- What the kernel accepts whole goes out whole.
writen_f_sends :
    (k : Aleph) (message : List ℕ) (l : LocalLink)
    → length message ≤ capacity l.writes
    → (rest : List WriteAnswer) × (writen_f k message l
        ≡ (done (ret (length message)), record l { writes = rest; sent = l.sent ++ message }))
unfolding writen_f
writen_f_sends k message l room =
    let (rest, e) = writen_sends l.writes message room in (rest, ground (arith, e))

module _ (k : Aleph) (h : MsgEntryHeader) (parameters beyond : List ℕ) where
  abbrev pub after_sending :
      List ℕ → List WriteAnswer → AccessPoint LocalLink → AccessPoint LocalLink
  after_sending message rest s = record s {
    locked = true;
    link = record (s.link) { writes = rest; sent = s.link.sent ++ message };
  }

  -- If the mutex is free, the client may send the message, and the kernel takes it whole, `send`
  -- has put exactly the header and the parameters on the wire, and holds the mutex; what lies
  -- behind the request in memory is not sent. It returns if these are fewer than 2 ^ 31 bytes, and
  -- calls ERROR otherwise.
  pub send_request_sends :
      (s : AccessPoint LocalLink)
      → s.locked ≡ false
      → MaySend s.table h
      → RequestFits h parameters []
      → header_size + length parameters ≤ capacity s.link.writes
      → (rest : List WriteAnswer) × (send_request
            (local_transport k)
            k
            (request k h parameters beyond)
            s
          ≡ reported k
              (header_size + length parameters)
              (after_sending (encode_entry h ++ parameters) rest s))
  send_request_sends s free may fit room =
      let counted : length (encode_entry h ++ parameters) ≡ header_size + length parameters =
        omega (arith, length-append (encode_entry h) parameters, length-encode_entry h) in
      let (rest, e) = writen_f_sends k (encode_entry h ++ parameters) s.link (omega arith) in
      let sent : AccessPoint LocalLink = after_sending (encode_entry h ++ parameters) rest s in
      (
        rest,
        send_request_writes (local_transport k) k h parameters beyond s
              (length (encode_entry h ++ parameters))
              (record (s.link) {
                writes = rest;
                sent = s.link.sent ++ (encode_entry h ++ parameters);
              })
              free may fit e
            ∙ ap (λ n. reported k n sent) counted,
      )

module _ (k : Aleph) (h : MsgEntryHeader) (parameters beyond buffer unsent : List ℕ) where
  -- If the mutex is free, the client may send the message, and the kernel takes it whole, the
  -- `send` with a buffer has put the header, the parameters and the buffer on the wire as one
  -- message, and holds the mutex; it does not look at the invocation size in the header. It returns
  -- if these are fewer than 2 ^ 31 bytes, and calls ERROR otherwise.
  pub send_with_buffer_sends :
      (s : AccessPoint LocalLink)
      → s.locked ≡ false
      → MaySend s.table h
      → RequestFits h parameters buffer
      → header_size + length parameters + length buffer ≤ capacity s.link.writes
      → (rest : List WriteAnswer) × (send_with_buffer
            (local_transport k)
            k
            (request k h parameters beyond)
            (buffer ++ unsent)
            (length buffer)
            s
          ≡ reported k (header_size + length parameters + length buffer) (
              after_sending k h parameters beyond
                (encode_entry h ++ (parameters ++ buffer))
                rest
                s))
  send_with_buffer_sends s free may fit room =
      let message : List ℕ = encode_entry h ++ (parameters ++ buffer) in
      let counted : length message ≡ header_size + length parameters + length buffer = omega (
        arith,
        length-append (encode_entry h) (parameters ++ buffer),
        length-append parameters buffer,
        length-encode_entry h,
      ) in
      let (rest, e) = writen_f_sends k message s.link (omega arith) in
      (
        rest,
        send_with_buffer_writes (local_transport k) k h parameters beyond s buffer unsent
              (length message) (record (s.link) { writes = rest; sent = s.link.sent ++ message })
              free may fit e
            ∙ ap (λ n. reported k n (after_sending k h parameters beyond message rest s)) counted,
      )
