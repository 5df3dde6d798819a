-- ===== src/Access/Lock.antt =====
-- The mutex `lock_send` of include/access_point.C: `send` takes it, `receive` gives it back.
use gservices.Base.{
  ℕ, ◌≡◌, List, none, some, true, false, Aleph, thrown, blocked, not_found, Ends, get_elem?, arith,
}
use gservices.Message.{MsgEntryHeader, MsgExitHeader, send, service_value, decode_entry, exit_at}
use gservices.Access.{
  Transport, AccessPoint, check_header, write, send_request, send_with_buffer, receive_reply,
  receive_with_buffer, receive_rest,
}

module _ {L : Type 0} where
  abbrev pub IsLocked : AccessPoint L → Type 0
  IsLocked s = s.locked ≡ true

  abbrev pub IsFree : AccessPoint L → Type 0
  IsFree s = s.locked ≡ false

  check_header-IsLocked :
      (k : Aleph) (h : MsgEntryHeader) (s : AccessPoint L)
      → IsLocked s
      → IsLocked (check_header k h s).1
  unfolding check_header
  check_header-IsLocked k h s p = ground arith

module _ {L : Type 0} (t : Transport L) where
  -- A link whose functions return or stop, and throw nothing.
  pub record IsQuiet : Type 0 where
    pub reads : (n : ℕ) (l : L) → Ends (λ _ _. Unit {0}) (λ _. ⊥) (t.readn n l)
    pub writes : (message : List ℕ) (l : L) → Ends (λ _ _. Unit {0}) (λ _. ⊥) (t.writen message l)

module _ {L : Type 0} (t : Transport L) (k : Aleph) where
  -- With the mutex held, neither form of `send` gets anywhere.
  pub send_request_blocks :
      (request : List ℕ) (s : AccessPoint L)
      → IsLocked s
      → send_request t k request s ≡ (blocked, s)
  unfolding send_request
  send_request_blocks request s p = ground arith

  pub send_with_buffer_blocks :
      (request buffer : List ℕ) (size : ℕ) (s : AccessPoint L)
      → IsLocked s
      → send_with_buffer t k request buffer size s ≡ (blocked, s)
  unfolding send_with_buffer
  send_with_buffer_blocks request buffer size s p = ground arith

  write-IsLocked :
      (message : List ℕ) (s : AccessPoint L) → IsLocked s → IsLocked (write t k message s).1
  unfolding write
  write-IsLocked message s p = ground arith

  -- However `send` ends, the mutex is then held: it is never released on any of its paths.
  pub send_request-IsLocked :
      (request : List ℕ) (s : AccessPoint L) → IsLocked (send_request t k request s).1
  unfolding send_request check_header
  send_request-IsLocked request s = ground arith

  pub send_with_buffer-IsLocked :
      (request buffer : List ℕ) (size : ℕ) (s : AccessPoint L)
      → IsLocked (send_with_buffer t k request buffer size s).1
  unfolding send_with_buffer check_header
  send_with_buffer-IsLocked request buffer size s = ground arith

  -- If a client sends a message for a service that it has not registered, `send` throws NotFound,
  -- writes nothing, and leaves the mutex held: every later `send` waits for ever.
  pub send_unregistered :
      (request rest : List ℕ) (h : MsgEntryHeader) (s : AccessPoint L)
      → IsFree s
      → decode_entry request ≡ some (h, rest)
      → h.deamon_service_code ≡ service_value send
      → get_elem? s.table h.client_service_code ≡ some none
      → (send_request t k request s ≡ (thrown not_found, record s { locked = true }))
        × ((later : List ℕ)
            → send_request t k later (send_request t k request s).1
              ≡ (blocked, record s { locked = true }))
  unfolding send_request check_header
  send_unregistered request rest h s free e is_send missing =
      let fails : send_request t k request s ≡ (thrown not_found, record s { locked = true }) =
        ground arith in
      (fails, λ later. ground (arith, fails))

  -- If the functions of the link throw nothing, the mutex is free when `receive` returns, and when
  -- it throws.
  pub receive_reply-IsFree :
      (reply : List ℕ) (size : ℕ) (s : AccessPoint L)
      → IsQuiet t
      → Ends (λ _. IsFree) IsFree (receive_reply t k reply size s)
  unfolding receive_reply
  receive_reply-IsFree reply size s q = ground (arith, q.reads size s.link)

  receive_rest-IsFree :
      (header : MsgExitHeader) (reply : List ℕ) (size_msg : ℕ) (buffer : List ℕ) (size_buf : ℕ)
      (s : AccessPoint L)
      → IsQuiet t
      → Ends (λ _. IsFree) IsFree (receive_rest t k header reply size_msg buffer size_buf s)
  unfolding receive_rest
  receive_rest-IsFree header reply size_msg buffer size_buf s q =
      ground (arith, q.reads header.invocation_size s.link)

  -- If the functions of the link throw nothing, the mutex is free when the `receive` that takes a
  -- buffer returns, and when it throws.
  pub receive_with_buffer-IsFree :
      (reply : List ℕ) (size_msg : ℕ) (buffer : List ℕ) (size_buf : ℕ) (s : AccessPoint L)
      → IsQuiet t
      → Ends (λ _. IsFree) IsFree (receive_with_buffer t k reply size_msg buffer size_buf s)
  unfolding receive_with_buffer exit_at
  receive_with_buffer-IsFree reply size_msg buffer size_buf s q =
      grind (arith, q.reads size_msg s.link, receive_rest-IsFree)
