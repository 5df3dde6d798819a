-- ===== src/Access/Register.antt =====
-- `add_service` of include/access_point.C, with the answers that a server gives.
use gservices.Base.{
  ◌∙◌, ℕ, ◌+◌, ◌^◌, ◌<◌, ◌≡◌, refl, List, [], ◌∷◌, ◌++◌, some, true, false, Aleph, done, append-nil,
  arith, length, set, drop, drop_ge, length-append, length-drop, append-nil, take_ge,
}
use gservices.Wire.{IsText, u32, strcpy}
use gservices.Readwrite.{ret}
use gservices.Message.{
  exit_at, ResponseCode, MsgExitHeader, response_for_registration, encode_entry, encode_exit,
  empty_exit, decode_exit, header_size, name_size, register_message,
}
use gservices.Message.Layout.{
  registration, registration-EntryFits, decode_entry-encode_entry, ExitFits,
  decode_exit-encode_exit, length-encode_entry, length-encode_exit,
}
use gservices.Access.Sending.{reported_small, Sendable, send_request_passes}
use gservices.Access.{
  Transport, AccessPoint, add_service, send_request, receive_reply, on_response, overwrite,
  check_header,
}

-- The response of a server to a registration, with the size filled in.
abbrev pub registration_response : ResponseCode → MsgExitHeader
registration_response code = record (response_for_registration code) { response_size = header_size }

registration_response-ExitFits : (code : ResponseCode) → ExitFits (registration_response code)
registration_response-ExitFits code = ground arith

-- What the memory of a registration holds: the header, and the 80 bytes of the name.
abbrev pub registration_bytes : ℕ → List ℕ → List ℕ
registration_bytes code copy = encode_entry (registration code) ++ copy

registration-Sendable :
    {L : Type 0} (k : Aleph) (s : AccessPoint L) (code : ℕ) (copy : List ℕ)
    → s.locked ≡ false
    → code < 2 ^ 32
    → length copy ≡ name_size
    → Sendable k s (registration_bytes code copy) (registration code)
unfolding check_header
registration-Sendable k s code copy free word counted = record {
  free = free;
  rest = copy;
  decoded = decode_entry-encode_entry (registration code) copy (registration-EntryFits code word);
  allowed = refl;
  small = omega arith;
  inside = omega (
    arith,
    length-append (encode_entry (registration code)) copy,
    length-encode_entry (registration code),
  );
}

register_message_made :
    (code : ℕ) (name array : List ℕ)
    → length name < length array
    → register_message code name array
      ≡ some (registration_bytes code (name ++ (0 ∷ drop (length name + 1) array)))
unfolding register_message strcpy
register_message_made code name array fits = ground arith

exit_at_response :
    (c : ResponseCode) {S : Type 0} (s : S)
    → exit_at (encode_exit (registration_response c)) s ≡ (done (registration_response c, []), s)
unfolding exit_at encode_exit gservices.Wire.word
exit_at_response c s =
    let back : decode_exit (encode_exit (registration_response c))
        ≡ some (registration_response c, []) =
      decode_exit-encode_exit (registration_response c) [] (registration_response-ExitFits c) in
    ground (arith, back)

receive_registration :
    {L : Type 0} (t : Transport L) (k : Aleph) (c : ResponseCode) (s : AccessPoint L) (l : L)
    → t.readn header_size s.link
      ≡ (done (ret header_size, encode_exit (registration_response c)), l)
    → receive_reply t k (encode_exit empty_exit) header_size s
      ≡ (done (encode_exit (registration_response c)), record s { link = l; locked = false })
unfolding receive_reply
receive_registration t k c s l e =
    let sized = length-encode_exit (registration_response c) in
    let over : overwrite (encode_exit (registration_response c)) (encode_exit empty_exit)
        ≡ encode_exit (registration_response c) =
      rw
        (drop_ge (length (encode_exit (registration_response c))) (encode_exit empty_exit)
          (omega (arith, sized, length-encode_exit empty_exit)))
        (append-nil (encode_exit (registration_response c))) in
    let opened = exit_at_response c (record s { link = l }) in rw e rw over rw opened refl

-- The response code of a registration is left 0, DEMRESP_OK.
on_response_accepts :
    {L : Type 0} (t : Transport L) (k : Aleph) (code : ℕ) (name : List ℕ) (s : AccessPoint L)
    → length name < name_size
    → code < length s.table
    → on_response t k 0 code name s ≡ (done tt, record s { table = set s.table code (some name) })
unfolding on_response
on_response_accepts t k code name s fits inside = ground arith

module _ {L : Type 0} (t : Transport L) (k : Aleph) where
  -- For every response code c of a server: if the name fits the message, the message goes out,
  -- `writen` counts fewer than 2 ^ 31 bytes, and the response of the server with c comes back,
  -- `add_service` returns, the mutex is free and the service is in the table. The codes of a failed
  -- registration are no exception.
  pub add_service_accepts :
      (c : ResponseCode) (code : ℕ) (name array : List ℕ) (s : AccessPoint L) (sent : ℕ) (l l' : L)
      → s.locked ≡ false
      → code < length s.table
      → code < 2 ^ 32
      → length array ≡ name_size
      → length name < name_size
      → sent < 2 ^ 31
      → t.writen (registration_bytes code (name ++ (0 ∷ drop (length name + 1) array))) s.link
        ≡ (done (ret sent), l)
      → t.readn header_size l ≡ (done (ret header_size, encode_exit (registration_response c)), l')
      → add_service t k code name array s
        ≡ (done tt, record s { link = l'; table = set s.table code (some name); locked = false })
  unfolding add_service
  add_service_accepts c code name array s sent l l' free inside word counted fits short wrote
        answered =
      let copy : List ℕ = name ++ (0 ∷ drop (length name + 1) array) in
      let sized : length copy ≡ name_size = omega (
        arith,
        length-append name (0 ∷ drop (length name + 1) array),
        length-drop (length name + 1) array,
      ) in
      let sends : send_request t k (registration_bytes code copy) s
          ≡ (done tt, record s { locked = true; link = l }) =
        send_request_passes t k s (registration_bytes code copy) (registration code) sent l
          (registration-Sendable k s code copy free word sized)
          (rw
            (take_ge (header_size + name_size) (registration_bytes code copy) (
              omega (
                arith,
                length-append (encode_entry (registration code)) copy,
                length-encode_entry (registration code),
              )))
            wrote)
        ∙ reported_small k sent (record s { locked = true; link = l }) short in
      let made = register_message_made code name array (omega arith) in
      let back = receive_registration t k c (record s { locked = true; link = l }) l' answered in
      let opened = exit_at_response c (record s { locked = false; link = l' }) in
      let fits' : length name < name_size = fits in
      ground (
        arith,
        made,
        sends,
        back,
        opened,
        on_response_accepts t k code name (record s { locked = false; link = l' }) fits inside,
      )
