-- ===== src/Access/Sending.antt =====
-- `send` of include/access_point.C when nothing stops it, for any transport.
use gservices.Base.{
  if◌then◌else◌, leb, error, pure, M, ℕ, ◌+◌, ◌^◌, ◌<◌, ◌≤◌, ◌≡◌, List, [], ◌++◌, Option, some,
  true, false, Aleph, done, arith, length, take, take_all, get_elem?, length-append, append_assoc,
}
use gservices.Readwrite.{ret}
use gservices.Message.{
  MsgEntryHeader, ServiceCode, service_of, encode_entry, decode_entry, header_size,
}
use gservices.Message.Layout.{EntryFits, length-encode_entry, decode_entry-encode_entry}
use gservices.Access.{Transport, AccessPoint, send_request, send_with_buffer, check_header}

-- A request in memory is readable and sendable: its header decodes, the client may send it, and its
-- bytes lie inside the object.
pub record Sendable {L : Type 0} (k : Aleph) (s : AccessPoint L) (memory : List ℕ)
    (h : MsgEntryHeader) : Type 0 where
  pub free : s.locked ≡ false
  pub rest : List ℕ
  pub decoded : decode_entry memory ≡ some (h, rest)
  pub allowed :
      check_header k h (record s { locked = true }) ≡ (done tt, record s { locked = true })
  pub small : header_size + h.parameters_size < 2 ^ 32
  pub inside : header_size + h.parameters_size ≤ length memory

-- How a `send` whose `writen` has returned this count ends: a count from 2 ^ 31 on is negative.
abbrev pub reported : {S : Type 0} → Aleph → ℕ → M S (Unit {0})
reported k n = if leb (2 ^ 31) n then error k else pure tt

pub reported-state : {S : Type 0} (k : Aleph) (n : ℕ) (s : S) → (reported k n s).1 ≡ s
reported-state k n s = ground arith

pub reported_small :
    {S : Type 0} (k : Aleph) (n : ℕ) (s : S) → n < 2 ^ 31 → reported k n s ≡ (done tt, s)
reported_small k n s small = ground arith

module _ {L : Type 0} (t : Transport L) (k : Aleph) (s : AccessPoint L) (memory : List ℕ)
    (h : MsgEntryHeader) (n : ℕ) (l : L) where
  pub send_request_passes :
      Sendable k s memory h
      → t.writen (take (header_size + h.parameters_size) memory) s.link ≡ (done (ret n), l)
      → send_request t k memory s ≡ reported k n (record s { locked = true; link = l })
  unfolding send_request
  send_request_passes fit wrote =
      let free = fit.free in
      let allowed = fit.allowed in
      let decoded = fit.decoded in
      let small = fit.small in
      let inside = fit.inside in ground (arith, wrote, free, allowed, decoded, small, inside)

  pub send_with_buffer_passes :
      (buffer : List ℕ) (size : ℕ)
      → Sendable k s memory h
      → size ≤ length buffer
      → header_size + h.parameters_size + size < 2 ^ 32
      → t.writen (take (header_size + h.parameters_size) memory ++ take size buffer) s.link
        ≡ (done (ret n), l)
      → send_with_buffer t k memory buffer size s
        ≡ reported k n (record s { locked = true; link = l })
  unfolding send_with_buffer
  send_with_buffer_passes buffer size fit whole total wrote =
      let free = fit.free in
      let allowed = fit.allowed in
      let decoded = fit.decoded in
      let small = fit.small in
      let inside = fit.inside in ground (arith, wrote, free, allowed, decoded, small, inside)

-- A client may send this message: it is a system message, or one for a service that it registered.
abbrev pub MaySend : List (Option (List ℕ)) → MsgEntryHeader → Type 0
MaySend table h = elim (service_of h.deamon_service_code) [
  | some ServiceCode.add ↦ Unit {0}
  | some ServiceCode.shutdown ↦ Unit {0}
  | some ServiceCode.send ↦
      (name : List ℕ) × (get_elem? table h.client_service_code ≡ some (some name))
  | _ ↦ ⊥
]

check_header_passes :
    {L : Type 0} (k : Aleph) (h : MsgEntryHeader) (s : AccessPoint L)
    → MaySend s.table h
    → check_header k h s ≡ (done tt, s)
unfolding check_header
check_header_passes k h s may = ground arith

-- The sizes of a request in memory: its header, and as many bytes behind it as the header counts.
pub record RequestFits (h : MsgEntryHeader) (parameters buffer : List ℕ) : Type 0 where
  pub words : EntryFits h
  pub parameters_counted : h.parameters_size ≡ length parameters
  pub total_fits : header_size + length parameters + length buffer < 2 ^ 32

module _ (k : Aleph) (h : MsgEntryHeader) (parameters beyond : List ℕ) where
  abbrev pub request : List ℕ
  request = encode_entry h ++ (parameters ++ beyond)

  take_request :
      RequestFits h parameters []
      → take (header_size + h.parameters_size) request ≡ encode_entry h ++ parameters
  take_request fit =
      let p = fit.parameters_counted in
      ground (
        arith,
        p,
        take_all (encode_entry h ++ parameters) beyond,
        append_assoc (encode_entry h) parameters beyond,
        length-append (encode_entry h) parameters,
        length-encode_entry h,
      )

  request-Sendable :
      {L : Type 0} (s : AccessPoint L)
      → s.locked ≡ false
      → MaySend s.table h
      → RequestFits h parameters []
      → Sendable k s request h
  request-Sendable s free may fit =
      let p = fit.parameters_counted in
      let total = fit.total_fits in
      record {
        free = free;
        rest = parameters ++ beyond;
        decoded = decode_entry-encode_entry h (parameters ++ beyond) fit.words;
        allowed = check_header_passes k h (record s { locked = true }) may;
        small = omega arith;
        inside = omega (
          arith,
          length-append (encode_entry h) (parameters ++ beyond),
          length-append parameters beyond,
          length-encode_entry h,
        );
      }

module _ {L : Type 0} (t : Transport L) (k : Aleph) (h : MsgEntryHeader)
    (parameters beyond : List ℕ) (s : AccessPoint L) where
  -- A request that may be sent is given to the link as its header and its parameters.
  pub send_request_writes :
      (n : ℕ) (l : L)
      → s.locked ≡ false
      → MaySend s.table h
      → RequestFits h parameters []
      → t.writen (encode_entry h ++ parameters) s.link ≡ (done (ret n), l)
      → send_request t k (request k h parameters beyond) s
        ≡ reported k n (record s { locked = true; link = l })
  send_request_writes n l free may fit wrote =
      send_request_passes t k s (request k h parameters beyond) h n l
        (request-Sendable k h parameters beyond s free may fit)
        (rw (take_request k h parameters beyond fit) wrote)

  -- With a buffer, it is one message of the three parts.
  pub send_with_buffer_writes :
      (buffer unsent : List ℕ) (n : ℕ) (l : L)
      → s.locked ≡ false
      → MaySend s.table h
      → RequestFits h parameters buffer
      → t.writen (encode_entry h ++ (parameters ++ buffer)) s.link ≡ (done (ret n), l)
      → send_with_buffer t k (request k h parameters beyond) (buffer ++ unsent) (length buffer) s
        ≡ reported k n (record s { locked = true; link = l })
  send_with_buffer_writes buffer unsent n l free may fit wrote =
      let p = fit.parameters_counted in
      let total = fit.total_fits in
      let part : RequestFits h parameters [] = record {
        words = fit.words;
        parameters_counted = p;
        total_fits = omega arith;
      } in
      send_with_buffer_passes t k s (request k h parameters beyond) h n l (buffer ++ unsent)
        (length buffer) (request-Sendable k h parameters beyond s free may part)
        (omega (arith, length-append buffer unsent)) (omega arith)
        (rw
          (
            take_request k h parameters beyond part,
            take_all buffer unsent,
            append_assoc (encode_entry h) parameters buffer,
          )
          wrote)
