-- ===== src/RemoteMessage/Replies.antt =====
-- Ping_Reply_For_N_Objects as a list of locators with their replies that grows to a given length.
use gservices.Base.{
  ℕ, ◌+◌, ◌*◌, ◌^◌, ◌≡◌, ◌≤◌, ◌<◌, refl, sym, ap, subst, ◌∙◌, List, [], ◌∷◌, ◌++◌, some, Aleph, M,
  done, pure, ◌>>◌, arith, length, take, get_elem?, length-append, append_assoc, append-nil,
  lt_of_get_elem?,
}
use gservices.Wire.{word, length-word}
use gservices.Message.{MsgEntryHeader, header_size, encode_entry}
use gservices.Object.{IsCType, call_message, stored, put, word_type, sizeof}
use gservices.Object.Window.{length-put, put-append, window-append}
use gservices.Object.Messages.{call_header, made, sized_message_lem, Constructs}
use gservices.LocalMessage.{AlephTypes}
use gservices.LocalMessage.Transfer.{word_type-IsStored}
use gservices.RemoteMessage.{InvocationReplyType, reply_type_value}
use gservices.RemoteMessage.Pings.{
  ping_shapes, copy_to, copy_from, ping_reply, add_response, response_offset, get_locator,
  get_reply_type, get_number,
}
use gservices.RemoteMessage.Bytes.{
  all_bytes, length-all_bytes, all_bytes-append, get_elem?-all_bytes,
}
use gservices.RemoteMessage.Packed.{
  IsPacked, place_u32, counts_places, counts_entries, copy_to_inside, copy_from_reads,
}
use gservices.RemoteMessage.Places.{
  put_entry, put_entry-IsPacked, place_inside, set_actual_place, made-IsPacked,
}

module _ (t : AlephTypes) (lawful : IsCType (t.locator)) where
  abbrev pub Response : Type 0
  Response = t.Locator × InvocationReplyType

  abbrev pub response_bytes : Response → List ℕ
  response_bytes (locator, reply) = t.locator.bytes locator ++ word (reply_type_value reply)

  -- The memory is a reply with so many places, of which the first hold these responses. Its header
  -- counts none of the places.
  abbrev pub IsReply : ℕ → List Response → List ℕ → Type 0
  IsReply places responses memory =
      IsPacked (call_header 10 24) (t.locator.size + 4) places (all_bytes response_bytes responses)
        memory

  length-response_bytes : (r : Response) → length (response_bytes r) ≡ t.locator.size + 4
  length-response_bytes (locator, reply) = omega (
    arith,
    length-append (t.locator.bytes locator) (word (reply_type_value reply)),
    lawful.length-bytes locator,
    length-word (reply_type_value reply),
  )

  pub add_response-IsReply :
      (k : Aleph) (places : ℕ) (responses : List Response) (memory : List ℕ) (locator : t.Locator)
      (reply : InvocationReplyType)
      → IsReply places responses memory
      → length responses < places
      → (after : List ℕ) × (add_response t k locator reply memory ≡ (done tt, after))
        × IsReply places (responses ++ (locator, reply) ∷ []) after
  unfolding add_response
  add_response-IsReply k places responses memory locator reply is free =
      let size : ℕ = t.locator.size + 4 in
      let entries : List (List ℕ) = all_bytes response_bytes responses in
      let a : List ℕ = t.locator.bytes locator in
      let b : List ℕ = word (reply_type_value reply) in
      let counted : length entries ≡ length responses = length-all_bytes response_bytes responses in
      let sized = length-response_bytes (locator, reply) in
      let first : length a ≡ t.locator.size = lawful.length-bytes locator in
      let second : length b ≡ 4 = length-word (reply_type_value reply) in
      let room : length entries < places = omega arith in
      let h : MsgEntryHeader = call_header 10 24 in
      let place = place_u32 h size places entries memory (length entries) is room in
      let inside = place_inside h size places entries memory (a ++ b) is sized room in
      let at : ℕ = 24 + length entries * size in
      let copied : copy_to (response_offset t (length entries)) a memory
          ≡ (done tt, put memory at a) =
        rw place (copy_to_inside at a memory (omega arith)) in
      let then' : copy_to (response_offset t (length entries) + t.locator.size) b (put memory at a)
          ≡ (done tt, put memory at (a ++ b)) =
        let behind : response_offset t (length entries) + t.locator.size ≡ at + length a =
          omega arith in
        rw behind (
          copy_to_inside (at + length a) b (put memory at a)
            (omega (arith, length-put memory at a (omega arith)))
          ∙ ap (λ (m : List ℕ). (done tt, m)) (put-append memory at a b (omega arith))) in
      let numbered = set_actual_place h size places entries memory (a ++ b) is sized room in
      let actual = counts_entries h size places entries memory is in
      let number = counts_places h size places entries memory is in
      (
        put_entry memory (length entries) size (a ++ b),
        ground (arith, actual, number, copied, then', numbered),
        rw (all_bytes-append response_bytes responses (locator, reply))
            (put_entry-IsPacked h size places entries memory (a ++ b) is sized room),
      )

  -- Both parts of a response are read where they were stored.
  pub get_response-IsReply :
      (k : Aleph) (places : ℕ) (responses : List Response) (memory : List ℕ) (i : ℕ)
      (locator : t.Locator) (reply : InvocationReplyType)
      → IsReply places responses memory
      → get_elem? responses i ≡ some (locator, reply)
      → (get_locator t k i memory ≡ (done locator, memory))
        × (get_reply_type t k i memory ≡ (done (reply_type_value reply), memory))
  unfolding get_locator get_reply_type
  get_response-IsReply k places responses memory i locator reply is there =
      let size : ℕ = t.locator.size + 4 in
      let entries : List (List ℕ) = all_bytes response_bytes responses in
      let bounded = is.bounded in
      let there' = get_elem?-all_bytes response_bytes responses i (locator, reply) there in
      let below : i < places =
        omega (arith, lt_of_get_elem? entries i (response_bytes (locator, reply)) there') in
      let place = place_u32 _ size places entries memory i is below in
      let (_, held) = is.held i (response_bytes (locator, reply)) there' in
      let (front, back) =
        window-append (24 + i * size) t.locator.size 4 memory (t.locator.bytes locator)
          (word (reply_type_value reply)) (lawful.length-bytes locator)
          (length-word (reply_type_value reply)) held in
      let small : reply_type_value reply < 2 ^ 32 = ground arith in
      let number = counts_places _ size places entries memory is in
      let read : copy_from t.locator (response_offset t i) memory ≡ (done locator, memory) =
        copy_from_reads t.locator (response_offset t i) memory locator (stored lawful locator)
          (rw place front) in
      let typed : copy_from word_type (response_offset t i + t.locator.size) memory
          ≡ (done (reply_type_value reply), memory) =
        copy_from_reads word_type (response_offset t i + t.locator.size) memory
          (reply_type_value reply) (word_type-IsStored (reply_type_value reply) small)
          (rw place back) in
      (ground (arith, number, read), ground (arith, number, typed))

  pub ping_reply-IsReply :
      (k : Aleph) (places : ℕ) (memory : List ℕ) {S : Type 0} (s : S)
      → places < 2 ^ 32
      → 24 + places * (t.locator.size + 4) < 2 ^ 32
      → 24 + places * (t.locator.size + 4) ≤ length memory
      → (object : List ℕ) × (ping_reply t k places memory s ≡ (done object, s))
        × IsReply places [] object
  unfolding ping_reply call_message sizeof
  ping_reply-IsReply k places memory s places_small small room =
      let cs : List (List ℕ) = word places ∷ word 0 ∷ [] in
      let ready : Constructs 10 24 ping_shapes cs memory = record {
        code_small = omega arith;
        size_small = omega arith;
        fit = (length-word places, (length-word 0, tt));
        holds = omega arith;
        room = omega arith;
      } in
      (
        made 10 24 ping_shapes cs memory,
        sized_message_lem 10 24 ping_shapes cs memory ready k s,
        made-IsPacked 10 24 (t.locator.size + 4) places memory ready places_small small room,
      )

  -- `add_response` for each response of a list.
  unfoldable pub add_responses : Aleph → List Response → M (List ℕ) (Unit {0})
  add_responses k [] = pure tt
  add_responses k ((locator, reply) ∷ rs) = do add_response t k locator reply; add_responses k rs

  add_responses-IsReply :
      (k : Aleph) (places : ℕ) (responses more : List Response) (memory : List ℕ)
      → IsReply places responses memory
      → length responses + length more ≤ places
      → (after : List ℕ) × (add_responses k more memory ≡ (done tt, after))
        × IsReply places (responses ++ more) after
  unfolding add_responses
  add_responses-IsReply k places responses [] memory is room = (
    memory,
    refl,
    subst (λ (xs : List Response). IsReply places xs memory) (sym (append-nil responses)) is,
  )
  add_responses-IsReply k places responses ((locator, reply) ∷ rs) memory is room =
      let (middle, added, is') =
        add_response-IsReply k places responses memory locator reply is (omega arith) in
      let (last, all, is'') =
        add_responses-IsReply k places (responses ++ (locator, reply) ∷ []) rs middle is'
          (omega (arith, length-append responses ((locator, reply) ∷ []))) in
      (
        last,
        rw added all,
        subst (λ (ys : List Response). IsReply places ys last)
            (append_assoc responses ((locator, reply) ∷ []) rs) is'',
      )

  -- A reply constructed for a number of places, to which no more responses are added than it has
  -- places, where the sizes are those of 32-bit words and the memory holds the places: the
  -- constructor and every `add_response` return, `get_locator` and `get_reply_type` give the
  -- locator and the type of the i-th response, and the number of responses is that of all the
  -- places; but the header is that of a message of 24 bytes, which ends before the first response.
  pub ping_reply_reads :
      (k : Aleph) (places : ℕ) (responses : List Response) (memory : List ℕ) (i : ℕ)
      (locator : t.Locator) (reply : InvocationReplyType) {S : Type 0} (s : S)
      → places < 2 ^ 32
      → 24 + places * (t.locator.size + 4) < 2 ^ 32
      → 24 + places * (t.locator.size + 4) ≤ length memory
      → length responses ≤ places
      → get_elem? responses i ≡ some (locator, reply)
      → (object after : List ℕ) × (ping_reply t k places memory s ≡ (done object, s))
        × (add_responses k responses object ≡ (done tt, after))
        × (get_locator t k i after ≡ (done locator, after))
        × (get_reply_type t k i after ≡ (done (reply_type_value reply), after))
        × (get_number t after ≡ (done places, after))
        × (take header_size after ≡ encode_entry (call_header 10 24))
  unfolding get_number
  ping_reply_reads k places responses memory i locator reply s places_small small room fits there =
      let (object, made', new) = ping_reply-IsReply k places memory s places_small small room in
      let (after, added, is) =
        add_responses-IsReply k places [] responses object new (omega arith) in
      let (first, second) =
        get_response-IsReply k places responses after i locator reply is there in
      (
        object,
        after,
        made',
        added,
        first,
        second,
        counts_places _ (t.locator.size + 4) places (all_bytes response_bytes responses) after is,
        is.header,
      )
