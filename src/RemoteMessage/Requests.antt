-- ===== src/RemoteMessage/Requests.antt =====
-- Ping_N_Objects_Request as a list of locators that grows to a given length.
use gservices.Base.{
  ℕ, ◌+◌, ◌*◌, ◌^◌, ◌≡◌, ◌≤◌, ◌<◌, append-nil, append_assoc, refl, sym, subst, inl, inr, Bool, ltb,
  ltb_cases, false, List, [], ◌∷◌, ◌++◌, some, true, false, Aleph, M, after, done, stopped,
  assertion, pure, ◌>>◌, arith, length, take, get_elem?, length-append, lt_of_get_elem?,
}
use gservices.Wire.{word, length-word}
use gservices.Message.{MsgEntryHeader, header_size, encode_entry}
use gservices.Object.{IsCType, stored, put, sizeof, round_up, offset_of}
use gservices.Object.Messages.{call_header, made, Constructs, sized_message_lem}
use gservices.LocalMessage.{AlephTypes}
use gservices.RemoteMessage.Pings.{
  ping_shapes, set_actual, copy_to, copy_from, ping_request, add_locator, locator_at,
  locator_offset, reset_locators_counter, get_number,
}
use gservices.RemoteMessage.Bytes.{
  all_bytes, length-all_bytes, all_bytes-append, get_elem?-all_bytes,
}
use gservices.RemoteMessage.Packed.{
  IsPacked, place_u32, counts_places, counts_entries, copy_to_inside, copy_from_reads,
}
use gservices.RemoteMessage.Places.{
  put_entry, put_entry-IsPacked, copy_to_place, set_actual_place, put-IsPacked, made-IsPacked,
}

module _ (t : AlephTypes) (lawful : IsCType (t.locator)) where
  -- The memory is a request with so many places, of which the first hold these locators. Its header
  -- counts all the places.
  abbrev pub IsRequest : ℕ → List t.Locator → List ℕ → Type 0
  IsRequest places locators memory =
      IsPacked (call_header 9 (24 + places * t.locator.size)) t.locator.size places
        (all_bytes t.locator.bytes locators) memory

  pub add_locator-IsRequest :
      (k : Aleph) (places : ℕ) (locators : List t.Locator) (memory : List ℕ) (locator : t.Locator)
      → IsRequest places locators memory
      → length locators < places
      → (after : List ℕ) × (add_locator t k locator memory ≡ (done tt, after))
        × IsRequest places (locators ++ locator ∷ []) after
  unfolding add_locator
  add_locator-IsRequest k places locators memory locator is free =
      let entries : List (List ℕ) = all_bytes t.locator.bytes locators in
      let c : List ℕ = t.locator.bytes locator in
      let counted : length entries ≡ length locators = length-all_bytes t.locator.bytes locators in
      let sized = lawful.length-bytes locator in
      let room : length entries < places = omega arith in
      let h : MsgEntryHeader = call_header 9 (24 + places * t.locator.size) in
      let place = place_u32 h t.locator.size places entries memory (length entries) is room in
      let copied : copy_to (locator_offset t (length entries)) c memory
          ≡ (done tt, put memory (24 + length entries * t.locator.size) c) =
        rw place (copy_to_place h t.locator.size places entries memory c is sized room) in
      let numbered = set_actual_place h t.locator.size places entries memory c is sized room in
      let actual = counts_entries h t.locator.size places entries memory is in
      let number = counts_places h t.locator.size places entries memory is in
      (
        put_entry memory (length entries) t.locator.size c,
        ground (arith, actual, number, copied, numbered),
        rw (all_bytes-append t.locator.bytes locators locator)
            (put_entry-IsPacked h t.locator.size places entries memory c is sized room),
      )

  pub locator_at-IsRequest :
      (k : Aleph) (places : ℕ) (locators : List t.Locator) (memory : List ℕ) (i : ℕ)
      (locator : t.Locator)
      → IsRequest places locators memory
      → get_elem? locators i ≡ some locator
      → locator_at t k i memory ≡ (done locator, memory)
  unfolding locator_at
  locator_at-IsRequest k places locators memory i locator is there =
      let entries : List (List ℕ) = all_bytes t.locator.bytes locators in
      let bounded = is.bounded in
      let there' = get_elem?-all_bytes t.locator.bytes locators i locator there in
      let below : i < places =
        omega (arith, lt_of_get_elem? entries i (t.locator.bytes locator) there') in
      let place = place_u32 _ t.locator.size places entries memory i is below in
      let (_, held) = is.held i (t.locator.bytes locator) there' in
      let number = counts_places _ t.locator.size places entries memory is in
      let copied : copy_from t.locator (locator_offset t i) memory ≡ (done locator, memory) =
        copy_from_reads t.locator (locator_offset t i) memory locator (stored lawful locator)
          (rw place held) in
      ground (arith, number, copied)

  pub ping_request-IsRequest :
      (k : Aleph) (places : ℕ) (memory : List ℕ) {S : Type 0} (s : S)
      → places < 2 ^ 32
      → 24 + places * t.locator.size < 2 ^ 32
      → 24 + places * t.locator.size ≤ length memory
      → (object : List ℕ) × (ping_request t k places memory s ≡ (done object, s))
        × IsRequest places [] object
  unfolding ping_request sizeof
  ping_request-IsRequest k places memory s places_small small room =
      let total : ℕ = 24 + places * t.locator.size in
      let cs : List (List ℕ) = word places ∷ word 0 ∷ [] in
      let ready : Constructs 9 total ping_shapes cs memory = record {
        code_small = omega arith;
        size_small = small;
        fit = (length-word places, (length-word 0, tt));
        holds = omega arith;
        room = room;
      } in
      (
        made 9 total ping_shapes cs memory,
        sized_message_lem 9 total ping_shapes cs memory ready k s,
        made-IsPacked 9 total t.locator.size places memory ready places_small small room,
      )

  pub reset_locators_counter-IsRequest :
      (places : ℕ) (locators : List t.Locator) (memory : List ℕ)
      → IsRequest places locators memory
      → (after : List ℕ) × (reset_locators_counter t memory ≡ (done tt, after))
        × IsRequest places [] after
  unfolding reset_locators_counter set_actual offset_of round_up
  reset_locators_counter-IsRequest places locators memory is =
      let room = is.room in
      (
        put memory 20 (word 0),
        copy_to_inside 20 (word 0) memory (omega (arith, length-word 0)),
        put-IsPacked _ t.locator.size places (all_bytes t.locator.bytes locators) memory is,
      )

  -- `add_locator` for each locator of a list.
  unfoldable pub add_locators : Aleph → List t.Locator → M (List ℕ) (Unit {0})
  add_locators k [] = pure tt
  add_locators k (x ∷ xs) = do add_locator t k x; add_locators k xs

  pub add_locators-IsRequest :
      (k : Aleph) (places : ℕ) (locators more : List t.Locator) (memory : List ℕ)
      → IsRequest places locators memory
      → length locators + length more ≤ places
      → (after : List ℕ) × (add_locators k more memory ≡ (done tt, after))
        × IsRequest places (locators ++ more) after
  unfolding add_locators
  add_locators-IsRequest k places locators [] memory is room = (
    memory,
    refl,
    subst (λ (xs : List t.Locator). IsRequest places xs memory) (sym (append-nil locators)) is,
  )
  add_locators-IsRequest k places locators (x ∷ xs) memory is room =
      let (middle, added, is') =
        add_locator-IsRequest k places locators memory x is (omega arith) in
      let (last, all, is'') =
        add_locators-IsRequest k places (locators ++ x ∷ []) xs middle is'
          (omega (arith, length-append locators (x ∷ []))) in
      (
        last,
        rw added all,
        subst (λ (ys : List t.Locator). IsRequest places ys last)
            (append_assoc locators (x ∷ []) xs) is'',
      )

  add_locator_full :
      (k : Aleph) (places : ℕ) (locators : List t.Locator) (memory : List ℕ) (locator : t.Locator)
      → k.assert_stops ≡ true
      → IsRequest places locators memory
      → length locators ≡ places
      → add_locator t k locator memory ≡ (stopped assertion, memory)
  unfolding add_locator
  add_locator_full k places locators memory locator stops is full =
      let counted = length-all_bytes t.locator.bytes locators in
      let actual =
        counts_entries _ t.locator.size places (all_bytes t.locator.bytes locators) memory is in
      let number =
        counts_places _ t.locator.size places (all_bytes t.locator.bytes locators) memory is in
      ground (arith, actual, number, counted, stops)

  -- What `add_locator` does to a request, by whether it has a free place.
  abbrev pub Grows : Bool → Aleph → ℕ → List t.Locator → t.Locator → List ℕ → Type 0
  Grows true k places locators locator memory =
      (after : List ℕ) × (add_locator t k locator memory ≡ (done tt, after))
      × IsRequest places (locators ++ locator ∷ []) after
  Grows false k places locators locator memory =
      add_locator t k locator memory ≡ (stopped assertion, memory)

  -- Where ASSERT stops the process: `add_locator` on a request that holds some locators appends the
  -- one that it is given if the request has a free place, and fails its ASSERT, with the memory as
  -- it was, if all the places are in use.
  pub add_locator-Grows :
      (k : Aleph) (places : ℕ) (locators : List t.Locator) (memory : List ℕ) (locator : t.Locator)
      → k.assert_stops ≡ true
      → IsRequest places locators memory
      → Grows (ltb (length locators) places) k places locators locator memory
  add_locator-Grows k places locators memory locator stops is =
      let bounded = is.bounded in
      let counted = length-all_bytes t.locator.bytes locators in
      elim (ltb_cases (length locators) places) [
        | inl (below, e) ↦ rw e (add_locator-IsRequest k places locators memory locator is below)
        | inr (above, e) ↦
            rw e (add_locator_full k places locators memory locator stops is (omega arith))
      ]

  -- A request constructed for a number of places, to which no more locators are added than it has
  -- places, where the sizes are those of 32-bit words and the memory holds the places: the
  -- constructor and every `add_locator` return, `operator[]` gives the i-th locator that was added,
  -- and the header and the number of objects are those of all the places.
  pub ping_request_reads :
      (k : Aleph) (places : ℕ) (locators : List t.Locator) (memory : List ℕ) (i : ℕ)
      (locator : t.Locator) {S : Type 0} (s : S)
      → places < 2 ^ 32
      → 24 + places * t.locator.size < 2 ^ 32
      → 24 + places * t.locator.size ≤ length memory
      → length locators ≤ places
      → get_elem? locators i ≡ some locator
      → (object after : List ℕ) × (ping_request t k places memory s ≡ (done object, s))
        × (add_locators k locators object ≡ (done tt, after))
        × (locator_at t k i after ≡ (done locator, after))
        × (get_number t after ≡ (done places, after))
        × (take header_size after ≡ encode_entry (call_header 9 (24 + places * t.locator.size)))
  unfolding get_number
  ping_request_reads k places locators memory i locator s places_small small room fits there =
      let (object, made', new) = ping_request-IsRequest k places memory s places_small small room in
      let (after, added, is) =
        add_locators-IsRequest k places [] locators object new (omega arith) in
      (
        object,
        after,
        made',
        added,
        locator_at-IsRequest k places locators after i locator is there,
        counts_places _ t.locator.size places (all_bytes t.locator.bytes locators) after is,
        is.header,
      )
