-- ===== src/RemoteMessage/Places.antt =====
-- The objects of the ping messages as they are made and filled.
use gservices.Base.{
  ℕ, ◌+◌, ◌*◌, ◌^◌, ◌≡◌, ◌≤◌, ◌<◌, refl, sym, ap, subst, ◌∙◌, ◌⊎◌, inl, inr, List, [], ◌∷◌, ◌++◌,
  done, arith, length, take, drop, length-append, lt_of_get_elem?, take-append_le, take_ge,
}
use gservices.Wire.{word, length-word}
use gservices.Message.{MsgEntryHeader, header_size, encode_entry}
use gservices.Object.{put, window, end_of, round_up, offset_of}
use gservices.Object.Window.{length-put, window-put_self, window-put_ne}
use gservices.Message.Layout.{length-encode_entry}
use gservices.Object.Members.{store_members_stores}
use gservices.Object.Messages.{
  call_header, headed, length-headed, made, made-append, length-made, Constructs,
}
use gservices.RemoteMessage.Pings.{ping_shapes, set_actual, copy_to}
use gservices.RemoteMessage.Packed.{mul_le, IsPacked, copy_to_inside, get_elem?-append_end}

-- A new entry behind the others, and the counter that counts it.
pub put_entry : List ℕ → ℕ → ℕ → List ℕ → List ℕ
put_entry memory k size c = put (put memory (24 + k * size) c) 20 (word (k + 1))

module _ (h : MsgEntryHeader) (size places : ℕ) (entries : List (List ℕ)) (memory c : List ℕ)
    (packed : IsPacked h size places entries memory) (sized : length c ≡ size)
    (free : length entries < places) where
  -- The place of the new entry lies inside the memory.
  pub place_inside : 24 + length entries * size + size ≤ length memory
  place_inside = let room = packed.room in omega (arith, mul_le (length entries) places size free)

  same_length : length (put memory (24 + length entries * size) c) ≡ length memory
  same_length = length-put memory (24 + length entries * size) c (omega (arith, place_inside))

  pub copy_to_place :
      copy_to (24 + length entries * size) c memory
      ≡ (done tt, put memory (24 + length entries * size) c)
  copy_to_place = copy_to_inside (24 + length entries * size) c memory (omega (arith, place_inside))

  pub set_actual_place :
      set_actual (length entries + 1) (put memory (24 + length entries * size) c)
      ≡ (done tt, put_entry memory (length entries) size c)
  unfolding put_entry set_actual offset_of round_up
  set_actual_place =
      let inside = place_inside in
      let same = same_length in
      copy_to_inside 20 (word (length entries + 1)) (put memory (24 + length entries * size) c)
        (omega (arith, length-word (length entries + 1)))

  -- What does not lie in the place nor in the counter is kept.
  put_entry_keeps :
      (p n : ℕ)
      → (p + n ≤ 20) ⊎ ((24 ≤ p) × (p + n ≤ 24 + length entries * size))
      → window p n (put_entry memory (length entries) size c) ≡ window p n memory
  unfolding put_entry
  put_entry_keeps p n away =
      let inside = place_inside in
      let same = same_length in
      let counted = length-word (length entries + 1) in
      window-put_ne (put memory (24 + length entries * size) c) 20 (word (length entries + 1))
        (omega arith) p n
        (elim away [ inl low ↦ inl (omega arith) | inr (high, _) ↦ inr (omega arith) ])
      ∙ window-put_ne memory (24 + length entries * size) c (omega arith) p n
          (elim away [ inl low ↦ inl (omega arith) | inr (_, before) ↦ inl before ])

  put_entry_holds :
      window (24 + length entries * size) size (put_entry memory (length entries) size c) ≡ c
  unfolding put_entry
  put_entry_holds =
      let inside = place_inside in
      let same = same_length in
      let counted = length-word (length entries + 1) in
      window-put_ne (put memory (24 + length entries * size) c) 20 (word (length entries + 1))
        (omega arith) (24 + length entries * size) size (inr (omega arith))
      ∙ subst
          (λ (n : ℕ).
            window (24 + length entries * size) n (put memory (24 + length entries * size) c) ≡ c)
          sized (window-put_self memory (24 + length entries * size) c (omega arith))

  pub put_entry-IsPacked :
      IsPacked h size places (entries ++ c ∷ []) (put_entry memory (length entries) size c)
  unfolding put_entry put word
  put_entry-IsPacked =
      let bounded = packed.bounded in
      let room = packed.room in
      let inside = place_inside in
      let same = same_length in
      let counted = length-word (length entries + 1) in
      let more : length (entries ++ c ∷ []) ≡ length entries + 1 =
        omega (arith, length-append entries (c ∷ [])) in
      let middle : List ℕ = put memory (24 + length entries * size) c in
      record {
        header = put_entry_keeps 0 16 (inl (omega arith)) ∙ packed.header;
        counted = put_entry_keeps 16 4 (inl (omega arith)) ∙ packed.counted;
        actual = rw more (window-put_self middle 20 (word (length entries + 1)) (omega arith));
        bounded = omega arith;
        places_small = packed.places_small;
        small = packed.small;
        room = omega (arith, length-put middle 20 (word (length entries + 1)) (omega arith));
        held = λ i d e. elim (get_elem?-append_end entries c d i e) [
          | inl old ↦
              let below = lt_of_get_elem? entries i d old in
              let (fits, there) = packed.held i d old in
              (
                fits,
                put_entry_keeps (24 + i * size) size
                      (inr (omega arith, omega (arith, mul_le i (length entries) size below)))
                    ∙ there,
              )
          | inr (last, it) ↦ (ap length (sym it) ∙ sized, rw last (put_entry_holds ∙ it))
        ];
      }

-- Setting the counter back leaves the places, and no entry in use.
pub put-IsPacked :
    (h : MsgEntryHeader) (size places : ℕ) (entries : List (List ℕ)) (memory : List ℕ)
    → IsPacked h size places entries memory
    → IsPacked h size places [] (put memory 20 (word 0))
unfolding put word
put-IsPacked h size places entries memory packed =
    let room = packed.room in
    let small = packed.small in
    let fits : 20 + length (word 0) ≤ length memory = omega (arith, length-word 0) in
    record {
      header = window-put_ne memory 20 (word 0) fits 0 16 (inl (omega arith)) ∙ packed.header;
      counted = window-put_ne memory 20 (word 0) fits 16 4 (inl (omega arith)) ∙ packed.counted;
      actual = window-put_self memory 20 (word 0) fits;
      bounded = omega arith;
      places_small = packed.places_small;
      small = small;
      room = omega (arith, length-put memory 20 (word 0) fits);
      held = λ i c e. absurd (cc);
    }

-- A new object has all its places free.
pub made-IsPacked :
    (code total size places : ℕ) (memory : List ℕ)
    → Constructs code total ping_shapes (word places ∷ word 0 ∷ []) memory
    → places < 2 ^ 32
    → 24 + places * size < 2 ^ 32
    → 24 + places * size ≤ length memory
    → IsPacked
        (call_header code total)
        size
        places
        []
        (made code total ping_shapes (word places ∷ word 0 ∷ []) memory)
unfolding made word end_of offset_of round_up
made-IsPacked code total size places memory ready places_small small room =
    let cs : List (List ℕ) = word places ∷ word 0 ∷ [] in
    let header = encode_entry (call_header code total) in
    let sized = length-encode_entry (call_header code total) in
    let whole = length-headed header memory sized (omega arith) in
    let object : List ℕ = made code total ping_shapes cs memory in
    record {
      header =
          ap (take 16) (made-append code total ping_shapes cs memory ready)
          ∙ take-append_le 16 header (drop 16 object) (omega arith)
          ∙ take_ge 16 header (omega arith);
      counted =
          store_members_stores header_size ping_shapes cs (headed header memory) 0 (word places)
            ready.fit (omega arith) refl;
      actual =
          store_members_stores header_size ping_shapes cs (headed header memory) 1 (word 0)
            ready.fit (omega arith) refl;
      bounded = omega arith;
      places_small = places_small;
      small = small;
      room = omega (arith, length-made code total ping_shapes cs memory ready);
      held = λ i c e. absurd (cc);
    }
