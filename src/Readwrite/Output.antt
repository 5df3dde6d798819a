-- ===== src/Readwrite/Output.antt =====
-- What `writen` of include/local_readwrite.C sends, however the kernel takes it.
use gservices.Base.{
  ℕ, suc, ◌+◌, ◌≤◌, ◌<◌, ◌≡◌, refl, subst, List, [], ◌∷◌, ◌++◌, Option, none, some, Bool, true,
  false, arith, length, take, drop, append_assoc, append-nil, take-append-drop, take_add,
  length-drop,
}
use gservices.Readwrite.{
  ret, minus_one, WriteAnswer, accepted, refused, WriteResult, write_loop, writen,
}

-- How many bytes the kernel takes before it refuses with an errno other than EINTR.
abbrev pub capacity : List WriteAnswer → ℕ
capacity [] = 0
capacity (accepted k ∷ answers) = suc k + capacity answers
capacity (refused true ∷ answers) = capacity answers
capacity (refused false ∷ answers) = 0

-- Whether it refuses at all.
abbrev pub refuses : List WriteAnswer → Bool
refuses [] = false
refuses (accepted k ∷ answers) = refuses answers
refuses (refused true ∷ answers) = refuses answers
refuses (refused false ∷ answers) = true

write_loop_sends :
    (answers : List WriteAnswer) (n : ℕ) (bs sent : List ℕ)
    → length bs ≤ capacity answers
    → (rest : List WriteAnswer) × (write_loop answers n bs sent
        ≡ some (record { status = ret n; sent = sent ++ bs; rest = rest }))
unfolding write_loop
write_loop_sends answers n [] sent h = (answers, ground (arith, append-nil sent))
write_loop_sends [] n (b ∷ bs) sent h = elim h [ ]
write_loop_sends (refused true ∷ answers) n (b ∷ bs) sent h =
    write_loop_sends answers n (b ∷ bs) sent h
write_loop_sends (refused false ∷ answers) n (b ∷ bs) sent h = elim h [ ]
write_loop_sends (accepted k ∷ answers) n (b ∷ bs) sent h =
    let (rest, e) =
      write_loop_sends answers n (drop k bs) (sent ++ b ∷ take k bs)
        (omega (arith, length-drop k bs)) in
    (rest, ground (arith, e, append_assoc sent (b ∷ take k bs) (drop k bs), take-append-drop k bs))

-- If the kernel takes as many bytes as the buffer has, in any portions and with any interruptions,
-- `writen` returns their number and has sent the buffer, whole and in order.
pub writen_sends :
    (answers : List WriteAnswer) (buffer : List ℕ)
    → length buffer ≤ capacity answers
    → (rest : List WriteAnswer) × (writen answers buffer
        ≡ some (record { status = ret (length buffer); sent = buffer; rest = rest }))
unfolding writen
writen_sends answers buffer h = write_loop_sends answers (length buffer) buffer [] h

-- How a call ends when the kernel takes too few bytes.
abbrev pub Refuses : Bool → List ℕ → Option WriteResult → Type 0
Refuses true sent r =
    (rest : List WriteAnswer) × (r ≡ some (record { status = minus_one; sent = sent; rest = rest }))
Refuses false sent r = r ≡ none

write_loop-Refuses :
    (answers : List WriteAnswer) (n : ℕ) (bs sent : List ℕ)
    → capacity answers < length bs
    → Refuses (refuses answers) (sent ++ take (capacity answers) bs) (write_loop answers n bs sent)
unfolding write_loop
write_loop-Refuses answers n [] sent h = elim h [ ]
write_loop-Refuses [] n (b ∷ bs) sent h = refl
write_loop-Refuses (refused true ∷ answers) n (b ∷ bs) sent h =
    write_loop-Refuses answers n (b ∷ bs) sent h
write_loop-Refuses (refused false ∷ answers) n (b ∷ bs) sent h =
    (answers, ground (arith, append-nil sent))
write_loop-Refuses (accepted k ∷ answers) n (b ∷ bs) sent h =
    subst
      (λ (xs : List ℕ).
        Refuses (refuses answers) xs (write_loop answers n (drop k bs) (sent ++ b ∷ take k bs)))
      (shift k (capacity answers) b bs sent)
      (write_loop-Refuses answers n (drop k bs) (sent ++ b ∷ take k bs)
        (omega (arith, length-drop k bs)))
  where
    shift :
        (k c b : ℕ) (bs sent : List ℕ)
        → (sent ++ b ∷ take k bs) ++ take c (drop k bs) ≡ sent ++ take (suc k + c) (b ∷ bs)
    shift k c b bs sent =
        ground (
          arith,
          take_add (suc k) c (b ∷ bs),
          append_assoc sent (b ∷ take k bs) (take c (drop k bs)),
        )

-- If the kernel takes fewer bytes than the buffer has, those that it takes are the first ones, and
-- `writen` returns -1 if the kernel refuses the next one, and waits otherwise.
pub writen-Refuses :
    (answers : List WriteAnswer) (buffer : List ℕ)
    → capacity answers < length buffer
    → Refuses (refuses answers) (take (capacity answers) buffer) (writen answers buffer)
unfolding writen
writen-Refuses answers buffer h = write_loop-Refuses answers (length buffer) buffer [] h
