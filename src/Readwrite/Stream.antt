-- ===== src/Readwrite/Stream.antt =====
-- What `readn` of include/local_readwrite.C hands over, however the bytes arrive.
use gservices.Base.{
  ℕ, zero, suc, ◌-◌, ◌≤◌, ◌<◌, ◌≡◌, refl, sym, List, [], ◌∷◌, ◌++◌, Option, none, some, false, inl,
  inr, arith, length, take, drop, ltb, Bool-cases, append_assoc, append-nil, length-append,
  take-append_le, drop-append_le, take-append_ge, drop-append_ge,
}
use gservices.Readwrite.{
  ret, minus_one, ReadAnswer, segment, closed, interrupted, failed, ReadResult, left_over,
  read_loop, readn,
}

-- The bytes that arrive before the connection ends.
abbrev pub stream : List ReadAnswer → List ℕ
stream [] = []
stream (segment b bs ∷ answers) = b ∷ bs ++ stream answers
stream (closed ∷ answers) = []
stream (interrupted ∷ answers) = stream answers
stream (failed ∷ answers) = []

-- What follows the last of these bytes.
abbrev pub ending : List ReadAnswer → Option ReadAnswer
ending [] = none
ending (segment b bs ∷ answers) = ending answers
ending (closed ∷ answers) = some closed
ending (interrupted ∷ answers) = ending answers
ending (failed ∷ answers) = some failed

stream-left_over :
    (bs : List ℕ) (answers : List ReadAnswer) → stream (left_over bs answers) ≡ bs ++ stream answers
stream-left_over [] answers = refl
stream-left_over (b ∷ bs) answers = refl

ending-left_over :
    (bs : List ℕ) (answers : List ReadAnswer) → ending (left_over bs answers) ≡ ending answers
ending-left_over [] answers = refl
ending-left_over (b ∷ bs) answers = refl

leb_of_not_ltb : (a b : ℕ) → ltb a b ≡ false → b ≤ a
leb_of_not_ltb a b h = ground arith

read_loop_delivers :
    (answers : List ReadAnswer) (n l : ℕ) (stored : List ℕ)
    → l ≤ length (stream answers)
    → (rest : List ReadAnswer) × (read_loop answers n l stored
        ≡ some (record { status = ret n; stored = stored ++ take l (stream answers); rest = rest }))
      × (stream rest ≡ drop l (stream answers))
      × (ending rest ≡ ending answers)
unfolding read_loop
read_loop_delivers answers n zero stored h =
    (answers, ground (arith, append-nil stored), refl, refl)
read_loop_delivers [] n (suc l) stored h = elim h [ ]
read_loop_delivers (closed ∷ answers) n (suc l) stored h = elim h [ ]
read_loop_delivers (failed ∷ answers) n (suc l) stored h = elim h [ ]
read_loop_delivers (interrupted ∷ answers) n (suc l) stored h =
    read_loop_delivers answers n (suc l) stored h
read_loop_delivers (segment b bs ∷ answers) n (suc l) stored h =
    elim (Bool-cases (ltb l (length bs))) [
      | inl more ↦ (
        left_over (drop l bs) answers,
        ground (arith, take-append_le l bs (stream answers)),
        ground (arith, stream-left_over (drop l bs) answers, drop-append_le l bs (stream answers)),
        ending-left_over (drop l bs) answers,
      )
      | inr less ↦
          let (rest, e, s, t) =
            read_loop_delivers answers n (l - length bs) (stored ++ b ∷ bs)
              (omega (arith, length-append bs (stream answers), leb_of_not_ltb _ _ less)) in
          (
            rest,
            ground (
              arith,
              e,
              take-append_ge l bs (stream answers),
              append_assoc stored (b ∷ bs) (take (l - length bs) (stream answers)),
            ),
            ground (arith, s, drop-append_ge l bs (stream answers)),
            t,
          )
    ]

-- With `n` bytes to come, `readn` returns `n`, stores the first `n` of them in order, and leaves
-- the others, and what follows them, for the next call: into however many segments the bytes are
-- split, and however often the call is interrupted.
pub readn_delivers :
    (answers : List ReadAnswer) (n : ℕ)
    → n ≤ length (stream answers)
    → (rest : List ReadAnswer) × (readn answers n
        ≡ some (record { status = ret n; stored = take n (stream answers); rest = rest }))
      × (stream rest ≡ drop n (stream answers))
      × (ending rest ≡ ending answers)
unfolding readn
readn_delivers answers n h = read_loop_delivers answers n n [] h

-- How a call ends that finds too few bytes: `count` of them, now `stored`.
abbrev pub Stops : Option ReadAnswer → ℕ → List ℕ → Option ReadResult → Type 0
Stops (some closed) count stored r =
    (rest : List ReadAnswer) × (r
      ≡ some (record { status = ret count; stored = stored; rest = closed ∷ rest }))
Stops (some failed) count stored r =
    (rest : List ReadAnswer) × (r
      ≡ some (record { status = minus_one; stored = stored; rest = rest }))
Stops _ count stored r = r ≡ none

Stops-eq :
    (e : Option ReadAnswer) {c c' : ℕ} {s s' : List ℕ} {r r' : Option ReadResult}
    → c' ≡ c
    → s' ≡ s
    → r' ≡ r
    → Stops e c s r
    → Stops e c' s' r'
Stops-eq e p q u h = rw (p, q, u) h

read_loop_continues :
    (b : ℕ) (bs : List ℕ) (answers : List ReadAnswer) (n l : ℕ) (stored : List ℕ)
    → length bs ≤ l
    → read_loop (segment b bs ∷ answers) n (suc l) stored
      ≡ read_loop answers n (l - length bs) (stored ++ b ∷ bs)
unfolding read_loop
read_loop_continues b bs answers n l stored h = ground arith

read_loop-Stops :
    (answers : List ReadAnswer) (n l : ℕ) (stored : List ℕ)
    → length (stream answers) < l
    → Stops
        (ending answers)
        (n - (l - length (stream answers)))
        (stored ++ stream answers)
        (read_loop answers n l stored)
unfolding read_loop
read_loop-Stops answers n zero stored h = elim h [ ]
read_loop-Stops [] n (suc l) stored h = refl
read_loop-Stops (closed ∷ answers) n (suc l) stored h = (answers, ground (arith, append-nil stored))
read_loop-Stops (failed ∷ answers) n (suc l) stored h = (answers, ground (arith, append-nil stored))
read_loop-Stops (interrupted ∷ answers) n (suc l) stored h =
    read_loop-Stops answers n (suc l) stored h
read_loop-Stops (segment b bs ∷ answers) n (suc l) stored h =
    let split = length-append bs (stream answers) in
    Stops-eq (ending answers) (omega (arith, split))
      (sym (append_assoc stored (b ∷ bs) (stream answers)))
      (read_loop_continues b bs answers n l stored (omega (arith, split)))
      (read_loop-Stops answers n (l - length bs) (stored ++ b ∷ bs) (omega (arith, split)))

-- With fewer than `n` bytes to come, `readn` stores them all, and then returns their number if
-- the file ends there, returns -1 if the call of `read` fails there, and waits otherwise.
pub readn-Stops :
    (answers : List ReadAnswer) (n : ℕ)
    → length (stream answers) < n
    → Stops (ending answers) (length (stream answers)) (stream answers) (readn answers n)
unfolding readn
readn-Stops answers n h =
    Stops-eq (ending answers) (omega arith) refl refl (read_loop-Stops answers n n [] h)
