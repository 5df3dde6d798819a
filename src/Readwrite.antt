-- ===== src/Readwrite.antt =====
-- include/local_readwrite.C: the loops that read and write exactly n bytes of a socket.
-- What the kernel answers to the successive system calls is given as a list, one entry to a call.
pub mod Stream
pub mod Output
use gservices.Base.{
  ℕ, zero, suc, ◌-◌, List, [], ◌∷◌, ◌++◌, Option, none, some, Bool, true, false, length, take, drop,
  ltb,
}

-- A value of type ssize_t.
pub data Ssize : Type 0 where
  ret : ℕ → Ssize
  minus_one : Ssize

-- What `read` finds: one byte or more that have arrived (it takes the first `nleft` of them at
-- most), the end of the file, -1 with EINTR, or -1 with another errno.
pub data ReadAnswer : Type 0 where
  segment : ℕ → List ℕ → ReadAnswer
  closed interrupted failed : ReadAnswer

-- The status, the bytes stored from `vptr` on, and the answers that are left.
pub record ReadResult : Type 0 where
  pub status : Ssize
  pub stored : List ℕ
  pub rest : List ReadAnswer

-- What `read` leaves of a segment is found by the next call.
abbrev pub left_over : List ℕ → List ReadAnswer → List ReadAnswer
left_over [] answers = answers
left_over (b ∷ bs) answers = segment b bs ∷ answers

-- The `while (nleft > 0)` of `readn`. No result: the last call of `read` does not return.
pub read_loop : List ReadAnswer → ℕ → ℕ → List ℕ → Option ReadResult
read_loop answers n zero stored =
    some (record { status = ret (n - 0); stored = stored; rest = answers })
read_loop [] n (suc l) stored = none
read_loop (closed ∷ answers) n (suc l) stored =
    some (record { status = ret (n - suc l); stored = stored; rest = closed ∷ answers })
read_loop (interrupted ∷ answers) n (suc l) stored = read_loop answers n (suc l) stored
read_loop (failed ∷ answers) n (suc l) stored =
    some (record { status = minus_one; stored = stored; rest = answers })
read_loop (segment b bs ∷ answers) n (suc l) stored = elim (ltb l (length bs)) [
  | true ↦ some (record {
    status = ret (n - 0);
    stored = stored ++ b ∷ take l bs;
    rest = left_over (drop l bs) answers;
  })
  | false ↦ read_loop answers n (l - length bs) (stored ++ b ∷ bs)
]

unfoldable pub readn : List ReadAnswer → ℕ → Option ReadResult
unfolding read_loop
readn answers n = read_loop answers n n []

-- What `write` returns: one byte more than the number given, cut to `nleft`; or 0 or -1, with
-- `true` if errno is EINTR at that moment.
pub data WriteAnswer : Type 0 where
  accepted : ℕ → WriteAnswer
  refused : Bool → WriteAnswer

pub record WriteResult : Type 0 where
  pub status : Ssize
  pub sent : List ℕ
  pub rest : List WriteAnswer

-- The `while (nleft > 0)` of `writen`, over the bytes from `ptr` on.
pub write_loop : List WriteAnswer → ℕ → List ℕ → List ℕ → Option WriteResult
write_loop answers n [] sent = some (record { status = ret n; sent = sent; rest = answers })
write_loop [] n (b ∷ bs) sent = none
write_loop (refused true ∷ answers) n (b ∷ bs) sent = write_loop answers n (b ∷ bs) sent
write_loop (refused false ∷ answers) n (b ∷ bs) sent =
    some (record { status = minus_one; sent = sent; rest = answers })
write_loop (accepted k ∷ answers) n (b ∷ bs) sent =
    write_loop answers n (drop k bs) (sent ++ b ∷ take k bs)

unfoldable pub writen : List WriteAnswer → List ℕ → Option WriteResult
unfolding write_loop
writen answers buffer = write_loop answers (length buffer) buffer []
