-- ===== src/Object/Answers.antt =====
-- Answers constructed in memory: their headers and their members.
use gservices.Base.{ℕ, ◌^◌, ◌≡◌, ◌≤◌, ◌<◌, ap, ◌∙◌, List, some, arith, length, drop, get_elem?}
use gservices.Message.{header_size, service_exit, encode_exit, decode_exit}
use gservices.Message.Layout.{decode_exit-encode_exit, length-encode_exit}
use gservices.Object.{CType, IsStored, Shape, sizeof, member, return_message}
use gservices.Object.Members.{Fit, sizeof_ge, end_of_ge, member-store_members}
use gservices.Object.Messages.{length-headed, header_kept}

-- The status is a word, the arguments have the members' sizes, and the memory holds the object.
pub record Answers (status : ℕ) (ss : List Shape) (cs : List (List ℕ)) (memory : List ℕ)
    : Type 0 where
  pub status_small : status < 2 ^ 32
  pub fit : Fit ss cs
  pub room : sizeof ss ≤ length memory

module _ (status : ℕ) (ss : List Shape) (cs : List (List ℕ)) (memory : List ℕ)
    (ready : Answers status ss cs memory) where
  pub decode_exit-return_message :
      decode_exit (return_message status ss cs memory)
      ≡ some (service_exit status, drop header_size (return_message status ss cs memory))
  unfolding return_message
  decode_exit-return_message =
      let room = ready.room in
      let small = ready.status_small in
      let answer : List ℕ = return_message status ss cs memory in
      ap decode_exit (
        header_kept (encode_exit (service_exit status)) ss cs memory
          (length-encode_exit (service_exit status)) ready.fit (omega (arith, sizeof_ge ss)))
      ∙ decode_exit-encode_exit (service_exit status) (drop header_size answer) (omega arith)

  pub member-return_message :
      {A : Type 0} (t : CType A) (i : ℕ) (a : A)
      → IsStored t a
      → get_elem? cs i ≡ some (t.bytes a)
      → member t ss i (return_message status ss cs memory) ≡ some a
  unfolding return_message
  member-return_message t i a lawful there =
      let room = ready.room in
      let below = sizeof_ge ss in
      let above = end_of_ge header_size ss in
      let same =
        length-headed (encode_exit (service_exit status)) memory
          (length-encode_exit (service_exit status)) (omega arith) in
      member-store_members t ss cs _ i a lawful ready.fit (omega arith) there
