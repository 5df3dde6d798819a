-- ===== src/LocalMessage/Transfer.antt =====
-- The members of the messages of include/local_message_header.H, from the constructors to the
-- `get_` functions of the receiver.
use gservices.Base.{
  ℕ, ◌^◌, ◌≡◌, ◌≤◌, ◌<◌, refl, sym, ap, ◌∙◌, List, [], ◌∷◌, some, Aleph, done, arith, length, drop,
}
use gservices.Wire.{word, take_word, word_value, length-word}
use gservices.Message.{header_size, decode_entry, decode_exit, service_exit}
use gservices.Object.{
  IsCType, IsStored, stored, Shape, sizeof, word_type, sized_message, call_message,
}
use gservices.Object.Members.{Fit}
use gservices.Object.Messages.{
  call_header, Constructs, made, sized_message_lem, decode_entry-made, member-made, length-made,
}
use gservices.Object.Answers.{Answers, decode_exit-return_message, member-return_message}
use gservices.LocalMessage.{
  AlephTypes, LocatorCallEntryCode, entry_value, LocatorCallExitCode, exit_value, ReceptionType,
  reception_value,
}
use gservices.LocalMessage.Calls.{
  tgt_reg_mig_obj_call_msg, tgt_reg_mig_obj_call_msg_shapes, tgt_reg_mig_obj_call_msg_object_id,
  tgt_reg_mig_obj_call_msg_container_id, tgt_reg_mig_obj_call_msg_logical_timestamp,
}
use gservices.LocalMessage.Returns.{
  locator_super_receive_ret_msg, locator_super_receive_ret_msg_shapes,
  locator_super_receive_ret_msg_message_id, locator_super_receive_ret_msg_binding,
  locator_super_receive_ret_msg_message_size, locator_super_receive_ret_msg_reception_type,
}

-- Every type of Aleph's is one that `memcpy` may copy.
pub record IsAlephTypes (t : AlephTypes) : Type 0 where
  pub object_id : IsCType (t.object_id)
  pub container_id : IsCType (t.container_id)
  pub site_id : IsCType (t.site_id)
  pub binding : IsCType (t.binding)
  pub locator : IsCType (t.locator)
  pub message_id : IsCType (t.message_id)
  pub logical_timestamp : IsCType (t.logical_timestamp)

-- A word is read back as itself.
pub word_type-IsStored : (n : ℕ) → n < 2 ^ 32 → IsStored word_type n
unfolding word take_word
word_type-IsStored n small = record {
  length-bytes = refl;
  value-bytes = ap some (word_value n small);
}

pub entry_value_lt : (code : LocatorCallEntryCode) → entry_value code < 2 ^ 31
entry_value_lt code = ground arith

pub exit_value_lt : (status : LocatorCallExitCode) → exit_value status < 2 ^ 32
exit_value_lt status = ground arith

-- A message of a class of requests, made in memory of exactly the size of the class.
pub call_message-made :
    (k : Aleph) (code : ℕ) (ss : List Shape) (cs : List (List ℕ)) (memory : List ℕ) {S : Type 0}
    (s : S)
    → code < 2 ^ 31
    → sizeof ss < 2 ^ 32
    → Fit ss cs
    → length memory ≡ sizeof ss
    → (call_message k code ss cs memory s ≡ (done (made code (length memory) ss cs memory), s))
      × Constructs code (length memory) ss cs memory
unfolding call_message
call_message-made k code ss cs memory s small total fit whole =
    let ready : Constructs code (length memory) ss cs memory = record {
      code_small = small;
      size_small = omega arith;
      fit = fit;
      holds = omega arith;
      room = omega arith;
    } in
    let run = sized_message_lem code (length memory) ss cs memory ready k s in
    (ap (λ (n : ℕ). sized_message k code n ss cs memory s) (sym whole) ∙ run, ready)

module _ (t : AlephTypes) (laws : IsAlephTypes t) where
  -- A request for the registration of an object that has migrated, constructed in memory of exactly
  -- its size, is returned, has that size, is headed by DEMSERV_SEND, code 5 and the number of its
  -- bytes behind the header, and hands back the object, the container and the timestamp that it was
  -- given.
  pub tgt_reg_mig_obj_call_msg_reads :
      (k : Aleph) (obj_id : t.ObjectId) (cnt_id : t.ContainerId) (timestamp : t.LogicalTimestamp)
      (memory : List ℕ) {S : Type 0} (s : S)
      → sizeof (tgt_reg_mig_obj_call_msg_shapes t) < 2 ^ 32
      → length memory ≡ sizeof (tgt_reg_mig_obj_call_msg_shapes t)
      → (msg : List ℕ) × (tgt_reg_mig_obj_call_msg t k obj_id cnt_id timestamp memory s
          ≡ (done msg, s))
        × (length msg ≡ length memory)
        × (decode_entry msg ≡ some (call_header 5 (length msg), drop header_size msg))
        × (tgt_reg_mig_obj_call_msg_object_id t msg ≡ some obj_id)
        × (tgt_reg_mig_obj_call_msg_container_id t msg ≡ some cnt_id)
        × (tgt_reg_mig_obj_call_msg_logical_timestamp t msg ≡ some timestamp)
  unfolding tgt_reg_mig_obj_call_msg tgt_reg_mig_obj_call_msg_object_id
      tgt_reg_mig_obj_call_msg_container_id tgt_reg_mig_obj_call_msg_logical_timestamp call_message
  tgt_reg_mig_obj_call_msg_reads k obj_id cnt_id timestamp memory s small whole =
      let (run, ready) =
        call_message-made k 5 (tgt_reg_mig_obj_call_msg_shapes t)
          (t.object_id.bytes obj_id
            ∷ t.container_id.bytes cnt_id
            ∷ t.logical_timestamp.bytes timestamp
            ∷ [])
          memory s (omega arith) small
          (
            laws.object_id.length-bytes obj_id,
            (
              laws.container_id.length-bytes cnt_id,
              (laws.logical_timestamp.length-bytes timestamp, tt),
            ),
          )
          whole in
      let size = length-made _ _ _ _ memory ready in
      (
        made _ _ _ _ memory,
        run,
        size,
        rw size (decode_entry-made _ _ _ _ memory ready),
        member-made _ _ _ _ memory ready t.object_id 0 obj_id (stored laws.object_id obj_id) refl,
        member-made _ _ _ _ memory ready t.container_id 1 cnt_id (stored laws.container_id cnt_id)
            refl,
        member-made _ _ _ _ memory ready t.logical_timestamp 2 timestamp
            (stored laws.logical_timestamp timestamp) refl,
      )

  -- The answer to a container that waits for messages, made in memory that holds it, is headed by
  -- the response of a service with the status, and hands back the message's id, the binding, the
  -- size and the type of the reception that it was given.
  pub locator_super_receive_ret_msg_reads :
      (status : LocatorCallExitCode) (msg_id : t.MessageId) (bind : t.Binding) (n : ℕ)
      (type : ReceptionType) (memory : List ℕ)
      → n < 2 ^ 32
      → sizeof (locator_super_receive_ret_msg_shapes t) ≤ length memory
      → (decode_exit (locator_super_receive_ret_msg t status msg_id bind n type memory)
          ≡ some (
            service_exit (exit_value status),
            drop header_size (locator_super_receive_ret_msg t status msg_id bind n type memory),
          ))
        × (locator_super_receive_ret_msg_message_id t
              (locator_super_receive_ret_msg t status msg_id bind n type memory)
            ≡ some msg_id)
        × (locator_super_receive_ret_msg_binding t
              (locator_super_receive_ret_msg t status msg_id bind n type memory)
            ≡ some bind)
        × (locator_super_receive_ret_msg_message_size t
              (locator_super_receive_ret_msg t status msg_id bind n type memory)
            ≡ some n)
        × (locator_super_receive_ret_msg_reception_type t
              (locator_super_receive_ret_msg t status msg_id bind n type memory)
            ≡ some (reception_value type))
  unfolding locator_super_receive_ret_msg locator_super_receive_ret_msg_message_id
      locator_super_receive_ret_msg_binding locator_super_receive_ret_msg_message_size
      locator_super_receive_ret_msg_reception_type
  locator_super_receive_ret_msg_reads status msg_id bind n type memory small room =
      let cs : List (List ℕ) =
        t.message_id.bytes msg_id
        ∷ t.binding.bytes bind
        ∷ word n
        ∷ word (reception_value type)
        ∷ [] in
      let typed : reception_value type < 2 ^ 32 = ground arith in
      let ready : Answers (exit_value status) (locator_super_receive_ret_msg_shapes t) cs memory =
        record {
          status_small = exit_value_lt status;
          fit = (
            laws.message_id.length-bytes msg_id,
            (
              laws.binding.length-bytes bind,
              (length-word n, (length-word (reception_value type), tt)),
            ),
          );
          room = room;
        } in
      (
        decode_exit-return_message _ _ cs memory ready,
        member-return_message _ _ cs memory ready t.message_id 0 msg_id
            (stored laws.message_id msg_id) refl,
        member-return_message _ _ cs memory ready t.binding 1 bind (stored laws.binding bind) refl,
        member-return_message _ _ cs memory ready word_type 2 n (word_type-IsStored n small) refl,
        member-return_message _ _ cs memory ready word_type 3 (reception_value type)
            (word_type-IsStored (reception_value type) typed) refl,
      )
