-- ===== src/Tests/Messages.antt =====
-- The messages of the object locator on concrete inputs, with types of one and of six bytes in the
-- place of Aleph's.
use gservices.Base.{
  true, ℕ, ◌≡◌, refl, List, [], ◌∷◌, ◌++◌, Option, none, some, done, arith, length, drop, take,
  replicate,
}
use gservices.Wire.{word}
use gservices.Readwrite.{segment, accepted}
use gservices.Readwrite.Stream.{stream}
use gservices.Message.{encode_entry, decode_entry, decode_exit, service_exit, header_size}
use gservices.Access.{AccessPoint}
use gservices.LocalAccess.{LocalLink}
use gservices.Reception.{ReceptionPoint}
use gservices.LocalReception.{Sockets, read_request, new_node}
use gservices.Object.{CType, IsCType}
use gservices.Object.Messages.{call_header}
use gservices.Object.Arrival.{invocation_header}
use gservices.LocalMessage.{AlephTypes}
use gservices.LocalMessage.Calls.{
  tgt_reg_mig_obj_call_msg, tgt_reg_mig_obj_call_msg_object_id,
  tgt_reg_mig_obj_call_msg_container_id, tgt_reg_mig_obj_call_msg_logical_timestamp,
  srv_invoke_reply_call_msg,
}
use gservices.LocalMessage.Transfer.{IsAlephTypes, tgt_reg_mig_obj_call_msg_reads}
use gservices.LocalMessage.Arrival.{Reply, reply_object, srv_invoke_reply_call_msg_arrives}
use gservices.RemoteMessage.{locreply_dead, locreply_success}
use gservices.RemoteMessage.Pings.{
  ping_request, locator_at, get_number, ping_reply, get_locator, get_reply_type,
}
use gservices.RemoteMessage.Requests.{
  IsRequest, Grows, add_locators, add_locator-Grows, ping_request_reads,
}
use gservices.RemoteMessage.Replies.{add_responses, ping_reply_reads}
use gservices.Tests.{strict, buffer, client, sockets, blocks, server}

abbrev byte_type : CType ℕ
byte_type = record {
  size = 1;
  align = 1;
  bytes = λ n. n ∷ [];
  value = λ bytes. elim bytes [ [] ↦ none | n ∷ _ ↦ some n ];
  fresh = λ bytes. bytes;
}

abbrev first_two : List ℕ → Option (ℕ × ℕ)
first_two (a ∷ b ∷ _) = some (a, b)
first_two _ = none

abbrev pair_type : CType (ℕ × ℕ)
pair_type = record {
  size = 6;
  align = 2;
  bytes = λ p. p.0 ∷ p.1 ∷ 0 ∷ 0 ∷ 0 ∷ 0 ∷ [];
  value = first_two;
  fresh = λ bytes. bytes;
}

abbrev types : AlephTypes
types = record {
  ObjectId = ℕ × ℕ;
  ContainerId = ℕ;
  SiteId = ℕ;
  Binding = ℕ × ℕ;
  Locator = ℕ × ℕ;
  MessageId = ℕ;
  LogicalTimestamp = ℕ;
  object_id = pair_type;
  container_id = byte_type;
  site_id = byte_type;
  binding = pair_type;
  locator = pair_type;
  message_id = byte_type;
  logical_timestamp = byte_type;
  invalid_site_id = 0;
}

byte_type-IsCType : IsCType byte_type
byte_type-IsCType = record { length-bytes = λ n. refl; value-bytes = λ n. refl }

pair_type-IsCType : IsCType pair_type
pair_type-IsCType = record { length-bytes = λ p. refl; value-bytes = λ p. refl }

types-IsAlephTypes : IsAlephTypes types
types-IsAlephTypes = record {
  object_id = pair_type-IsCType;
  container_id = byte_type-IsCType;
  site_id = byte_type-IsCType;
  binding = pair_type-IsCType;
  locator = pair_type-IsCType;
  message_id = byte_type-IsCType;
  logical_timestamp = byte_type-IsCType;
}

-- The object takes 24 bytes: the container's id one, the timestamp one, and none is padding.
tgt_reg_mig_obj_call_msg_reads_example :
    (msg : List ℕ) × (tgt_reg_mig_obj_call_msg types strict (6, 7) 8 9 (replicate 24 0) tt
      ≡ (done msg, tt))
    × (length msg ≡ 24)
    × (decode_entry msg ≡ some (call_header 5 (length msg), drop header_size msg))
    × (tgt_reg_mig_obj_call_msg_object_id types msg ≡ some (6, 7))
    × (tgt_reg_mig_obj_call_msg_container_id types msg ≡ some 8)
    × (tgt_reg_mig_obj_call_msg_logical_timestamp types msg ≡ some 9)
unfolding gservices.Object.sizeof gservices.Object.end_of
tgt_reg_mig_obj_call_msg_reads_example =
    tgt_reg_mig_obj_call_msg_reads types types-IsAlephTypes strict (6, 7) 8 9 (replicate 24 0)
      {S = Unit {0}} tt (omega arith) refl

-- A container that has registered SERVER_INVOKE_REPLY, on a socket that takes everything.
abbrev container : AccessPoint LocalLink
container = record client {
  link = record (client.link) { writes = accepted 99 ∷ [] };
  table = replicate 14 none ++ some (65 ∷ []) ∷ [];
}

-- The locator's socket 4 delivers the 32 bytes of the object, the reply, and a byte of the next
-- message.
abbrev locator : ReceptionPoint Sockets
locator = record server {
  link = record sockets {
    reads = λ fd.
        segment 1 (
          (0 ∷ 0 ∷ 0 ∷ 14 ∷ 0 ∷ 0 ∷ 0 ∷ 16 ∷ 0 ∷ 0 ∷ 0 ∷ 3 ∷ 0 ∷ 0 ∷ 0 ∷ [])
          ++ (5 ∷ 0 ∷ 6 ∷ 7 ∷ 0 ∷ 0 ∷ 0 ∷ 0 ∷ 8 ∷ 0 ∷ 0 ∷ 0 ∷ 3 ∷ 0 ∷ 0 ∷ 0 ∷ 1 ∷ 2 ∷ 3 ∷ 9 ∷ []))
        ∷ [];
  };
}

srv_invoke_reply_call_msg_arrives_example :
    (srv_invoke_reply_call_msg types strict 5 (6, 7) 8 3 (replicate 32 0) tt
      ≡ (done (reply_object types 5 (6, 7) 8 buffer (replicate 32 0)), tt))
    × (l : Sockets) × (read_request 4 (replicate 16 0) blocks locator ≡ (
      done (
        encode_entry (invocation_header 14 32 buffer),
        some (reply_object types 5 (6, 7) 8 buffer (replicate 32 0) ++ buffer),
      ),
      record locator { link = l; binding_list = new_node 4 blocks ∷ locator.binding_list },
    ))
    × (stream (l.reads 4) ≡ 9 ∷ [])
    × Reply types 5 (6, 7) 8 3 (reply_object types 5 (6, 7) 8 buffer (replicate 32 0) ++ buffer)
unfolding gservices.Object.sizeof gservices.Object.end_of gservices.Access.send_with_buffer
    gservices.Access.check_header gservices.LocalAccess.writen_f gservices.Readwrite.writen
    gservices.Message.decode_entry encode_entry word gservices.Wire.take_word
    gservices.Object.Messages.made gservices.Object.store_members gservices.Object.put
    gservices.Object.set_invocation_size
srv_invoke_reply_call_msg_arrives_example =
    srv_invoke_reply_call_msg_arrives types types-IsAlephTypes strict 5 (6, 7) 8 buffer
      (replicate 32 0) [] (9 ∷ []) container locator 4 (replicate 16 0) blocks (65 ∷ [])
      {S = Unit {0}} tt refl (omega arith) refl refl refl (omega arith) refl refl

-- A request for two locators, before the first is added.
abbrev two_places : List ℕ
two_places =
    (1 ∷ 0 ∷ 0 ∷ 0 ∷ 9 ∷ 0 ∷ 0 ∷ 0 ∷ 20 ∷ 0 ∷ 0 ∷ 0 ∷ 0 ∷ 0 ∷ 0 ∷ 0 ∷ [])
    ++ (2 ∷ 0 ∷ 0 ∷ 0 ∷ 0 ∷ 0 ∷ 0 ∷ 0 ∷ replicate 12 0)

two_places-IsRequest : IsRequest types pair_type-IsCType 2 [] two_places
unfolding encode_entry word
two_places-IsRequest = record {
  header = refl;
  counted = refl;
  actual = refl;
  bounded = omega arith;
  places_small = omega arith;
  small = omega arith;
  room = omega arith;
  held = λ i c e. absurd (cc);
}

add_locator-Grows_example : Grows types pair_type-IsCType true strict 2 [] (6, 7) two_places
add_locator-Grows_example =
    add_locator-Grows types pair_type-IsCType strict 2 [] two_places (6, 7) refl
      two_places-IsRequest

ping_request_reads_example :
    (object after : List ℕ) × (ping_request types strict 3 (replicate 42 0) tt ≡ (done object, tt))
    × (add_locators types pair_type-IsCType strict ((6, 7) ∷ (8, 9) ∷ []) object ≡ (done tt, after))
    × (locator_at types strict 1 after ≡ (done (8, 9), after))
    × (get_number types after ≡ (done 3, after))
    × (take header_size after ≡ encode_entry (call_header 9 42))
ping_request_reads_example =
    ping_request_reads types pair_type-IsCType strict 3 ((6, 7) ∷ (8, 9) ∷ []) (replicate 42 0) 1
      (8, 9) {S = Unit {0}} tt (omega arith) (omega arith) (omega arith) (omega arith) refl

ping_reply_reads_example :
    (object after : List ℕ) × (ping_reply types strict 2 (replicate 44 0) tt ≡ (done object, tt))
    × (add_responses types pair_type-IsCType strict
          (((6, 7), locreply_success) ∷ ((8, 9), locreply_dead) ∷ [])
          object
        ≡ (done tt, after))
    × (get_locator types strict 1 after ≡ (done (8, 9), after))
    × (get_reply_type types strict 1 after ≡ (done 3, after))
    × (get_number types after ≡ (done 2, after))
    × (take header_size after ≡ encode_entry (call_header 10 24))
ping_reply_reads_example =
    ping_reply_reads types pair_type-IsCType strict 2
      (((6, 7), locreply_success) ∷ ((8, 9), locreply_dead) ∷ []) (replicate 44 0) 1 (8, 9)
      locreply_dead {S = Unit {0}} tt (omega arith) (omega arith) (omega arith) (omega arith) refl
