-- ===== src/LocalMessage/Calls.antt =====
-- The requests of include/local_message_header.H: classes derived from Msg_Entry_Header. A
-- constructor is given the memory of the object last; a `get_` function reads the object's memory.
use gservices.Base.{ℕ, List, [], ◌∷◌, Option, M, Aleph, pure, ◌>>=◌}
use gservices.Object.{Shape, shape, word_type, call_message, member, set_invocation_size}
use gservices.LocalMessage.Params.{param_cnt_msg, param_obj_msg, param_bind_msg}
use gservices.LocalMessage.{
  AlephTypes, entry_value, get_site_id, register_container, unregister_container, register_object,
  unregister_object, target_reg_mig_object, source_unreg_mig_object, strong_locate, weak_locate,
  implicit_locate, client_invoke_send, locator_super_receive, server_invoke_reply,
  test_object_location, ping_n_objects, CacheUpdatePolicy, policy_value,
}

module _ (t : AlephTypes) where
  -- Site_Id_CallMsg
  abbrev pub site_id_call_msg_shapes : List Shape
  site_id_call_msg_shapes = []

  unfoldable pub site_id_call_msg : Aleph → List ℕ → {S : Type 0} → M S (List ℕ)
  site_id_call_msg k memory =
      call_message k (entry_value get_site_id) site_id_call_msg_shapes ([]) memory

  -- Register_Cnt_CallMsg
  abbrev pub register_cnt_call_msg_shapes : List Shape
  register_cnt_call_msg_shapes = shape word_type ∷ []

  unfoldable pub register_cnt_call_msg : Aleph → ℕ → List ℕ → {S : Type 0} → M S (List ℕ)
  register_cnt_call_msg k n memory =
      call_message k (entry_value register_container) register_cnt_call_msg_shapes
        (word_type.bytes n ∷ []) memory

  unfoldable pub register_cnt_call_msg_pid : List ℕ → Option ℕ
  register_cnt_call_msg_pid = member word_type register_cnt_call_msg_shapes 0

  -- Clt_Invoke_Send_CallMsg
  abbrev pub clt_invoke_send_call_msg_shapes : List Shape
  clt_invoke_send_call_msg_shapes = shape t.binding ∷ shape word_type ∷ []

  unfoldable pub clt_invoke_send_call_msg :
      Aleph → t.Binding → ℕ → List ℕ → {S : Type 0} → M S (List ℕ)
  clt_invoke_send_call_msg k bind n memory = do
    message ←
        call_message k (entry_value client_invoke_send) clt_invoke_send_call_msg_shapes
          (t.binding.bytes bind ∷ word_type.bytes n ∷ []) memory
    pure (set_invocation_size message n)

  unfoldable pub clt_invoke_send_call_msg_request_size : List ℕ → Option ℕ
  clt_invoke_send_call_msg_request_size = member word_type clt_invoke_send_call_msg_shapes 1

  unfoldable pub clt_invoke_send_call_msg_binding : List ℕ → Option t.Binding
  clt_invoke_send_call_msg_binding = member t.binding clt_invoke_send_call_msg_shapes 0

  -- Locator_Super_Receive_CallMsg
  abbrev pub locator_super_receive_call_msg_shapes : List Shape
  locator_super_receive_call_msg_shapes =
      shape word_type ∷ shape t.binding ∷ shape t.container_id ∷ []

  unfoldable pub locator_super_receive_call_msg :
      Aleph → ℕ → t.Binding → t.ContainerId → List ℕ → {S : Type 0} → M S (List ℕ)
  locator_super_receive_call_msg k n bind cnt_id memory =
      call_message k (entry_value locator_super_receive) locator_super_receive_call_msg_shapes
        (word_type.bytes n ∷ t.binding.bytes bind ∷ t.container_id.bytes cnt_id ∷ []) memory

  unfoldable pub locator_super_receive_call_msg_message_size : List ℕ → Option ℕ
  locator_super_receive_call_msg_message_size =
      member word_type locator_super_receive_call_msg_shapes 0

  unfoldable pub locator_super_receive_call_msg_binding : List ℕ → Option t.Binding
  locator_super_receive_call_msg_binding = member t.binding locator_super_receive_call_msg_shapes 1

  unfoldable pub locator_super_receive_call_msg_receiving_container_id :
      List ℕ → Option t.ContainerId
  locator_super_receive_call_msg_receiving_container_id =
      member t.container_id locator_super_receive_call_msg_shapes 2

  -- Srv_Invoke_Reply_CallMsg
  abbrev pub srv_invoke_reply_call_msg_shapes : List Shape
  srv_invoke_reply_call_msg_shapes =
      shape t.message_id ∷ shape t.binding ∷ shape t.container_id ∷ shape word_type ∷ []

  unfoldable pub srv_invoke_reply_call_msg :
      Aleph → t.MessageId → t.Binding → t.ContainerId → ℕ → List ℕ → {S : Type 0} → M S (List ℕ)
  srv_invoke_reply_call_msg k msg_id bind cnt_id n memory = do
    message ←
        call_message k (entry_value server_invoke_reply) srv_invoke_reply_call_msg_shapes
          (t.message_id.bytes msg_id
            ∷ t.binding.bytes bind
            ∷ t.container_id.bytes cnt_id
            ∷ word_type.bytes n
            ∷ [])
          memory
    pure (set_invocation_size message n)

  unfoldable pub srv_invoke_reply_call_msg_message_id : List ℕ → Option t.MessageId
  srv_invoke_reply_call_msg_message_id = member t.message_id srv_invoke_reply_call_msg_shapes 0

  unfoldable pub srv_invoke_reply_call_msg_binding : List ℕ → Option t.Binding
  srv_invoke_reply_call_msg_binding = member t.binding srv_invoke_reply_call_msg_shapes 1

  unfoldable pub srv_invoke_reply_call_msg_reply_size : List ℕ → Option ℕ
  srv_invoke_reply_call_msg_reply_size = member word_type srv_invoke_reply_call_msg_shapes 3

  unfoldable pub srv_invoke_reply_call_msg_replying_container_id : List ℕ → Option t.ContainerId
  srv_invoke_reply_call_msg_replying_container_id =
      member t.container_id srv_invoke_reply_call_msg_shapes 2

  -- Src_Unreg_Mig_Obj_CallMsg
  abbrev pub src_unreg_mig_obj_call_msg_shapes : List Shape
  src_unreg_mig_obj_call_msg_shapes = shape t.object_id ∷ shape t.site_id ∷ []

  unfoldable pub src_unreg_mig_obj_call_msg :
      Aleph → t.ObjectId → t.SiteId → List ℕ → {S : Type 0} → M S (List ℕ)
  src_unreg_mig_obj_call_msg k obj_id site memory =
      call_message k (entry_value source_unreg_mig_object) src_unreg_mig_obj_call_msg_shapes
        (t.object_id.bytes obj_id ∷ t.site_id.bytes site ∷ []) memory

  unfoldable pub src_unreg_mig_obj_call_msg_object_id : List ℕ → Option t.ObjectId
  src_unreg_mig_obj_call_msg_object_id = member t.object_id src_unreg_mig_obj_call_msg_shapes 0

  unfoldable pub src_unreg_mig_obj_call_msg_tgt_site_id : List ℕ → Option t.SiteId
  src_unreg_mig_obj_call_msg_tgt_site_id = member t.site_id src_unreg_mig_obj_call_msg_shapes 1

  -- Tgt_Reg_Mig_Obj_CallMsg
  abbrev pub tgt_reg_mig_obj_call_msg_shapes : List Shape
  tgt_reg_mig_obj_call_msg_shapes =
      shape t.object_id ∷ shape t.container_id ∷ shape t.logical_timestamp ∷ []

  unfoldable pub tgt_reg_mig_obj_call_msg :
      Aleph → t.ObjectId → t.ContainerId → t.LogicalTimestamp → List ℕ → {S : Type 0} → M S (List ℕ)
  tgt_reg_mig_obj_call_msg k obj_id cnt_id timestamp memory =
      call_message k (entry_value target_reg_mig_object) tgt_reg_mig_obj_call_msg_shapes
        (t.object_id.bytes obj_id
          ∷ t.container_id.bytes cnt_id
          ∷ t.logical_timestamp.bytes timestamp
          ∷ [])
        memory

  unfoldable pub tgt_reg_mig_obj_call_msg_object_id : List ℕ → Option t.ObjectId
  tgt_reg_mig_obj_call_msg_object_id = member t.object_id tgt_reg_mig_obj_call_msg_shapes 0

  unfoldable pub tgt_reg_mig_obj_call_msg_container_id : List ℕ → Option t.ContainerId
  tgt_reg_mig_obj_call_msg_container_id = member t.container_id tgt_reg_mig_obj_call_msg_shapes 1

  unfoldable pub tgt_reg_mig_obj_call_msg_logical_timestamp : List ℕ → Option t.LogicalTimestamp
  tgt_reg_mig_obj_call_msg_logical_timestamp =
      member t.logical_timestamp tgt_reg_mig_obj_call_msg_shapes 2

  -- Test_Object_Location_CallMsg
  abbrev pub test_object_location_call_msg_shapes : List Shape
  test_object_location_call_msg_shapes = shape t.locator ∷ []

  unfoldable pub test_object_location_call_msg :
      Aleph → t.Locator → List ℕ → {S : Type 0} → M S (List ℕ)
  test_object_location_call_msg k loc memory =
      call_message k (entry_value test_object_location) test_object_location_call_msg_shapes
        (t.locator.bytes loc ∷ []) memory

  unfoldable pub test_object_location_call_msg_locator : List ℕ → Option t.Locator
  test_object_location_call_msg_locator = member t.locator test_object_location_call_msg_shapes 0

  -- Ping_N_Objects_CallMsg
  abbrev pub ping_n_objects_call_msg_shapes : List Shape
  ping_n_objects_call_msg_shapes = shape word_type ∷ shape word_type ∷ []

  unfoldable pub ping_n_objects_call_msg :
      Aleph → ℕ → CacheUpdatePolicy → List ℕ → {S : Type 0} → M S (List ℕ)
  ping_n_objects_call_msg k n0 n1 memory =
      call_message k (entry_value ping_n_objects) ping_n_objects_call_msg_shapes
        (word_type.bytes n0 ∷ word_type.bytes (policy_value n1) ∷ []) memory

  unfoldable pub ping_n_objects_call_msg_number_of_objects : List ℕ → Option ℕ
  ping_n_objects_call_msg_number_of_objects = member word_type ping_n_objects_call_msg_shapes 0

  unfoldable pub ping_n_objects_call_msg_policy : List ℕ → Option ℕ
  ping_n_objects_call_msg_policy = member word_type ping_n_objects_call_msg_shapes 1

  -- The classes derived from those with a service as argument.
  unfoldable pub unregister_cnt_call_msg :
      Aleph → t.ContainerId → List ℕ → {S : Type 0} → M S (List ℕ)
  unfolding param_cnt_msg
  unregister_cnt_call_msg k cnt_id memory = param_cnt_msg t k unregister_container cnt_id memory

  unfoldable pub weak_locate_call_msg : Aleph → t.ObjectId → List ℕ → {S : Type 0} → M S (List ℕ)
  unfolding param_obj_msg
  weak_locate_call_msg k obj_id memory = param_obj_msg t k weak_locate obj_id memory

  unfoldable pub strong_locate_call_msg : Aleph → t.ObjectId → List ℕ → {S : Type 0} → M S (List ℕ)
  unfolding param_obj_msg
  strong_locate_call_msg k obj_id memory = param_obj_msg t k strong_locate obj_id memory

  unfoldable pub implicit_locate_call_msg : Aleph → t.Binding → List ℕ → {S : Type 0} → M S (List ℕ)
  unfolding param_bind_msg
  implicit_locate_call_msg k bind memory = param_bind_msg t k implicit_locate bind memory

  unfoldable pub register_obj_call_msg :
      Aleph → t.ContainerId → List ℕ → {S : Type 0} → M S (List ℕ)
  unfolding param_cnt_msg
  register_obj_call_msg k cnt_id memory = param_cnt_msg t k register_object cnt_id memory

  unfoldable pub unregister_obj_call_msg : Aleph → t.ObjectId → List ℕ → {S : Type 0} → M S (List ℕ)
  unfolding param_obj_msg
  unregister_obj_call_msg k obj_id memory = param_obj_msg t k unregister_object obj_id memory
