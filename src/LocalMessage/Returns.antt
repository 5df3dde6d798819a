-- ===== src/LocalMessage/Returns.antt =====
-- The answers of include/local_message_header.H: classes derived from Msg_Exit_Header. A
-- constructor is given the memory of the object last; an `empty_` constructor takes no other
-- argument.
use gservices.Base.{ℕ, List, [], ◌∷◌, Option}
use gservices.Object.{
  Shape, shape, word_type, return_message, fresh_message, member, put, offset_of,
}
use gservices.Message.{header_size}
use gservices.LocalMessage.{
  AlephTypes, LocatorCallExitCode, exit_value, locexit_invalid, ReceptionType, reception_value,
}

module _ (t : AlephTypes) where
  -- Site_Id_RetMsg
  abbrev pub site_id_ret_msg_shapes : List Shape
  site_id_ret_msg_shapes = shape t.site_id ∷ []

  unfoldable pub site_id_ret_msg : LocatorCallExitCode → t.SiteId → List ℕ → List ℕ
  site_id_ret_msg status site memory =
      return_message (exit_value status) site_id_ret_msg_shapes (t.site_id.bytes site ∷ []) memory

  unfoldable pub empty_site_id_ret_msg : List ℕ → List ℕ
  empty_site_id_ret_msg memory =
      return_message (exit_value locexit_invalid) site_id_ret_msg_shapes
        (t.site_id.bytes t.invalid_site_id ∷ []) memory

  unfoldable pub site_id_ret_msg_site_id : List ℕ → Option t.SiteId
  site_id_ret_msg_site_id = member t.site_id site_id_ret_msg_shapes 0

  -- Register_Cnt_RetMsg
  abbrev pub register_cnt_ret_msg_shapes : List Shape
  register_cnt_ret_msg_shapes = shape t.container_id ∷ []

  unfoldable pub register_cnt_ret_msg : LocatorCallExitCode → t.ContainerId → List ℕ → List ℕ
  register_cnt_ret_msg status cnt_id memory =
      return_message (exit_value status) register_cnt_ret_msg_shapes
        (t.container_id.bytes cnt_id ∷ []) memory

  unfoldable pub empty_register_cnt_ret_msg : List ℕ → List ℕ
  empty_register_cnt_ret_msg memory =
      fresh_message (exit_value locexit_invalid) register_cnt_ret_msg_shapes memory

  unfoldable pub register_cnt_ret_msg_container_id : List ℕ → Option t.ContainerId
  register_cnt_ret_msg_container_id = member t.container_id register_cnt_ret_msg_shapes 0

  -- Param_Loc_Exit_Msg
  abbrev pub param_loc_exit_msg_shapes : List Shape
  param_loc_exit_msg_shapes = shape t.locator ∷ []

  unfoldable pub param_loc_exit_msg : LocatorCallExitCode → t.Locator → List ℕ → List ℕ
  param_loc_exit_msg status loc memory =
      return_message (exit_value status) param_loc_exit_msg_shapes (t.locator.bytes loc ∷ []) memory

  unfoldable pub empty_param_loc_exit_msg : List ℕ → List ℕ
  empty_param_loc_exit_msg memory =
      fresh_message (exit_value locexit_invalid) param_loc_exit_msg_shapes memory

  unfoldable pub param_loc_exit_msg_locator : List ℕ → Option t.Locator
  param_loc_exit_msg_locator = member t.locator param_loc_exit_msg_shapes 0

  -- Param_Obj_Exit_Msg
  abbrev pub param_obj_exit_msg_shapes : List Shape
  param_obj_exit_msg_shapes = shape t.object_id ∷ []

  unfoldable pub param_obj_exit_msg : LocatorCallExitCode → t.ObjectId → List ℕ → List ℕ
  param_obj_exit_msg status obj_id memory =
      return_message (exit_value status) param_obj_exit_msg_shapes (t.object_id.bytes obj_id ∷ [])
        memory

  unfoldable pub empty_param_obj_exit_msg : List ℕ → List ℕ
  empty_param_obj_exit_msg memory =
      fresh_message (exit_value locexit_invalid) param_obj_exit_msg_shapes memory

  unfoldable pub param_obj_exit_msg_object_id : List ℕ → Option t.ObjectId
  param_obj_exit_msg_object_id = member t.object_id param_obj_exit_msg_shapes 0

  -- Clt_Invoke_Send_RetMsg
  abbrev pub clt_invoke_send_ret_msg_shapes : List Shape
  clt_invoke_send_ret_msg_shapes = shape t.message_id ∷ shape t.locator ∷ []

  unfoldable pub clt_invoke_send_ret_msg :
      LocatorCallExitCode → t.MessageId → t.Locator → List ℕ → List ℕ
  clt_invoke_send_ret_msg status msg_id loc memory =
      return_message (exit_value status) clt_invoke_send_ret_msg_shapes
        (t.message_id.bytes msg_id ∷ t.locator.bytes loc ∷ []) memory

  unfoldable pub empty_clt_invoke_send_ret_msg : List ℕ → List ℕ
  empty_clt_invoke_send_ret_msg memory =
      fresh_message (exit_value locexit_invalid) clt_invoke_send_ret_msg_shapes memory

  unfoldable pub clt_invoke_send_ret_msg_message_id : List ℕ → Option t.MessageId
  clt_invoke_send_ret_msg_message_id = member t.message_id clt_invoke_send_ret_msg_shapes 0

  unfoldable pub clt_invoke_send_ret_msg_locator : List ℕ → Option t.Locator
  clt_invoke_send_ret_msg_locator = member t.locator clt_invoke_send_ret_msg_shapes 1

  -- Locator_Super_Receive_RetMsg
  abbrev pub locator_super_receive_ret_msg_shapes : List Shape
  locator_super_receive_ret_msg_shapes =
      shape t.message_id ∷ shape t.binding ∷ shape word_type ∷ shape word_type ∷ []

  unfoldable pub locator_super_receive_ret_msg :
      LocatorCallExitCode → t.MessageId → t.Binding → ℕ → ReceptionType → List ℕ → List ℕ
  locator_super_receive_ret_msg status msg_id bind n2 n3 memory =
      return_message (exit_value status) locator_super_receive_ret_msg_shapes
        (t.message_id.bytes msg_id
          ∷ t.binding.bytes bind
          ∷ word_type.bytes n2
          ∷ word_type.bytes (reception_value n3)
          ∷ [])
        memory

  unfoldable pub empty_locator_super_receive_ret_msg : List ℕ → List ℕ
  empty_locator_super_receive_ret_msg memory =
      fresh_message (exit_value locexit_invalid) locator_super_receive_ret_msg_shapes memory

  unfoldable pub locator_super_receive_ret_msg_message_id : List ℕ → Option t.MessageId
  locator_super_receive_ret_msg_message_id =
      member t.message_id locator_super_receive_ret_msg_shapes 0

  unfoldable pub locator_super_receive_ret_msg_message_size : List ℕ → Option ℕ
  locator_super_receive_ret_msg_message_size =
      member word_type locator_super_receive_ret_msg_shapes 2

  unfoldable pub locator_super_receive_ret_msg_binding : List ℕ → Option t.Binding
  locator_super_receive_ret_msg_binding = member t.binding locator_super_receive_ret_msg_shapes 1

  unfoldable pub locator_super_receive_ret_msg_reception_type : List ℕ → Option ℕ
  locator_super_receive_ret_msg_reception_type =
      member word_type locator_super_receive_ret_msg_shapes 3

  -- Test_Object_Location_RetMsg
  abbrev pub test_object_location_ret_msg_shapes : List Shape
  test_object_location_ret_msg_shapes = shape t.locator ∷ []

  unfoldable pub test_object_location_ret_msg : LocatorCallExitCode → t.Locator → List ℕ → List ℕ
  test_object_location_ret_msg status loc memory =
      return_message (exit_value status) test_object_location_ret_msg_shapes
        (t.locator.bytes loc ∷ []) memory

  unfoldable pub empty_test_object_location_ret_msg : List ℕ → List ℕ
  empty_test_object_location_ret_msg memory =
      fresh_message (exit_value locexit_invalid) test_object_location_ret_msg_shapes memory

  unfoldable pub test_object_location_ret_msg_new_locator : List ℕ → Option t.Locator
  test_object_location_ret_msg_new_locator = member t.locator test_object_location_ret_msg_shapes 0

  -- `set_locator` and `set_object_id`
  unfoldable pub set_locator : List ℕ → t.Locator → List ℕ
  set_locator memory loc =
      put memory (offset_of header_size param_loc_exit_msg_shapes 0) (t.locator.bytes loc)

  unfoldable pub set_object_id : List ℕ → t.ObjectId → List ℕ
  set_object_id memory obj_id =
      put memory (offset_of header_size param_obj_exit_msg_shapes 0) (t.object_id.bytes obj_id)

  -- The classes derived from these two.
  unfoldable pub weak_locate_ret_msg : LocatorCallExitCode → t.Locator → List ℕ → List ℕ
  unfolding param_loc_exit_msg
  weak_locate_ret_msg = param_loc_exit_msg

  unfoldable pub empty_weak_locate_ret_msg : List ℕ → List ℕ
  unfolding empty_param_loc_exit_msg
  empty_weak_locate_ret_msg = empty_param_loc_exit_msg

  unfoldable pub strong_locate_ret_msg : LocatorCallExitCode → t.Locator → List ℕ → List ℕ
  unfolding param_loc_exit_msg
  strong_locate_ret_msg = param_loc_exit_msg

  unfoldable pub empty_strong_locate_ret_msg : List ℕ → List ℕ
  unfolding empty_param_loc_exit_msg
  empty_strong_locate_ret_msg = empty_param_loc_exit_msg

  unfoldable pub register_obj_ret_msg : LocatorCallExitCode → t.ObjectId → List ℕ → List ℕ
  unfolding param_obj_exit_msg
  register_obj_ret_msg = param_obj_exit_msg

  unfoldable pub empty_register_obj_ret_msg : List ℕ → List ℕ
  unfolding empty_param_obj_exit_msg
  empty_register_obj_ret_msg = empty_param_obj_exit_msg
