-- ===== src/LocalMessage/Params.antt =====
-- The requests of include/local_message_header.H that other classes are derived from.
use gservices.Base.{ℕ, List, [], ◌∷◌, Option, M, Aleph}
use gservices.Object.{Shape, shape, call_message, member}
use gservices.LocalMessage.{AlephTypes, LocatorCallEntryCode, entry_value}

module _ (t : AlephTypes) where
  -- Param_Cnt_Msg
  abbrev pub param_cnt_msg_shapes : List Shape
  param_cnt_msg_shapes = shape t.container_id ∷ []

  unfoldable pub param_cnt_msg :
      Aleph → LocatorCallEntryCode → t.ContainerId → List ℕ → {S : Type 0} → M S (List ℕ)
  param_cnt_msg k service cnt_id memory =
      call_message k (entry_value service) param_cnt_msg_shapes (t.container_id.bytes cnt_id ∷ [])
        memory

  unfoldable pub param_cnt_msg_container_id : List ℕ → Option t.ContainerId
  param_cnt_msg_container_id = member t.container_id param_cnt_msg_shapes 0

  -- Param_ObjCnt_Msg
  abbrev pub param_obj_cnt_msg_shapes : List Shape
  param_obj_cnt_msg_shapes = shape t.object_id ∷ shape t.container_id ∷ []

  unfoldable pub param_obj_cnt_msg :
      Aleph
      → LocatorCallEntryCode
      → t.ObjectId
      → t.ContainerId
      → List ℕ
      → {S : Type 0} → M S (List ℕ)
  param_obj_cnt_msg k service obj_id cnt_id memory =
      call_message k (entry_value service) param_obj_cnt_msg_shapes
        (t.object_id.bytes obj_id ∷ t.container_id.bytes cnt_id ∷ []) memory

  unfoldable pub param_obj_cnt_msg_object_id : List ℕ → Option t.ObjectId
  param_obj_cnt_msg_object_id = member t.object_id param_obj_cnt_msg_shapes 0

  unfoldable pub param_obj_cnt_msg_container_id : List ℕ → Option t.ContainerId
  param_obj_cnt_msg_container_id = member t.container_id param_obj_cnt_msg_shapes 1

  -- Param_Obj_Msg
  abbrev pub param_obj_msg_shapes : List Shape
  param_obj_msg_shapes = shape t.object_id ∷ []

  unfoldable pub param_obj_msg :
      Aleph → LocatorCallEntryCode → t.ObjectId → List ℕ → {S : Type 0} → M S (List ℕ)
  param_obj_msg k service obj_id memory =
      call_message k (entry_value service) param_obj_msg_shapes (t.object_id.bytes obj_id ∷ [])
        memory

  unfoldable pub param_obj_msg_object_id : List ℕ → Option t.ObjectId
  param_obj_msg_object_id = member t.object_id param_obj_msg_shapes 0

  -- Param_Bind_Msg
  abbrev pub param_bind_msg_shapes : List Shape
  param_bind_msg_shapes = shape t.binding ∷ []

  unfoldable pub param_bind_msg :
      Aleph → LocatorCallEntryCode → t.Binding → List ℕ → {S : Type 0} → M S (List ℕ)
  param_bind_msg k service bind memory =
      call_message k (entry_value service) param_bind_msg_shapes (t.binding.bytes bind ∷ []) memory

  unfoldable pub param_bind_msg_binding : List ℕ → Option t.Binding
  param_bind_msg_binding = member t.binding param_bind_msg_shapes 0

  -- Param_ObjBind_Msg
  abbrev pub param_obj_bind_msg_shapes : List Shape
  param_obj_bind_msg_shapes = shape t.object_id ∷ shape t.binding ∷ []

  unfoldable pub param_obj_bind_msg :
      Aleph → LocatorCallEntryCode → t.ObjectId → t.Binding → List ℕ → {S : Type 0} → M S (List ℕ)
  param_obj_bind_msg k service obj_id bind memory =
      call_message k (entry_value service) param_obj_bind_msg_shapes
        (t.object_id.bytes obj_id ∷ t.binding.bytes bind ∷ []) memory

  unfoldable pub param_obj_bind_msg_object_id : List ℕ → Option t.ObjectId
  param_obj_bind_msg_object_id = member t.object_id param_obj_bind_msg_shapes 0

  unfoldable pub param_obj_bind_msg_binding : List ℕ → Option t.Binding
  param_obj_bind_msg_binding = member t.binding param_obj_bind_msg_shapes 1

  -- Param_ObjSite_Msg
  abbrev pub param_obj_site_msg_shapes : List Shape
  param_obj_site_msg_shapes = shape t.object_id ∷ shape t.site_id ∷ []

  unfoldable pub param_obj_site_msg :
      Aleph → LocatorCallEntryCode → t.ObjectId → t.SiteId → List ℕ → {S : Type 0} → M S (List ℕ)
  param_obj_site_msg k service obj_id site memory =
      call_message k (entry_value service) param_obj_site_msg_shapes
        (t.object_id.bytes obj_id ∷ t.site_id.bytes site ∷ []) memory

  unfoldable pub param_obj_site_msg_object_id : List ℕ → Option t.ObjectId
  param_obj_site_msg_object_id = member t.object_id param_obj_site_msg_shapes 0

  unfoldable pub param_obj_site_msg_site_id : List ℕ → Option t.SiteId
  param_obj_site_msg_site_id = member t.site_id param_obj_site_msg_shapes 1
