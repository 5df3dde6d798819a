-- ===== src/RemoteMessage/Pings.antt =====
-- Ping_N_Objects_Request and Ping_Reply_For_N_Objects of include/remote_message_header.H. The state
-- of an operation is the memory from the object's address on.
use gservices.Base.{
  ℕ, ◌+◌, ◌*◌, List, [], ◌∷◌, some, none, M, Aleph, done, stop, assert, ◌>>=◌, ◌>>◌, out_of_bounds,
  length, drop, leb, ltb, if◌then◌else◌,
}
use gservices.Wire.{u32, word}
use gservices.Message.{header_size}
use gservices.Object.{
  CType, Shape, shape, word_type, sizeof, end_of, offset_of, put, window, member, sized_message,
  call_message,
}
use gservices.LocalMessage.{AlephTypes}
use gservices.RemoteMessage.{
  remote_value, ping_n_objects_request, ping_reply_for_n_objects, InvocationReplyType,
  reply_type_value,
}

-- The two counters of both classes: the number of places, and how many are in use.
abbrev pub ping_shapes : List Shape
ping_shapes = shape word_type ∷ shape word_type ∷ []

-- `memcpy` to and from an address inside the object.
unfoldable pub copy_to : ℕ → List ℕ → M (List ℕ) (Unit {0})
copy_to offset bytes memory =
    if leb (offset + length bytes) (length memory)
    then (done tt, put memory offset bytes)
    else stop out_of_bounds memory

-- A counter of the object. Memory too short for it is read outside.
unfoldable pub counter : ℕ → M (List ℕ) ℕ
counter i memory = elim (member word_type ping_shapes i memory) [
  | none ↦ (stop out_of_bounds memory)
  | some n ↦ (done n, memory)
]

unfoldable pub set_actual : ℕ → M (List ℕ) (Unit {0})
unfolding copy_to
set_actual n = copy_to (offset_of header_size ping_shapes 1) (word n)

unfoldable pub copy_from : {A : Type 0} → CType A → ℕ → M (List ℕ) A
copy_from c offset memory = elim (c.value (window offset c.size memory)) [
  | none ↦ stop out_of_bounds memory
  | some a ↦ (done a, memory)
]

module _ (t : AlephTypes) where
  -- `reinterpret_cast<char*>(this) + sizeof(*this) + position * sizeof(Locator)`
  abbrev pub locator_offset : ℕ → ℕ
  locator_offset position = sizeof ping_shapes + u32 (position * t.locator.size)

  unfoldable pub ping_request : Aleph → ℕ → List ℕ → {S : Type 0} → M S (List ℕ)
  ping_request k number_of_obj memory =
      sized_message k (remote_value ping_n_objects_request)
        (sizeof ping_shapes + number_of_obj * t.locator.size) ping_shapes
        (word number_of_obj ∷ word 0 ∷ []) memory

  unfoldable pub get_locators : List ℕ → List ℕ
  get_locators memory = drop (end_of header_size ping_shapes) memory

  unfoldable pub add_locator : Aleph → t.Locator → M (List ℕ) (Unit {0})
  add_locator k locator = do
    actual ← counter 1
    number ← counter 0
    assert k (ltb actual number)
    copy_to (locator_offset actual) (t.locator.bytes locator)
    set_actual (actual + 1)

  unfoldable pub reset_locators_counter : M (List ℕ) (Unit {0})
  reset_locators_counter = set_actual 0

  -- `operator[]`, and the object that its result refers to.
  unfoldable pub locator_at : Aleph → ℕ → M (List ℕ) t.Locator
  locator_at k position = do
    number ← counter 0
    assert k (ltb position number)
    copy_from t.locator (locator_offset position)

  -- `get_number_of_objects` and `get_number_of_responses`
  unfoldable pub get_number : M (List ℕ) ℕ
  get_number = counter 0

  -- `position * (sizeof(Locator) + sizeof(Invocation_Reply_Type))` behind the reply's own members.
  abbrev pub response_offset : ℕ → ℕ
  response_offset position = sizeof ping_shapes + u32 (position * (t.locator.size + 4))

  unfoldable pub ping_reply : Aleph → ℕ → List ℕ → {S : Type 0} → M S (List ℕ)
  ping_reply k n_of_resp memory =
      call_message k (remote_value ping_reply_for_n_objects) ping_shapes
        (word n_of_resp ∷ word 0 ∷ []) memory

  unfoldable pub add_response : Aleph → t.Locator → InvocationReplyType → M (List ℕ) (Unit {0})
  add_response k locator resp_type = do
    actual ← counter 1
    number ← counter 0
    assert k (ltb actual number)
    copy_to (response_offset actual) (t.locator.bytes locator)
    copy_to (response_offset actual + t.locator.size) (word (reply_type_value resp_type))
    set_actual (actual + 1)

  unfoldable pub get_locator : Aleph → ℕ → M (List ℕ) t.Locator
  get_locator k position = do
    number ← counter 0
    assert k (ltb position number)
    copy_from t.locator (response_offset position)

  unfoldable pub get_reply_type : Aleph → ℕ → M (List ℕ) ℕ
  get_reply_type k position = do
    number ← counter 0
    assert k (ltb position number)
    copy_from word_type (response_offset position + t.locator.size)
