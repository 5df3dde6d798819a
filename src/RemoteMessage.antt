-- ===== src/RemoteMessage.antt =====
-- include/remote_message_header.H: the messages between object locators.
pub mod Single
pub mod Pings
pub mod Setters
pub mod Bytes
pub mod Packed
pub mod Places
pub mod Requests
pub mod Replies
use gservices.Base.{ℕ, Bool}
use gservices.LocalMessage.{AlephTypes}

pub data RemoteLocatorCallCode : Type 0 where
  invocation_request invocation_reply gather_object_information find_owner : RemoteLocatorCallCode
  locator_anounce dead_anounce response_from_weak_find_owner : RemoteLocatorCallCode
  response_from_strong_find_owner response_from_gather : RemoteLocatorCallCode
  ping_n_objects_request ping_reply_for_n_objects receive_cache_in : RemoteLocatorCallCode
  remote_locator_call_code_last : RemoteLocatorCallCode

abbrev pub remote_value : RemoteLocatorCallCode → ℕ
remote_value invocation_request = 0
remote_value invocation_reply = 1
remote_value gather_object_information = 2
remote_value find_owner = 3
remote_value locator_anounce = 4
remote_value dead_anounce = 5
remote_value response_from_weak_find_owner = 6
remote_value response_from_strong_find_owner = 7
remote_value response_from_gather = 8
remote_value ping_n_objects_request = 9
remote_value ping_reply_for_n_objects = 10
remote_value receive_cache_in = 11
remote_value remote_locator_call_code_last = 12

pub data InvocationReplyType : Type 0 where
  locreply_success locreply_not_found locreply_recent_binding : InvocationReplyType
  locreply_dead locreply_code_last : InvocationReplyType

abbrev pub reply_type_value : InvocationReplyType → ℕ
reply_type_value locreply_success = 0
reply_type_value locreply_not_found = 1
reply_type_value locreply_recent_binding = 2
reply_type_value locreply_dead = 3
reply_type_value locreply_code_last = 4

module _ (t : AlephTypes) where
  pub record CacheInData : Type 0 where
    pub source_site_id : t.SiteId
    pub timestamp : t.LogicalTimestamp

  -- `operator ==`, with the one of the sites.
  unfoldable pub same_data : (t.SiteId → t.SiteId → Bool) → CacheInData → CacheInData → Bool
  same_data same_site left right = same_site left.source_site_id right.source_site_id
