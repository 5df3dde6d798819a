-- ===== src/LocalMessage.antt =====
-- include/local_message_header.H: the messages between a container and its object locator. The
-- types of their members belong to the Aleph library and are parameters.
pub mod Params
pub mod Calls
pub mod Statuses
pub mod Returns
pub mod Transfer
pub mod Arrival
use gservices.Base.{ℕ, List, [], ◌∷◌, M, Aleph}
use gservices.Object.{CType}

pub data LocatorCallEntryCode : Type 0 where
  get_site_id register_container unregister_container register_object : LocatorCallEntryCode
  unregister_object target_reg_mig_object source_unreg_mig_object : LocatorCallEntryCode
  target_reg_mig_container source_unreg_mig_container strong_locate : LocatorCallEntryCode
  weak_locate implicit_locate client_invoke_send locator_super_receive : LocatorCallEntryCode
  server_invoke_reply test_object_location ping_n_objects : LocatorCallEntryCode
  locator_call_entry_code_last : LocatorCallEntryCode

abbrev pub entry_value : LocatorCallEntryCode → ℕ
entry_value get_site_id = 0
entry_value register_container = 1
entry_value unregister_container = 2
entry_value register_object = 3
entry_value unregister_object = 4
entry_value target_reg_mig_object = 5
entry_value source_unreg_mig_object = 6
entry_value target_reg_mig_container = 7
entry_value source_unreg_mig_container = 8
entry_value strong_locate = 9
entry_value weak_locate = 10
entry_value implicit_locate = 11
entry_value client_invoke_send = 12
entry_value locator_super_receive = 13
entry_value server_invoke_reply = 14
entry_value test_object_location = 15
entry_value ping_n_objects = 16
entry_value locator_call_entry_code_last = 17

pub data ReceptionType : Type 0 where
  rectype_invocation_request rectype_invocation_reply rectype_type_last : ReceptionType

abbrev pub reception_value : ReceptionType → ℕ
reception_value rectype_invocation_request = 0
reception_value rectype_invocation_reply = 1
reception_value rectype_type_last = 2

pub data LocatorCallExitCode : Type 0 where
  locexit_ok locexit_container_unknown locexit_container_still_working
        locexit_intended_duplication :
      LocatorCallExitCode
  locexit_object_unknown locexit_object_dead locexit_object_not_found
        locexit_object_recent_binding :
      LocatorCallExitCode
  locexit_object_busy locexit_invalid : LocatorCallExitCode

abbrev pub exit_value : LocatorCallExitCode → ℕ
exit_value locexit_ok = 0
exit_value locexit_container_unknown = 1
exit_value locexit_container_still_working = 2
exit_value locexit_intended_duplication = 3
exit_value locexit_object_unknown = 4
exit_value locexit_object_dead = 5
exit_value locexit_object_not_found = 6
exit_value locexit_object_recent_binding = 7
exit_value locexit_object_busy = 8
exit_value locexit_invalid = 9

pub data CacheUpdatePolicy : Type 0 where
  loccache_lru loccache_mru loccache_middle loccache_invalid : CacheUpdatePolicy

abbrev pub policy_value : CacheUpdatePolicy → ℕ
policy_value loccache_lru = 0
policy_value loccache_mru = 1
policy_value loccache_middle = 2
policy_value loccache_invalid = 3

-- The types of Aleph's binder.H and basic_defs.H.
pub record AlephTypes : Type 1 where
  pub ObjectId : Type 0
  pub ContainerId : Type 0
  pub SiteId : Type 0
  pub Binding : Type 0
  pub Locator : Type 0
  pub MessageId : Type 0
  pub LogicalTimestamp : Type 0
  pub object_id : CType ObjectId
  pub container_id : CType ContainerId
  pub site_id : CType SiteId
  pub binding : CType Binding
  pub locator : CType Locator
  pub message_id : CType MessageId
  pub logical_timestamp : CType LogicalTimestamp
  pub invalid_site_id : SiteId
