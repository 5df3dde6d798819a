-- ===== src/LocalMessage/Statuses.antt =====
-- The answers of include/local_message_header.H that hold a status only.
use gservices.Base.{ℕ, List, []}
use gservices.Object.{return_message, fresh_message}
use gservices.LocalMessage.{LocatorCallExitCode, exit_value, locexit_invalid}

-- The answers that hold a status only: each class has the same two constructors.
unfoldable pub status_ret_msg : LocatorCallExitCode → List ℕ → List ℕ
status_ret_msg status memory = return_message (exit_value status) [] [] memory

unfoldable pub empty_status_ret_msg : List ℕ → List ℕ
empty_status_ret_msg memory = fresh_message (exit_value locexit_invalid) [] memory

unfoldable pub unregister_cnt_ret_msg : LocatorCallExitCode → List ℕ → List ℕ
unfolding status_ret_msg
unregister_cnt_ret_msg = status_ret_msg

unfoldable pub empty_unregister_cnt_ret_msg : List ℕ → List ℕ
unfolding empty_status_ret_msg
empty_unregister_cnt_ret_msg = empty_status_ret_msg

unfoldable pub implicit_locate_ret_msg : LocatorCallExitCode → List ℕ → List ℕ
unfolding status_ret_msg
implicit_locate_ret_msg = status_ret_msg

unfoldable pub empty_implicit_locate_ret_msg : List ℕ → List ℕ
unfolding empty_status_ret_msg
empty_implicit_locate_ret_msg = empty_status_ret_msg

unfoldable pub unregister_obj_ret_msg : LocatorCallExitCode → List ℕ → List ℕ
unfolding status_ret_msg
unregister_obj_ret_msg = status_ret_msg

unfoldable pub empty_unregister_obj_ret_msg : List ℕ → List ℕ
unfolding empty_status_ret_msg
empty_unregister_obj_ret_msg = empty_status_ret_msg

unfoldable pub srv_invoke_reply_ret_msg : LocatorCallExitCode → List ℕ → List ℕ
unfolding status_ret_msg
srv_invoke_reply_ret_msg = status_ret_msg

unfoldable pub empty_srv_invoke_reply_ret_msg : List ℕ → List ℕ
unfolding empty_status_ret_msg
empty_srv_invoke_reply_ret_msg = empty_status_ret_msg

unfoldable pub src_unreg_mig_obj_ret_msg : LocatorCallExitCode → List ℕ → List ℕ
unfolding status_ret_msg
src_unreg_mig_obj_ret_msg = status_ret_msg

unfoldable pub empty_src_unreg_mig_obj_ret_msg : List ℕ → List ℕ
unfolding empty_status_ret_msg
empty_src_unreg_mig_obj_ret_msg = empty_status_ret_msg

unfoldable pub tgt_reg_mig_obj_ret_msg : LocatorCallExitCode → List ℕ → List ℕ
unfolding status_ret_msg
tgt_reg_mig_obj_ret_msg = status_ret_msg

unfoldable pub empty_tgt_reg_mig_obj_ret_msg : List ℕ → List ℕ
unfolding empty_status_ret_msg
empty_tgt_reg_mig_obj_ret_msg = empty_status_ret_msg

unfoldable pub ping_n_objects_ret_msg : LocatorCallExitCode → List ℕ → List ℕ
unfolding status_ret_msg
ping_n_objects_ret_msg = status_ret_msg

unfoldable pub empty_ping_n_objects_ret_msg : List ℕ → List ℕ
unfolding empty_status_ret_msg
empty_ping_n_objects_ret_msg = empty_status_ret_msg
