-- ===== src/Util/Codes.antt =====
-- The constants of include/DS-Lab-Assignment/util.h and netUtil.h.
use ds_lab_assignment.Prelude.{ℕ, ℤ, pos, negsuc, Bytes, codes}

abbrev pub max_msg_size : ℕ
max_msg_size = 256

abbrev pub msg_id_max_value : ℕ
msg_id_max_value = 4294967295

abbrev pub msg_id_max_str_size : ℕ
msg_id_max_str_size = 10

abbrev pub max_conn_backlog : ℕ
max_conn_backlog = 10

-- Operation codes.
abbrev pub register_op : Bytes
register_op = codes "REGISTER"

abbrev pub unregister_op : Bytes
unregister_op = codes "UNREGISTER"

abbrev pub connect_op : Bytes
connect_op = codes "CONNECT"

abbrev pub disconnect_op : Bytes
disconnect_op = codes "DISCONNECT"

abbrev pub send_op : Bytes
send_op = codes "SEND"

abbrev pub send_message_op : Bytes
send_message_op = codes "SEND_MESSAGE"

abbrev pub send_mess_ack_op : Bytes
send_mess_ack_op = codes "SEND_MESS_ACK"

-- General results.
abbrev pub gen_success : ℤ
gen_success = pos 0

abbrev pub gen_err_any : ℤ
gen_err_any = negsuc 0

abbrev pub gen_err_inv_args : ℤ
gen_err_inv_args = negsuc 1

-- Results of the DBMS.
abbrev pub dbms_success : ℤ
dbms_success = pos 100

abbrev pub dbms_err_any : ℤ
dbms_err_any = negsuc 99

abbrev pub dbms_err_not_exists : ℤ
dbms_err_not_exists = negsuc 100

abbrev pub dbms_err_exists : ℤ
dbms_err_exists = negsuc 101

-- `TRUE` and `FALSE`
abbrev pub c_true : ℤ
c_true = pos 1

abbrev pub c_false : ℤ
c_false = pos 0

-- The byte that a reply carries.
abbrev pub srv_success : ℕ
srv_success = 0

abbrev pub srv_err_reg_usr_already_reg : ℕ
srv_err_reg_usr_already_reg = 1

abbrev pub srv_err_unreg_usr_not_exists : ℕ
srv_err_unreg_usr_not_exists = 1

abbrev pub srv_err_unreg_any : ℕ
srv_err_unreg_any = 2

abbrev pub srv_err_cn_usr_not_exists : ℕ
srv_err_cn_usr_not_exists = 1

abbrev pub srv_err_cn_usr_already_cn : ℕ
srv_err_cn_usr_already_cn = 2

abbrev pub srv_err_cn_any : ℕ
srv_err_cn_any = 3

abbrev pub srv_err_dcn_usr_not_exists : ℕ
srv_err_dcn_usr_not_exists = 1

abbrev pub srv_err_dcn_usr_not_cn : ℕ
srv_err_dcn_usr_not_cn = 2

abbrev pub srv_err_dcn_any : ℕ
srv_err_dcn_any = 3

abbrev pub srv_err_send_usr_not_exists : ℕ
srv_err_send_usr_not_exists = 1

abbrev pub srv_err_send_any : ℕ
srv_err_send_any = 2

-- Values of `userdata.status`.
abbrev pub status_dcn : ℕ
status_dcn = 0

abbrev pub status_cn : ℕ
status_cn = 1

-- Schema.
abbrev pub db_dir : Bytes
db_dir = codes "users"

abbrev pub userdata_entry : Bytes
userdata_entry = codes "userdata.entry"

abbrev pub pend_msgs_table : Bytes
pend_msgs_table = codes "pend_msgs-table"
