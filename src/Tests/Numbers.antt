-- ===== src/Tests/Numbers.antt =====
-- Numbers and paths as text, at concrete values.
use ds_lab_assignment.Prelude.{◌+◌, ◌%◌, ◌^◌, ◌≤◌, ◌≡◌, refl, ◌++◌, some, length, codes, arith}
use ds_lab_assignment.Util.Codes.{gen_success, userdata_entry, pend_msgs_table}
use ds_lab_assignment.Util.Decimal.{decimal, scan}
use ds_lab_assignment.Util.StrToNum.{CastType, str_to_num}
use ds_lab_assignment.Util.StrToNum.Laws.{str_to_num-decimal, str_to_num-Digits}
use ds_lab_assignment.Dbms.Paths.{
  user_table_path, in_user_table, entry_path, user_exists_buffer, user_table_buffer,
  in_table_buffer, pend_table_buffer, entry_buffer,
}
use ds_lab_assignment.Dbms.Paths.Laws.{user_exists_overflows, paths_fit}
use ds_lab_assignment.Tests.Fixtures.{ann, ann_data}

str_to_num-decimal_example :
    str_to_num (decimal 4294967294) CastType.uint
    ≡ record { result = gen_success; number = some 4294967294 }
str_to_num-decimal_example = str_to_num-decimal 4294967294 (omega arith)

str_to_num-Digits_example :
    str_to_num (codes "70000" ++ codes "x") CastType.int
    ≡ record { result = gen_success; number = some (scan 0 (codes "70000") % 2 ^ 32) }
unfolding scan
str_to_num-Digits_example =
    str_to_num-Digits (codes "70000") (codes "x") (refl, (refl, (refl, (refl, (refl, tt)))))
      (λ e. cc) refl (omega arith)

user_exists_overflows_example : length (user_table_path ann) + 1 ≡ user_exists_buffer ann + 1
user_exists_overflows_example = user_exists_overflows ann

paths_fit_example :
    (length (user_table_path ann) + 1 ≤ user_table_buffer ann)
    × (length (in_user_table ann userdata_entry) + 1 ≤ in_table_buffer ann userdata_entry)
    × (length (in_user_table ann pend_msgs_table) + 1 ≤ in_table_buffer ann pend_msgs_table)
    × (length (in_user_table ann pend_msgs_table) + 1 ≤ pend_table_buffer ann)
    × (length (entry_path ann_data) + 1 ≤ entry_buffer ann_data)
paths_fit_example = paths_fit ann ann_data (omega arith)
