-- ===== src/Util/Check.antt =====
-- The macros of include/DS-Lab-Assignment/util.h that leave a function early: what the function
-- returns then, and its rest. Their prints are left out.
use ds_lab_assignment.Prelude.{ℤ, Bool, if◌then◌else◌, is_neg}

-- `CHECK_ERROR_WITH_ERRNO`
abbrev pub check_error_with_errno {ℓ} : {A : Type ℓ} → Bool → A → A → A
check_error_with_errno condition returned rest = if condition then returned else rest

-- `CHECK_FUNC_ERROR`
abbrev pub check_func_error {ℓ} : {A : Type ℓ} → ℤ → A → A → A
check_func_error ret_val returned rest = if is_neg ret_val then returned else rest

-- `CHECK_FUNC_ERROR_WITH_ERRNO`
abbrev pub check_func_error_with_errno {ℓ} : {A : Type ℓ} → ℤ → A → A → A
check_func_error_with_errno ret_val returned rest = if is_neg ret_val then returned else rest

-- `CHECK_RM_ERROR`, which closes the directory before it returns
abbrev pub check_rm_error {ℓ} : {A : Type ℓ} → ℤ → A → A → A
check_rm_error ret_val returned rest = if is_neg ret_val then returned else rest

-- `CHECK_SOCK_ERROR`; `closed` is what the function returns once it has closed the socket
abbrev pub check_sock_error {ℓ} : {A : Type ℓ} → ℤ → A → A → A
check_sock_error ret_val closed rest = if is_neg ret_val then closed else rest

-- `CHECK_ARGS`
abbrev pub check_args {ℓ} : {A : Type ℓ} → Bool → A → A → A
check_args condition returned rest = if condition then returned else rest
