-- ===== src/Dbms/Util.antt =====
-- src/dbms/dbmsUtil.c over the file system of `Dbms.Fs`. What the functions print is left out.

use ds_lab_assignment.Prelude.{if◌then◌else◌, Bool, true, false, ℤ, Bytes}
use ds_lab_assignment.Util.Codes.{
  gen_err_inv_args, dbms_success, dbms_err_any, dbms_err_not_exists, dbms_err_exists,
}
use ds_lab_assignment.Util.Types.{Entry, Mode}
use ds_lab_assignment.Dbms.Fs.{
  Fs, blank, image, file, dir, Entries, end, Errno, enoent, enotdir, eio, Result, ok, err, Syscall,
  open_dir, make_dir, open_entry, read_entry, write_entry, components, walk, Change, change, create,
  rewrite,
}

-- The file system after a change at a path, or the error of the call.
unfoldable pub changed : Fs → Change → Bytes → Result Fs
changed fs f path = elim (change f (components path) fs.root) [
  | ok root ↦ ok (record fs { root = root })
  | err e ↦ err e
]

-- A call that fails if the system makes it fail.
unfoldable pub attempt {ℓ} : {A : Type ℓ} → Fs → Syscall → Bytes → Result A → Result A
attempt fs call path r = if fs.faulty call path then err eio else r

-- What `open_file` returns: a descriptor, here the file's path with the system after the call, -1
-- with `errno`, or GEN_ERR_INV_ARGS.
pub data Opened : Type 0 where
  fd : Bytes → Fs → Opened
  failed : Errno → Opened
  inv_args : Opened

unfoldable pub opened : Bytes → Result Fs → Opened
opened path (ok fs) = fd path fs
opened path (err e) = failed e

-- `open (path, O_RDONLY)`
unfoldable pub open_read : Bytes → Fs → Result Fs
open_read path fs = elim (walk (components path) fs.root) [ ok _ ↦ ok fs | err e ↦ err e ]

-- `open_file`
unfoldable pub open_file : Bytes → Mode → Fs → Opened
unfolding opened open_read changed attempt
open_file path Mode.read fs =
    opened path (attempt fs (open_entry Mode.read) path (open_read path fs))
open_file path Mode.create fs =
    opened path
      (attempt fs (open_entry Mode.create) path (changed fs (create fs.place (file blank)) path))
open_file path Mode.modify fs =
    opened path (attempt fs (open_entry Mode.modify) path (changed fs (rewrite blank) path))
open_file path _ fs = inv_args

-- `opendir`: the entries that `readdir` will give.
unfoldable pub opendir : Bytes → Fs → Result Entries
unfolding attempt
opendir path fs = attempt fs open_dir path (elim (walk (components path) fs.root) [
  | ok (dir es) ↦ ok es
  | ok (file _) ↦ err enotdir
  | err e ↦ err e
])

-- The result of `open_directory`, the directory that it opened, and the system after it.
pub record Directory : Type 0 where
  pub result : ℤ
  pub entries : Entries
  pub fs : Fs

abbrev pub no_directory : ℤ → Fs → Directory
no_directory code fs = record { result = code; entries = end; fs = fs }

-- the second `opendir`, behind `mkdir`
unfoldable pub reopen_directory : Bytes → Fs → Directory
unfolding opendir
reopen_directory path fs = elim (opendir path fs) [
  | ok es ↦ record { result = dbms_success; entries = es; fs = fs }
  | err e ↦ no_directory dbms_err_any fs
]

-- `mkdir`, where the directory is missing
unfoldable pub make_directory : Bytes → Fs → Directory
unfolding reopen_directory changed attempt
make_directory path fs =
    elim (attempt fs make_dir path (changed fs (create fs.place (dir end)) path)) [
      | ok fs' ↦ reopen_directory path fs'
      | err e ↦ no_directory dbms_err_any fs
    ]

-- behind the first `opendir`; the flags are `mode == CREATE` and `mode != READ`
unfoldable pub behind_opendir : Bool → Bool → Bytes → Result Entries → Fs → Directory
unfolding make_directory
behind_opendir creates makes path first fs = elim first [
  | ok es ↦ record {
    result = if creates then dbms_err_exists else dbms_success;
    entries = es;
    fs = fs;
  }
  | err enoent ↦ if makes then make_directory path fs else no_directory dbms_err_not_exists fs
  | err _ ↦ no_directory dbms_err_any fs
]

-- behind the checks of the mode
unfoldable pub open_or_make : Bool → Bool → Bytes → Fs → Directory
unfolding behind_opendir opendir
open_or_make creates makes path fs = behind_opendir creates makes path (opendir path fs) fs

-- `open_directory`
unfoldable pub open_directory : Bytes → Mode → Fs → Directory
unfolding open_or_make
open_directory path Mode.create fs = open_or_make true true path fs
open_directory path Mode.overwrite fs = open_or_make false true path fs
open_directory path Mode.read fs = open_or_make false false path fs
open_directory path _ fs = no_directory gen_err_inv_args fs

-- The result of reading an entry's file, and the struct after it.
pub record Reading : Type 0 where
  pub result : ℤ
  pub entry : Entry

-- `read_entry`: `read_bytes` of a whole struct gives -1, or 0 for an empty file, or the struct.
unfoldable pub read_entry_file : Bytes → Entry → Fs → Reading
read_entry_file path e fs =
    if fs.faulty read_entry path
    then record { result = dbms_err_any; entry = e }
    else elim (walk (components path) fs.root) [
      | ok (file (image stored)) ↦ record { result = dbms_success; entry = stored }
      | _ ↦ record { result = dbms_err_any; entry = e }
    ]

-- `write_entry`: the file holds the whole struct, or nothing if `write` fails.
unfoldable pub write_entry_file : Bytes → Entry → Fs → ℤ × Fs
unfolding changed attempt
write_entry_file path e fs =
    elim (attempt fs write_entry path (changed fs (rewrite (image e)) path)) [
      | ok fs' ↦ (dbms_success, fs')
      | err _ ↦ (dbms_err_any, fs)
    ]
