-- ===== src/Services/Users/Sessions.antt =====
-- What DISCONNECT of src/services.c does to a user's entry, where no call of the file system
-- fails.
use mathlib.Core.Path.{subst}
use ds_lab_assignment.Prelude.{◌≡◌, refl, [], ◌∷◌, ◌++◌, arith}
use ds_lab_assignment.Util.Codes.{status_cn, status_dcn}
use ds_lab_assignment.Util.Types.{Entry, EntryType, Request}
use ds_lab_assignment.Dbms.Fs.{Fs, Entries}
use ds_lab_assignment.Dbms.Paths.Laws.{NoSlash}
use ds_lab_assignment.Dbms.Account.{Account, SameOthers}
use ds_lab_assignment.Dbms.Ops.Laws.{read_userdata}
use ds_lab_assignment.Dbms.Updates.{modify_Updated}
use ds_lab_assignment.Services.World.{World, Stack, user_entry}
use ds_lab_assignment.Services.Users.{srv_disconnect}
use ds_lab_assignment.Services.Users.Laws.{Named, after_name, sent_name}

-- The user's entry without a connection.
abbrev pub offline : Entry → Entry
offline e = record e { user = record e.user { status = status_dcn; ip = 0; port = 0 } }

module _ (s : Stack) (request : Request) (w : World) (n : Named request w) (e : Entry)
    (pend : Entries) (named : sent_name request w ≡ e.username) (is_ud : e.type ≡ EntryType.ud)
    (account : Account w.fs e.username e pend) where
  -- A name without a slash was read from a client who can be answered, and no call of the file
  -- system fails. DISCONNECT of a connected user answers 0. In the user's entry the status is
  -- disconnected and the address is cleared; pending messages and other users' tables stay as
  -- they are.
  pub srv_disconnect_connected :
      e.user.status ≡ status_cn
      → (fs' : Fs) × (srv_disconnect s request w
          ≡ record (after_name request w) { fs = fs'; replies = w.replies ++ (0 ∷ []) ∷ [] })
        × Account fs' e.username (offline e) pend
        × SameOthers e.username w.fs fs'
  unfolding srv_disconnect
  srv_disconnect_connected on =
      let name : NoSlash e.username = subst NoSlash named n.name in
      let u = modify_Updated w.fs (offline e) e pend n.sound name is_ud account in
      (
        u.after,
        ground (
          arith,
          read_userdata w.fs n.sound (user_entry s.entry e.username) name refl e account.stored,
          u.result,
          n.read,
          n.writable,
          named,
          on,
        ),
        u.account,
        u.others,
      )

  -- A name without a slash was read from a client who can be answered, and no call of the file
  -- system fails. DISCONNECT of a user who is not connected answers 2 and changes nothing in the
  -- database.
  pub srv_disconnect_offline :
      e.user.status ≡ status_dcn
      → srv_disconnect s request w
        ≡ record (after_name request w) { replies = w.replies ++ (2 ∷ []) ∷ [] }
  unfolding srv_disconnect
  srv_disconnect_offline off =
      let name : NoSlash e.username = subst NoSlash named n.name in
      ground (
        arith,
        read_userdata w.fs n.sound (user_entry s.entry e.username) name refl e account.stored,
        n.read,
        n.writable,
        named,
        off,
      )
