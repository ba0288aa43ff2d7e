-- ===== src/Services/Send/Race.antt =====
-- Two SEND requests of src/services.c at once: `mutex_db` of app/server.c is never locked, so that the
-- calls of the database of two service threads may alternate.
use ds_lab_assignment.Prelude.{◌≡◌, refl, Bytes, sym, arith}
use mathlib.Core.Path.{subst}
use ds_lab_assignment.Util.Codes.{srv_success}
use ds_lab_assignment.Util.Types.{Entry, EntryType, Mode}
use ds_lab_assignment.Dbms.Fs.{Fs, Entries}
use ds_lab_assignment.Dbms.Paths.Laws.{NoSlash}
use ds_lab_assignment.Dbms.Remove.Laws.{NoFaults}
use ds_lab_assignment.Dbms.Account.{Account}
use ds_lab_assignment.Dbms.Ops.Laws.{read_userdata}
use ds_lab_assignment.Dbms.Updates.{modify_Updated}
use ds_lab_assignment.Services.World.{World, io_op, user_entry}
use ds_lab_assignment.Services.Send.{Step, advanced, advance_id}

-- The end of `aux_send_init` in two threads for one recipient, where both threads read the recipient's
-- entry before either writes it. `one` and `other` are what the threads' stacks hold.
unfoldable pub advance_both : Entry → Entry → Bytes → World → Step × Step
unfolding advance_id io_op
advance_both one other to w =
    let read_one = io_op (user_entry one to) Mode.read w in
    let read_other = io_op (user_entry other to) Mode.read read_one.world in
    let first = advance_id (record read_one { world = read_other.world }) in
    let second = advance_id (record read_other { world = first.world }) in (first, second)

-- No call of the file system fails, and the recipient has an account and a name without a slash. Two
-- SENDs that both read the recipient's entry before either writes it back both succeed and get the
-- same message ID, and the stored ID has gone up once.
pub advance_both_lem :
    (one other e : Entry) (to : Bytes) (pend : Entries) (w : World)
    → NoFaults w.fs.faulty
    → NoSlash to
    → e.username ≡ to
    → e.type ≡ EntryType.ud
    → Account w.fs to e pend
    → (fs1 : Fs) × (fs2 : Fs) × (advance_both one other to w ≡ (
      record { reply = srv_success; entry = advanced e; world = record w { fs = fs1 } },
      record { reply = srv_success; entry = advanced e; world = record w { fs = fs2 } },
    ))
      × Account fs2 to (advanced e) pend
unfolding advance_both
advance_both_lem one other e to pend w sound slash named is_ud account =
    let at = subst (λ v. Account w.fs v e pend) (sym named) account in
    let name = subst NoSlash (sym named) slash in
    let u1 = modify_Updated w.fs (advanced e) e pend sound name is_ud at in
    let u2 =
      modify_Updated u1.after (advanced e) (advanced e) pend u1.sound name is_ud u1.account in
    (
      u1.after,
      u2.after,
      ground (
        arith,
        read_userdata w.fs sound (user_entry one to) slash refl e account.stored,
        read_userdata w.fs sound (user_entry other to) slash refl e account.stored,
        u1.result,
        u2.result,
      ),
      subst (λ v. Account u2.after v (advanced e) pend) named u2.account,
    )
