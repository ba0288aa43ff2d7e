-- ===== src/Tests/Surprises.antt =====
-- Two threads that register one name, a username with a slash, and disks that are full.
use ds_lab_assignment.Prelude.{◌≡◌, refl, true, false, some, [], ◌∷◌, pos, codes, str_eq, arith}
use ds_lab_assignment.Util.ReadLine.{read_line}
use ds_lab_assignment.Dbms.Fs.{Fs, end, write_entry, make_dir, remove_entry, walk, child}
use ds_lab_assignment.Dbms.Account.{Account, Unknown, SameOthers}
use ds_lab_assignment.Util.Types.{Entry, EntryType}
use ds_lab_assignment.Services.Client.Laws.{message_frame}
use ds_lab_assignment.Services.Pending.{aux_connect_send_pend_msgs}
use ds_lab_assignment.Services.Pending.Undeletable.{first_of}
use ds_lab_assignment.Services.Pending.Resent.{copies, aux_connect_send_pend_msgs_resent}
use ds_lab_assignment.Services.World.{accepts, refuses, World, receive}
use ds_lab_assignment.Services.Users.{
  new_user, srv_register, srv_unregister, srv_disconnect, srv_connect_request,
}
use ds_lab_assignment.Services.Users.Laws.{after_name}
use ds_lab_assignment.Services.Users.Unmade.{srv_register_unmade}
use ds_lab_assignment.Services.Users.Race.{register_both, register_both_lem}
use ds_lab_assignment.Services.Users.Alias.{alias, srv_unregister-alias}
use ds_lab_assignment.Services.Users.Unwritten.{repaired, srv_connect-srv_disconnect}
use ds_lab_assignment.Tests.Fixtures.{
  bob, bob_data, bob-NoSlash, bob-Account, database_with, ann, eve, ann_data, database,
  database-NoFaults, ann-NoSlash, eve-NoSlash, ann-Account, eve-Unknown, incoming, world,
  blank_request, stack,
}

register_both_lem_example :
    (fs' : Fs) × (register_both (stack 0 0) (stack 0 7) eve (world [] []) (world [] []) ≡ (
      record (world [] []) { fs = fs'; replies = (0 ∷ []) ∷ [] },
      record (world [] []) { fs = fs'; replies = (0 ∷ []) ∷ [] },
    ))
    × Account fs' eve (new_user (stack 0 0) eve) end
    × SameOthers eve database fs'
register_both_lem_example =
    register_both_lem (stack 0 0) (stack 0 7) eve (world [] []) (world [] []) database-NoFaults
      eve-NoSlash eve-Unknown refl refl

abbrev slashed : World
slashed = world (incoming (alias ann)) []

srv_unregister-alias_example :
    (fs' : Fs) × (srv_unregister blank_request slashed
      ≡ record (after_name blank_request slashed) { fs = fs'; replies = (0 ∷ []) ∷ [] })
    × Unknown fs' ann
unfolding receive read_line
srv_unregister-alias_example =
    srv_unregister-alias blank_request slashed ann ann_data end (λ e. cc) refl database-NoFaults
      ann-NoSlash ann-Account refl

-- the client that sends ann's name, on a disk that is full
abbrev full : World
full = record (world (incoming ann) []) {
  fs = record database { faulty = λ call path. elim call [ write_entry ↦ true | _ ↦ false ] };
}

full-Account : Account full.fs ann ann_data end
full-Account = record {
  tables = ann-Account.tables;
  db = ann-Account.db;
  table_entries = ann-Account.table_entries;
  table = ann-Account.table;
  stored = ann-Account.stored;
  pending = ann-Account.pending;
}

srv_connect-srv_disconnect_example :
    (fs' : Fs) × (srv_disconnect (stack 0 0) blank_request full
      ≡ record (after_name blank_request full) { fs = fs'; replies = (3 ∷ []) ∷ [] })
    × (srv_connect_request
          (stack 0 0)
          1
          ann
          (codes "4000")
          (record (world [] []) { fs = repaired fs' })
        ≡ some (record (world [] []) { fs = repaired fs'; replies = (3 ∷ []) ∷ [] }))
unfolding receive read_line
srv_connect-srv_disconnect_example =
    srv_connect-srv_disconnect (stack 0 0) blank_request full ann_data end ann-NoSlash refl
      (λ e. cc) refl full-Account refl (record { opens = λ _. refl; reads = refl; writes = refl })
      refl (stack 0 0) 1 (codes "4000") (world [] []) refl

-- the client that sends eve's name, where no directory can be made
abbrev no_room : World
no_room = record (world (incoming eve) []) {
  fs = record database { faulty = λ call path. elim call [ make_dir ↦ true | _ ↦ false ] };
}

srv_register_unmade_example :
    srv_register (stack 0 0) blank_request no_room
    ≡ record (after_name blank_request no_room) { replies = (0 ∷ []) ∷ [] }
unfolding receive read_line
srv_register_unmade_example =
    srv_register_unmade (stack 0 0) blank_request no_room eve (λ e. cc) refl eve-NoSlash
      (record { tables = eve-Unknown.tables; db = eve-Unknown.db; absent = eve-Unknown.absent })
      (record { opens = refl; makes = refl }) refl

-- a message to bob from eve, who has no account
abbrev orphan : Entry
orphan = record bob_data {
  type = EntryType.p_msg;
  msg = record { sender = eve; id = 12; content = codes "hi" };
}

abbrev sticky : World
sticky = record (world [] (accepts 4 ∷ accepts 4 ∷ refuses ∷ [])) {
  fs = record (database_with (first_of orphan end)) {
    faulty = λ call path. elim call [ remove_entry ↦ true | _ ↦ false ];
  };
}

bob_waits : Account sticky.fs bob bob_data (first_of orphan end)
bob_waits =
    let a = bob-Account (first_of orphan end) in
    record {
      tables = a.tables;
      db = a.db;
      table_entries = a.table_entries;
      table = a.table;
      stored = a.stored;
      pending = a.pending;
    }

aux_connect_send_pend_msgs_resent_example :
    (w' : World) × (aux_connect_send_pend_msgs (stack 0 0) 3 orphan sticky ≡ some (pos 2, w'))
    × (w'.frames ≡ copies 2 (message_frame bob_data orphan.msg))
unfolding walk child str_eq
aux_connect_send_pend_msgs_resent_example =
    aux_connect_send_pend_msgs_resent (stack 0 0) bob_data orphan end refl refl refl bob-NoSlash
      eve-NoSlash (omega arith) 2 [] orphan sticky refl refl
      (record {
        lists = λ p. refl;
        readable = λ p. record { opens = refl; reads = refl };
        stays = λ p. refl;
      })
      bob_waits refl refl
