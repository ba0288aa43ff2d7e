-- ===== src/Tests/Users.antt =====
-- REGISTER, UNREGISTER and DISCONNECT at concrete worlds.
use ds_lab_assignment.Prelude.{◌≡◌, refl, [], ◌∷◌, Bytes}
use ds_lab_assignment.Util.ReadLine.{read_line}
use ds_lab_assignment.Dbms.Fs.{Fs, end}
use ds_lab_assignment.Dbms.Account.{Account, Unknown, SameOthers}
use ds_lab_assignment.Services.World.{World, receive}
use ds_lab_assignment.Services.Users.{new_user, srv_register, srv_unregister, srv_disconnect}
use ds_lab_assignment.Services.Users.Laws.{
  Named, after_name, srv_register_new, srv_unregister_known,
}
use ds_lab_assignment.Services.Users.Sessions.{offline, srv_disconnect_connected}
use ds_lab_assignment.Tests.Fixtures.{
  ann, eve, ann_data, database, database-NoFaults, ann-NoSlash, eve-NoSlash, ann-Account,
  eve-Unknown, incoming, world, blank_request, stack,
}

-- the world of a client that sends a name
abbrev named : Bytes → World
named name = world (incoming name) []

ann-Named : Named blank_request (named ann)
unfolding receive read_line
ann-Named = record {
  read = λ e. cc;
  name = ann-NoSlash;
  sound = database-NoFaults;
  writable = refl;
}

eve-Named : Named blank_request (named eve)
unfolding receive read_line
eve-Named = record {
  read = λ e. cc;
  name = eve-NoSlash;
  sound = database-NoFaults;
  writable = refl;
}

srv_register_new_example :
    (fs' : Fs) × (srv_register (stack 0 0) blank_request (named eve)
      ≡ record (after_name blank_request (named eve)) { fs = fs'; replies = (0 ∷ []) ∷ [] })
    × Account fs' eve (new_user (stack 0 0) eve) end
    × SameOthers eve database fs'
unfolding receive read_line
srv_register_new_example =
    srv_register_new (stack 0 0) blank_request (named eve) eve-Named eve-Unknown

srv_unregister_known_example :
    (fs' : Fs) × (srv_unregister blank_request (named ann)
      ≡ record (after_name blank_request (named ann)) { fs = fs'; replies = (0 ∷ []) ∷ [] })
    × Unknown fs' ann
    × SameOthers ann database fs'
unfolding receive read_line
srv_unregister_known_example =
    srv_unregister_known (stack 0 0) blank_request (named ann) ann-Named ann_data end ann-Account

srv_disconnect_connected_example :
    (fs' : Fs) × (srv_disconnect (stack 0 0) blank_request (named ann)
      ≡ record (after_name blank_request (named ann)) { fs = fs'; replies = (0 ∷ []) ∷ [] })
    × Account fs' ann (offline ann_data) end
    × SameOthers ann database fs'
unfolding receive read_line
srv_disconnect_connected_example =
    srv_disconnect_connected (stack 0 0) blank_request (named ann) ann-Named ann_data end refl refl
      ann-Account refl
