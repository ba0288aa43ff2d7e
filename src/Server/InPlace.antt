-- ===== src/Server/InPlace.antt =====
-- What stands in the database after the rounds of `service_thread` (app/server.c), whatever fails.
use ds_lab_assignment.Prelude.{
  ℕ, ◌<◌, ◌≡◌, refl, List, [], ◌∷◌, All, length, Option, none, some, if_elim, int_eq, str_eq, Bytes,
}
use mathlib.Core.Path.{subst}
use ds_lab_assignment.Util.Codes.{
  db_dir, gen_err_any, register_op, unregister_op, connect_op, disconnect_op, send_op,
}
use ds_lab_assignment.Util.Types.{Request, Mode}
use ds_lab_assignment.Dbms.Fs.{Fs}
use ds_lab_assignment.Dbms.InPlace.{InPlace}
use ds_lab_assignment.Dbms.InPlace.Calls.Directories.{open_directory-Within}
use ds_lab_assignment.Dbms.Ops.{db_init_db}
use ds_lab_assignment.Services.World.{World, Stack, receive}
use ds_lab_assignment.Services.InPlace.{Kept, Kept-same}
use ds_lab_assignment.Services.InPlace.Users.{
  srv_register-Kept, srv_unregister-Kept, srv_disconnect-Kept,
}
use ds_lab_assignment.Services.InPlace.Connect.{KeptEnd, srv_connect-Kept}
use ds_lab_assignment.Services.InPlace.Send.{recipient_read, srv_send-Kept}
use ds_lab_assignment.Server.Start.{Os, Server, main}
use ds_lab_assignment.Server.Start.Laws.{
  Started, refused_args, no_database_or_socket, socket_closed, host_unknown, serves, main-Started,
}
use ds_lab_assignment.Server.Dispatch.{dispatch, serve, over, Taken, service_thread}
use ds_lab_assignment.Server.Replies.{serve-Ends}

dispatch-Kept :
    (s : Stack) (fuel : ℕ) (request : Request) (w : World)
    → InPlace w.fs
    → (u : Bytes) × KeptEnd u w.fs (dispatch s fuel request w)
unfolding dispatch
dispatch-Kept s fuel request w i =
    let username = (receive request.username w).string in
    let P = λ (r : Option World). (u : Bytes) × KeptEnd u w.fs r in
    if_elim P (str_eq request.op_code register_op) {x = some _}
      (λ _. (username, srv_register-Kept s request w i))
      λ _.
        if_elim P (str_eq request.op_code unregister_op) {x = some _}
          (λ _. (username, srv_unregister-Kept request w i))
          λ _.
            if_elim P (str_eq request.op_code connect_op)
              (λ _. (username, srv_connect-Kept s fuel request w i))
              λ _.
                if_elim P (str_eq request.op_code disconnect_op) {x = some _}
                  (λ _. (username, srv_disconnect-Kept s request w i))
                  λ _.
                    if_elim P (str_eq request.op_code send_op) {x = some _} {y = some w}
                      (λ _. (recipient_read request w, srv_send-Kept s request w i))
                      λ _. (username, Kept-same username i refl)

serve-Kept :
    (s : Stack) (fuel : ℕ) (w : World)
    → InPlace w.fs
    → (u : Bytes) × KeptEnd u w.fs (serve s fuel w)
unfolding serve receive
serve-Kept s fuel w i =
    let r = receive s.request.op_code w in
    if_elim (λ (x : Option World). (u : Bytes) × KeptEnd u w.fs x) (int_eq r.result gen_err_any)
      {x = some r.world} (λ _. ([], Kept-same [] i refl))
      λ _. dispatch-Kept s fuel (record s.request { op_code = r.string }) r.world i

-- A round that ends keeps the structs in place.
serve-InPlace :
    (s : Stack) (fuel : ℕ) (w after : World)
    → InPlace w.fs
    → serve s fuel w ≡ some after
    → InPlace after.fs
serve-InPlace s fuel w after i e =
    let (u, k) = serve-Kept s fuel w i in
    let kept : Kept u w.fs after.fs = subst (KeptEnd u w.fs) e k in kept.in_place

-- Each connection reaches finitely many listening threads, and fewer than the fuel.
abbrev pub AllEnough : ℕ → List Taken → Type 0
AllEnough fuel [] = Unit
AllEnough fuel (t ∷ ts) =
    (t.world.beyond ≡ none) × (length t.world.peers < fuel) × AllEnough fuel ts

-- So do the rounds of a service thread, which all end.
service_thread-InPlace :
    (fuel : ℕ) (ts : List Taken) (fs : Fs)
    → AllEnough fuel ts
    → InPlace fs
    → (ws : List World) × (service_thread fuel ts fs.root ≡ some ws) × All (λ w. InPlace w.fs) ws
unfolding service_thread
service_thread-InPlace fuel [] fs enough i = ([], refl, tt)
service_thread-InPlace fuel (t ∷ ts) fs (ends, few, enough) i =
    let start = over fs.root t.world in
    let e = serve-Ends t.stack fuel start ends few in
    let here = serve-InPlace t.stack fuel start e.after (record { placed = i.placed }) e.result in
    let (ws, done, all) = service_thread-InPlace fuel ts e.after.fs enough here in
    (e.after ∷ ws, rw (e.result, done) refl, (here, all))

-- So does the start of the server, however it ends.
Started-InPlace : (os : Os) (fs : Fs) (m : Server) → Started os fs m → InPlace fs → InPlace m.fs
unfolding db_init_db
Started-InPlace os fs m started i =
    let made = (open_directory-Within db_dir Mode.overwrite fs).in_place i in
    elim started as (λ (x : Server) _. InPlace x.fs) [
      | refused_args ↦ i
      | no_database_or_socket ↦ made
      | socket_closed ↦ made
      | host_unknown port small ↦ made
      | serves port small ↦ made
    ]

-- Whatever the arguments of `main` are, whatever the clients send, and whichever calls of the file
-- system and of the sockets fail: if each struct in the file system is at the path that its user, type
-- and message ID name, so it is behind the start of `main`. With fuel above the number of listening
-- threads that each connection can reach, a service thread then gets through its connections, and each
-- struct is still at its own path behind each of them. Paths are compared as sequences of names, in
-- which "." and ".." mean nothing else.
pub service_thread-main-InPlace :
    (os : Os) (argv : List Bytes) (fs : Fs) (fuel : ℕ) (ts : List Taken)
    → AllEnough fuel ts
    → InPlace fs
    → InPlace (main os argv fs).fs
      × ((ws : List World) × (service_thread fuel ts (main os argv fs).fs.root ≡ some ws)
          × All (λ w. InPlace w.fs) ws)
service_thread-main-InPlace os argv fs fuel ts enough i =
    let started = Started-InPlace os fs (main os argv fs) (main-Started os argv fs) i in
    (started, service_thread-InPlace fuel ts (main os argv fs).fs enough started)
