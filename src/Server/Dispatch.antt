-- ===== src/Server/Dispatch.antt =====
-- One round of `service_thread` of app/server.c behind the queue: the operation code is read, and the
-- service that it names is run. Any other code is passed over.
use ds_lab_assignment.Prelude.{ℕ, if◌then◌else◌, int_eq, List, [], ◌∷◌, Option, some, str_eq, ◌>>=◌}
use ds_lab_assignment.Dbms.Fs.{Node}
use ds_lab_assignment.Util.Codes.{
  gen_err_any, register_op, unregister_op, connect_op, disconnect_op, send_op,
}
use ds_lab_assignment.Util.Types.{Request}
use ds_lab_assignment.Services.World.{World, Stack, receive}
use ds_lab_assignment.Services.Users.{srv_register, srv_unregister, srv_connect, srv_disconnect}
use ds_lab_assignment.Services.Send.{srv_send}

-- The choice by `strcmp`. Only CONNECT has a loop that needs fuel.
unfoldable pub dispatch : Stack → ℕ → Request → World → Option World
dispatch s fuel request w =
    if str_eq request.op_code register_op
    then some (srv_register s request w)
    else if str_eq request.op_code unregister_op
    then some (srv_unregister request w)
    else if str_eq request.op_code connect_op
    then srv_connect s fuel request w
    else if str_eq request.op_code disconnect_op
    then some (srv_disconnect s request w)
    else if str_eq request.op_code send_op
    then some (srv_send s request w)
    else some w

-- The round: `request` is uninitialised, so the operation code is read over what the stack holds.
unfoldable pub serve : Stack → ℕ → World → Option World
unfolding receive dispatch
serve s fuel w =
    let r = receive s.request.op_code w in
    if int_eq r.result gen_err_any
    then some r.world
    else dispatch s fuel (record s.request { op_code = r.string }) r.world

-- A connection that a service thread takes from the queue, and what its stack holds then.
pub record Taken : Type 0 where
  pub stack : Stack
  pub world : World

-- The world of a connection on a tree that others leave: which calls fail, and where directories list
-- new names, is the connection's own.
abbrev pub over : Node → World → World
over root w = record w { fs = record w.fs { root = root } }

-- The loop of a service thread over the connections that it takes, on one database: what each leaves.
-- `none`: the fuel of a CONNECT was not enough.
unfoldable pub service_thread : ℕ → List Taken → Node → Option (List World)
unfolding serve
service_thread fuel [] root = some []
service_thread fuel (t ∷ ts) root = do
  w ← serve t.stack fuel (over root t.world)
  ws ← service_thread fuel ts w.fs.root
  some (w ∷ ws)
