-- ===== src/Server/Replies.antt =====
-- What a round of `service_thread` (app/server.c) may reply.
use ds_lab_assignment.Prelude.{ℕ, none, ◌≡◌, ◌<◌, refl, length, if_elim, int_eq, str_eq}
use ds_lab_assignment.Util.Codes.{
  gen_err_any, register_op, unregister_op, connect_op, disconnect_op, send_op,
}
use ds_lab_assignment.Util.Types.{Request}
use ds_lab_assignment.Services.World.{World, Stack, receive}
use ds_lab_assignment.Services.Replies.{
  Silent-Replied, Replied-before, same, srv_register_lem, srv_unregister_lem, srv_disconnect_lem,
}
use ds_lab_assignment.Services.Replies.Send.{srv_send_lem}
use ds_lab_assignment.Services.Replies.Connect.{Ends, Ends-some, srv_connect_lem}
use ds_lab_assignment.Server.Dispatch.{dispatch, serve}

dispatch-Ends :
    (s : Stack) (fuel : ℕ) (request : Request) (w : World)
    → w.beyond ≡ none
    → length w.peers < fuel
    → Ends w (dispatch s fuel request w)
unfolding dispatch
dispatch-Ends s fuel request w ends enough =
    if_elim (Ends w) (str_eq request.op_code register_op)
      (λ _. Ends-some (srv_register_lem s request w))
      λ _.
        if_elim (Ends w) (str_eq request.op_code unregister_op)
          (λ _. Ends-some (srv_unregister_lem request w))
          λ _.
            if_elim (Ends w) (str_eq request.op_code connect_op)
              (λ _. srv_connect_lem s fuel request w ends enough)
              λ _.
                if_elim (Ends w) (str_eq request.op_code disconnect_op)
                  (λ _. Ends-some (srv_disconnect_lem s request w))
                  λ _.
                    if_elim (Ends w) (str_eq request.op_code send_op)
                      (λ _. Ends-some (srv_send_lem s request w))
                      λ _. Ends-some (Silent-Replied (same w w refl refl refl refl))

pub serve-Ends :
    (s : Stack) (fuel : ℕ) (w : World)
    → w.beyond ≡ none
    → length w.peers < fuel
    → Ends w (serve s fuel w)
unfolding serve receive
serve-Ends s fuel w ends enough =
    let r = receive s.request.op_code w in
    let read = same w r.world refl refl refl refl in
    let e = dispatch-Ends s fuel (record s.request { op_code = r.string }) r.world ends enough in
    if_elim (Ends w) (int_eq r.result gen_err_any) (λ _. Ends-some (Silent-Replied read))
      λ _. record { after = e.after; result = e.result; replied = Replied-before read e.replied }
