-- ===== src/Server/Start/Laws.antt =====
-- How `main` of app/server.c starts and how it fails, whatever the calls of the system give.
use ds_lab_assignment.Prelude.{
  ℕ, ◌%◌, ◌^◌, ◌<◌, true, false, List, [], ◌∷◌, none, some, Bytes, arith, not, codes, is_neg,
  if_elim, str_eq,
}
use ds_lab_assignment.Util.Codes.{gen_err_any, gen_err_inv_args}
use ds_lab_assignment.Util.StrToNum.{CastType, Cast, str_to_num}
use ds_lab_assignment.Dbms.Fs.{Fs}
use ds_lab_assignment.Dbms.Ops.{db_init_db}
use ds_lab_assignment.Server.Start.{
  is_null, Os, Server, returned, listening, announce, open_server, server_port, set_up, main,
}

-- The ways in which a start may end, on the file system `fs`.
pub data Started (os : Os) (fs : Fs) : Server → Type 0 where
  refused_args : Started os fs (returned gen_err_inv_args false fs)
  no_database_or_socket : Started os fs (returned gen_err_any false (db_init_db fs).1)
  socket_closed : Started os fs (returned gen_err_any true (db_init_db fs).1)
  host_unknown :
      (port : ℕ)
      → port < 2 ^ 16
      → Started os fs (listening (some gen_err_any) port os (db_init_db fs).1)
  serves : (port : ℕ) → port < 2 ^ 16 → Started os fs (listening none port os (db_init_db fs).1)

set_up-Started : (os : Os) (c : Cast) (fs : Fs) → Started os fs (set_up os c fs)
unfolding set_up open_server announce
set_up-Started os c fs =
    if_elim (Started os fs) (is_neg c.result) (λ _. refused_args)
      λ _.
        if_elim (Started os fs) (is_neg (db_init_db fs).0) (λ _. no_database_or_socket)
          λ _.
            if_elim (Started os fs) (is_neg os.socket) (λ _. no_database_or_socket)
              λ _.
                if_elim (Started os fs) (is_neg os.setsockopt) (λ _. socket_closed)
                  λ _.
                    if_elim (Started os fs) (is_neg (os.bind (server_port c % 2 ^ 16)))
                      (λ _. socket_closed)
                      λ _.
                        if_elim (Started os fs) (is_neg os.listen) (λ _. socket_closed)
                          λ _.
                            if_elim (Started os fs) (is_neg os.gethostname)
                              (λ _. host_unknown (server_port c % 2 ^ 16) (omega arith))
                              λ _.
                                if_elim (Started os fs) (is_null os.gethostbyname)
                                  (λ _. host_unknown (server_port c % 2 ^ 16) (omega arith))
                                  λ _. serves (server_port c % 2 ^ 16) (omega arith)

pub main-Started : (os : Os) (argv : List Bytes) (fs : Fs) → Started os fs (main os argv fs)
unfolding main
main-Started os [] fs = refused_args
main-Started os (program ∷ []) fs = refused_args
main-Started os (program ∷ option ∷ []) fs = refused_args
main-Started os (program ∷ option ∷ port ∷ []) fs =
    if_elim (Started os fs) (not (str_eq option (codes "-p"))) (λ _. refused_args)
      λ _. set_up-Started os (str_to_num port CastType.int) fs
main-Started os (program ∷ option ∷ port ∷ more ∷ argv) fs = refused_args
