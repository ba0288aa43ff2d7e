-- ===== src/Contract/Startup.antt =====
-- The server from the start of `main` (app/server.c) on, against the contract.
use ds_lab_assignment.Prelude.{
  ℕ, ◌<◌, ◌^◌, ◌≡◌, ◌⊎◌, inl, inr, refl, ◌∙◌, false, List, [], ◌∷◌, none, some, Bytes, codes, arith,
  is_neg, pos, str_eq, str_eq_refl, sym,
}
use ds_lab_assignment.Util.Codes.{db_dir, dbms_success}
use ds_lab_assignment.Util.Decimal.{decimal}
use ds_lab_assignment.Util.StrToNum.Laws.{str_to_num-decimal, str_to_num-uint}
use ds_lab_assignment.Dbms.Fs.{
  Fs, dir, Entries, end, walk, child, insert_new, names, change, create, components, open_dir,
  make_dir,
}
use ds_lab_assignment.Dbms.Fs.Laws.{child-insert_child}
use ds_lab_assignment.Dbms.Remove.Laws.{NoFaults}
use ds_lab_assignment.Dbms.Util.{opendir, changed, open_directory}
use ds_lab_assignment.Dbms.Ops.{db_init_db}
use ds_lab_assignment.Services.World.{World}
use ds_lab_assignment.Server.Dispatch.{service_thread}
use ds_lab_assignment.Server.Start.{Os, listening, set_up, open_server, announce, main}
use ds_lab_assignment.Contract.{Office}
use ds_lab_assignment.Contract.Holds.{Holds, tables_of}
use ds_lab_assignment.Contract.Runs.{Visit, taken_of, AllReady, AllMeet, service_thread_meets}

-- A working directory without a database, and no users.
pub record Fresh (fs : Fs) (office : Office) : Type 0 where
  pub sound : NoFaults fs.faulty
  pub entries : Entries
  pub here : fs.root ≡ dir entries
  pub none_yet : child db_dir entries ≡ none
  pub nobody : (name : Bytes) → office name ≡ none

components_db : components db_dir ≡ db_dir ∷ []
unfolding components
components_db = refl

-- The database as it stands behind `db_init_db`.
db_init_db-Fresh :
    (fs : Fs) (office : Office)
    → Fresh fs office
    → (fs' : Fs) × (db_init_db fs ≡ (dbms_success, fs')) × Holds fs' office
unfolding db_init_db open_directory opendir walk change changed create child
db_init_db-Fresh fs office f =
    let fs' = record fs { root = dir (insert_new fs.place db_dir (dir end) f.entries) } in
    let there =
      child-insert_child (fs.place db_dir (names f.entries)) db_dir db_dir (dir end) f.entries
        f.none_yet in
    (
      fs',
      ground (
        arith,
        components_db,
        f.sound open_dir db_dir,
        f.sound make_dir db_dir,
        f.here,
        f.none_yet,
        there,
        str_eq_refl db_dir,
      ),
      record {
        sound = f.sound;
        at = λ name slash. rw (f.nobody name) (record {
          tables = end;
          db = ground (arith, there, str_eq_refl db_dir);
          absent = ground (arith, there, str_eq_refl db_dir);
        });
      },
    )

-- A database that is there is kept.
db_init_db_kept : (fs : Fs) (office : Office) → Holds fs office → db_init_db fs ≡ (dbms_success, fs)
unfolding db_init_db open_directory opendir
db_init_db_kept fs office h =
    let (tables, db) = tables_of fs [] (office []) (h.at [] tt) in
    ground (arith, components_db, h.sound open_dir db_dir, db)

-- The calls of the system with which `main` comes to its loop.
pub record Works (os : Os) (port : ℕ) : Type 0 where
  pub socket : is_neg os.socket ≡ false
  pub setsockopt : is_neg os.setsockopt ≡ false
  pub bind : is_neg (os.bind port) ≡ false
  pub listen : is_neg os.listen ≡ false
  pub pthread_create : (i : ℕ) → os.pthread_create i ≡ pos 0
  pub gethostname : is_neg os.gethostname ≡ false
  pub ip : ℕ
  pub gethostbyname : os.gethostbyname ≡ some ip

main_lem :
    (os : Os) (port : ℕ) (program : Bytes) (fs fs' : Fs)
    → Works os port
    → port < 2 ^ 16
    → db_init_db fs ≡ (dbms_success, fs')
    → main os (program ∷ codes "-p" ∷ decimal port ∷ []) fs ≡ listening none port os fs'
unfolding main set_up open_server announce str_eq
main_lem os port program fs fs' works small made =
    let cast = sym (str_to_num-uint (decimal port)) ∙ str_to_num-decimal port (omega arith) in
    ground (
      arith, cast, made, works.socket, works.setsockopt, works.bind, works.listen,
      works.gethostname, works.gethostbyname,
    )

-- The server, from the start of `main` with "-p" and a port below 2^16, where the calls of `main` succeed
-- and the file system's do not fail, in a working directory without a database and with no users in
-- `office`, or with a database that holds the users of `office`: it comes to accept connections on
-- that port, and a service thread that then takes any number of connections, each `Ready` for a request at
-- the users that the requests before it leave and with calls of the file system that do not fail, ends every round, and leaves after each the database, the
-- replies and the frames that the contract gives. A message that has to wait comes among the others
-- where the directory lists its file in that request, which is left open.
pub server_refines :
    (os : Os) (port : ℕ) (program : Bytes) (fs : Fs) (office : Office) (fuel : ℕ)
    (visits : List Visit)
    → Works os port
    → port < 2 ^ 16
    → Fresh fs office ⊎ Holds fs office
    → AllReady fuel visits office
    → (fs' : Fs) × (main os (program ∷ codes "-p" ∷ decimal port ∷ []) fs
        ≡ listening none port os fs')
      × (ws : List World) × (service_thread fuel (taken_of visits) fs'.root ≡ some ws)
      × AllMeet fs'.root office visits ws
server_refines os port program fs office fuel visits works small (inl fresh) ready =
    let (fs', made, h) = db_init_db-Fresh fs office fresh in
    let (ws, served, all) = service_thread_meets fuel visits fs' office h ready in
    (fs', main_lem os port program fs fs' works small made, ws, served, all)
server_refines os port program fs office fuel visits works small (inr h) ready =
    let (ws, served, all) = service_thread_meets fuel visits fs office h ready in
    (fs, main_lem os port program fs fs works small (db_init_db_kept fs office h), ws, served, all)
