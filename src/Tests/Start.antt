-- ===== src/Tests/Start.antt =====
-- A start of the server that fails.
use ds_lab_assignment.Prelude.{some, pos, negsuc}
use ds_lab_assignment.Server.Start.{Os}

-- no port can be had
abbrev taken_port : Os
taken_port = record {
  socket = pos 3;
  setsockopt = pos 0;
  bind = λ port. negsuc 0;
  listen = pos 0;
  pthread_create = λ i. pos 0;
  gethostname = pos 0;
  gethostbyname = some 7;
}
