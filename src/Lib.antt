-- ===== src/Lib.antt =====
-- A model of the messaging server of this repository: its services, its database on disk, its strings
-- on sockets, and its connection queue with the threads that share it.
--
-- Parts and files:
--   Util, NetUtil: byte transfer, lines and numbers (src/util.c, src/netUtil.c). A function that calls
--     `read` or `write` takes the results of its calls as a list. Util.Codes and Util.Types hold the
--     constants and structs of include/DS-Lab-Assignment/util.h; a char array is the C string in it.
--   Dbms: the database (src/dbms/dbms.c, src/dbms/dbmsUtil.c) over Dbms.Fs, the part of POSIX that it
--     calls: a tree of directories and files, calls that may fail, and directories that list a new name
--     anywhere among the others. Paths are built as texts and cut into names again, as the system
--     does it. Dbms.Account says what a user's table holds, and Dbms.InPlace that each struct stands
--     at the path that its user, type and message ID name.
--   Services: the handlers and auxiliary functions of src/services.c over a World, which is the
--     database, the client's socket, and what other clients' listening threads do and get. A struct on
--     a handler's stack starts as a Stack says, since the code leaves members uninitialised.
--     Services.Replies and Services.InPlace are about failing calls; Services.Send.Race and
--     Services.Users.Race about two requests at once; Services.Users.Unwritten about an entry that is
--     lost, Services.Users.Unmade about one that is not made, Services.Pending.Resent about a message
--     that cannot be deleted, and Services.Users.Alias about usernames with a slash.
--   Server: the queue, the wait conditions, the signals and the thread pool (app/server.c) as a step
--     relation in which a part that holds the mutex is one step; the dispatch of a request; and `main`
--     up to its loop, over what the system's calls give (Server.Start), with what the handler of SIGINT
--     destroys (Server.Shutdown).
--   Contract: what the server promises, as an office of users with addresses and waiting messages, with
--     no files, structs or sockets, and one function `handle` for all requests. Contract.Holds says when
--     a database holds an office; Contract.Wire how a client spells a request; Contract.Refines sets the
--     services against `handle`, Contract.Runs and Contract.Startup a whole run of the server;
--     Contract.Isolation says what a request leaves alone whichever calls fail.
-- A service calls the database's functions (Services.World.io_op) and the functions of NetUtil; a
-- service thread calls the services (Server.Dispatch).
--
-- Function names are those of the code, and a helper carries the part of a function that its comment
-- names. A function that changes state returns the new state beside its result.
--
-- Bounds and fuel: lines have room for 255 bytes and a zero, the queue for 10 connections, the pool 5
-- threads; message IDs are unsigned ints, ports are taken modulo 2 ^ 16. Only the loop over pending
-- messages takes fuel. Where no call fails it needs one unit for each message and one for the end;
-- whatever fails, one unit more than there are listening threads to connect to is enough, since a
-- message that is sent uses one up. Where they take connections without end and a message cannot be
-- deleted, no fuel is enough: the loop of the code does not end (Services.Pending.Resent). Recursion
-- elsewhere follows a list of calls, a text or the tree.
--
-- Not modelled: log output; what `strtof` of the C library computes, which is a parameter of the
-- type FLOAT of `str_to_num`; what "." and ".." mean in a path name, where only a username with a
-- slash can put them; that a call fails and later succeeds on the same path within one request, or
-- the other way round (each request has its own failing calls), and that `readdir` changes the
-- order of files that stay; what a listening thread gets of a string on which `write` fails; the
-- number of open descriptors; SIGPIPE, which ends the server if it writes to a socket that its peer
-- has closed; services that interleave on the database, but for two SENDs in Services.Send.Race and
-- two REGISTERs in Services.Users.Race; the client in python, whose listening threads are the peers
-- of the model.
pub mod Prelude
pub mod Util
pub mod NetUtil
pub mod Dbms
pub mod Services
pub mod Server
pub mod Contract
mod Tests
