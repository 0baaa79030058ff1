-- ===== src/Lib.antt =====
-- miau, an IRC bouncer written in C: a model of its components and what they do.
--
-- A C string is the list of its bytes without the terminator (`Text`), NULL is `none`, and an int that
-- is -1 for "not found" is an Option. Allocation always succeeds, since the program's own wrappers in
-- src/common.c stop it otherwise. A result of `none` where the C function returns no such value is a
-- fault: an access out of range.
--
-- Files and the code they model:
--   Tools.antt      src/tools.c: case, pos, lastpos, nextword, lastword, randname, getuptime.
--   Common.antt     src/common.c: xstrcmp, xstrncmp, xstrcasecmp, as the test for 0 that all uses make.
--   Match.antt      src/match.c: match (its loop is match_loop) and match_replace.
--   Perm.antt       src/perm.c: add_perm, empty_perm and is_perm, on top of match_replace.
--   Commands.antt   src/commands.c: the hash table of IRC commands.
--   Table.antt      src/table.c: arrays of pointers with holes.
--   Ignore.antt     src/ignore.c: the ignore list, kept in such a table.
--   Irc.antt        src/irc.c: flood control of what goes to the server (irc_write, irc_write_head,
--                   irc_process_queue, and the allowance that check_timers of src/miau.c gives); in
--                   Irc/Track.antt the tracked sockets, in Irc/Read.antt the line reader irc_read.
--                   `cut` is what irc_write and irc_mwrite leave of a line, also where other files
--                   keep what was sent as a list of texts.
--   Channels.antt   src/channels.c: the lists of active, passive and old channels, on structures with
--                   addresses; in Channels/Join.antt the passive part of channel_join_list.
--   Parser.antt     src/parser.c: values; Parser/Settings.antt parse_param, Parser/Lists.antt the parameters
--                   of a line (with chanlog_add_rule and onconnect_add), Parser/Lines.antt the rest.
--   Automode.antt   src/automode.c: the queues of modes and the messages that give them.
--   Llist.antt      src/llist.c: doubly linked lists, on a memory of nodes in which a read or write of
--                   a node that is not allocated is a fault.
--   Matchlist.antt  src/matchlist.c: rules with a state each, the first match of which counts.
--   Qlog.antt       src/qlog.c: the quick log; Qlog/Replay.antt its replay, Qlog/Leave.antt the look
--                   through it that begins channel_rem of src/channels.c.
--   Server.antt     src/server.c: the servers and the choice of the next one, Server/Drop.antt the end
--                   of a connection, Server/Modes.antt the changes of modes,
--                   Server/Reply.antt and Server/Heard.antt server_reply,
--                   Server/Talk.antt and Server/Privmsg.antt the messages, and
--                   Server/Commands.antt PING and ERROR.
--   Client.antt     src/client.c: JOIN and PART without a server; Client/Message.antt messages and what
--                   is passed on, Client/Read.antt the dispatch of a line, Client/Drop.antt the end of
--                   connections.
--   Miau.antt       src/miau.c: the timers of the main loop, Miau/Clock.antt check_timers; Miau/Login.antt
--                   a client that wants in, Miau/Nick.antt get_nick, Miau/Away.antt the last client.
--   Dcc.antt        src/dcc.c: connections that miau stands in the middle of; Dcc/Request.antt and
--                   Dcc/Open.antt the requests, Dcc/Check.antt the sockets that are ready.
--   Remote.antt     src/remote.c: the command over the network that gives the nick free.
--   Onconnect.antt  src/onconnect.c: the lines that are sent at the beginning of a connection.
-- Each file's children hold the proofs, named for what they prove, and `Examples` the runs.
--
-- The loops of the program run over texts, lists and arrays, and are structural recursions here.
-- Where they run over indices or pointers they take fuel: the entries of the table in Table/Sweep.antt, the
-- servers in Server.antt and the nodes in Llist.antt, which is one step for each and enough; Dcc/Open.antt
-- counts the 15 ports that are tried. A call of the operating system is data: irc_read takes the results
-- of its calls of recv as a list, the flood control the times that the clock showed, and Dcc/Check.antt
-- what each call gives for a socket.
--
-- Not modelled: opening and resolving connections, the addresses of src/dcc.c and when its sockets are
-- closed; writing log files and other output; the greeting of the server, and what follows the switch of server_reply;
-- the commands to miau itself, the sockets of the main loop of src/miau.c, and the lists of src/list.c.
pub mod Prelude
pub mod Tools
pub mod Common
pub mod Match
pub mod Perm
pub mod Commands
pub mod Table
pub mod Ignore
pub mod Irc
pub mod Channels
pub mod Parser
pub mod Automode
pub mod Llist
pub mod Matchlist
pub mod Miau
pub mod Dcc
pub mod Qlog
pub mod Server
pub mod Client
pub mod Remote
pub mod Onconnect
