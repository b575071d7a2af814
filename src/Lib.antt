-- ===== src/Lib.antt =====
-- The program is a messenger: a listener for peers, who prove that they hold the key they show; a
-- WebSocket server with an API for the user's front end; and a connection through a SOCKS5 proxy.
-- This library models the parts below and proves what makes them right.
--
-- Parts, and where they stand (paths from the repository's root):
-- - Protocol: vcmp/src/protocol.c and vcmp/include/vcmp/protocol.h. A packed struct is a record; its
--   bytes, as they go over the wire, are `header_bytes`, `handshake_bytes` and `data_bytes`.
-- - Rsa: vcmp/src/rsa.c. OpenSSL is the record `Rsa.Openssl.Evp`; each function gives its result with
--   the contexts and buffers that it makes and frees.
-- - Randdata: vcmp/src/util/randdata.c. `rand()` is a function of the round.
-- - Listener: vcmp/src/listener.c. `read_cb` takes a peer and what is in the buffer, and gives the
--   calls that it makes and the peer, or none where the peer was freed. Its `switch` is `dispatch`,
--   with a function for each case (Listener/Stages) and one for each stretch of a case up to the next
--   call that can fail. `Listener.Progress.Reaches` is the life of a peer: it is accepted, and then kept
--   by any number of callbacks, each with answers of the libraries of its own (`Env`).
-- - Frame: vcmp/src/websockets/frame.c. A pointer into the buffer is an offset.
-- - Handshake: vcmp/src/websockets/handshake.c. The hash table is the parameter `Uthash`; an entry is its
--   two arrays, which `malloc` gives with what they hold.
-- - WebSockets: vcmp/src/websockets/websockets.c. Its callbacks give the calls that they make, those of
--   the application (`ws_ctx_t`) among them, and the client as they leave it. `ws_free_handshake` is a
--   call.
-- - Api: vcmp/src/api.c. The static `api_user_bev` is an address that is passed on. `Api.World` puts
--   the API and the WebSocket server together: connections that are made, read and ended, in any order
--   (`Happens`), where a freed address may be given again.
-- - Socks5: vcmp/src/socks5.c. A context is freed as a whole; its pointers may never have been set
--   (`wild`), as `malloc` does not clear what it gives (`Fresh`). Socks5/Request is `socks5_send_req`,
--   Socks5/Contexts the constructors and `socks5_client_init`; Socks5/Cases lists what a callback does, and
--   Socks5/Runs puts any number of them in a row (`Reaches`), the last of which may free the context.
-- - Ini: vcmp/lib/ini.c and vcmp/lib/ini.h. A block of memory is the number of its allocation, and `malloc`
--   tells of each number whether it succeeds; a linked list is a list, and a pointer to a section its
--   place. Ini/Store puts configurations together and looks into them, Ini/Frees is `ini_free`,
--   Ini/Parser is the `switch` of `ini_parsebuf` with a function for each state, and Ini/File its loop
--   and `ini_parse`. A pointer into the buffer is the bytes before it and those from it on. What the
--   functions are for is said by `first_value` (Ini/Lookup) and by `Line` (Ini/Reading).
-- - Main: vcmp/main.c, which reads the configuration, and starts the listener and the API with it. A
--   variable that is read behind `error` may not have been written (`Local`).
-- - Libevent: what the callbacks of the servers and the client are given.
--
-- Conventions. A byte is a number, and an object in memory is the list of its bytes. A read or a write
-- outside of an object is `fault`, and so is a read of bytes that were never written; an address that
-- is only computed is not. The entries of the handshake are an exception: what their memory holds at
-- first is given. A conversion to w bits is `% 2 ^ w`. The host is little endian and has
-- pointers and `size_t` of 64 bits. A buffer of libevent is its length and its first extent, the one
-- that `evbuffer_peek` gives. `rand`, `malloc`, `time`, `uuid_generate` and the functions of libevent and
-- OpenSSL are parameters, answered anew in each callback. Loops recurse on the number of rounds
-- left, or on the list that they go over. Only the loop of the parser of configuration files, which may
-- step back, has fuel: for twice the bytes of the buffer, and one turn.
--
-- Not modelled: calls of the log; frees of buffers that one callback makes and drops; vcmp/lib/yyjson.c,
-- vcmp/lib/log.c and vcmp/include/vcmp/websockets/uthash.h, which are libraries of others;
-- `ini_dump_config`, which only logs; the seed of `rand` and the event loop itself; the tests, and the
-- web front end.
pub mod Prelude
pub mod Libevent
pub mod Frame
pub mod Handshake
pub mod WebSockets
pub mod Api
pub mod Socks5
pub mod Protocol
pub mod Rsa
pub mod Randdata
pub mod Listener
pub mod Ini
pub mod Main
