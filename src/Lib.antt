-- ===== src/Lib.antt =====
-- A model of the core of skynet (skynet/ in this repository): an actor framework in C. Services
-- own message queues; worker threads take a queue from a global queue, dispatch some of its messages
-- and put it back; a timer thread and a socket thread push messages; services are found by
-- 32-bit handles and by names, and are reference counted.
--
-- Parts and files:
-- - Prelude: Boolean tests, lists and tables on native numbers, lemmas on arrays.
-- - Mq: skynet/skynet-src/skynet_mq.c, the ring of one service. `push`, `pop`, `create`,
--   `take_overload`, `mark_release`, `drop_queue` are the functions of those names with the
--   prefix skynet_mq_; `put`, `grow` and `wake` are the three parts of skynet_mq_push.
-- - GlobalMq: the linked list of queues in the same file; `globalmq_push` and `globalmq_pop`.
-- - Scheduler: skynet/skynet-src/skynet_server.c and the worker loop of skynet_start.c. A `World` is
--   the shared state, a `Pc` the place where a thread stands, `advance` one step of a thread, and
--   `Step` any step of the system; the child modules prove one invariant of all reachable worlds.
--   It uses Mq and GlobalMq for what happens under the locks.
-- - Timer: skynet/skynet-src/skynet_timer.c. `add_node`, `timer_shift`, `timer_execute`,
--   `timer_update` are the functions of those names; `updatetime` is skynet_updatetime.
-- - Names: the table of names in skynet/skynet-src/skynet_handle.c; `findname`, `insert_name`
--   (skynet_handle_namehandle) and `retire_names` (the loop of skynet_handle_retire).
-- - Databuffer: skynet/service-src/databuffer.h, the bytes that a connection has received;
--   functions have the names of the source. Gate: the part of skynet/service-src/service_gate.c that
--   cuts them into packets (`dispatch_message`, `forward` for _forward).
-- - Connections: the table of connections in skynet/service-src/service_gate.c, on HashId and Gate;
--   `dispatch_socket_message` and `forward_agent` are the functions of those names, `client_message` is
--   the case PTYPE_CLIENT of _cb, and `start` is the state that gate_init makes.
-- - HashId: skynet/service-src/hashid.h, the ids of the gate's connections; functions have their names
--   without the prefix hashid_.
-- - Handles: the slots of services in skynet/skynet-src/skynet_handle.c; `register`, `grab_handle`,
--   `retire_slot` and `retire_round` (a round of skynet_handle_retireall).
-- - RwLock: skynet/skynet-src/rwlock.h, the version with atomic operations, as steps of any number of
--   threads.
-- - Netpack: skynet/lualib-src/lua-netpack.c, the packets of 2-byte headers that a Lua gate cuts;
--   functions have the names of the source, `pop_packet` is lpop and `pack` is lpack.
-- - Seri: skynet/lualib-src/lua-seri.c; functions have the names of the source. `encode` is what the
--   bytes of a value are, `packable` which values can be packed, `image` what is read back.
-- - SocketWrites: in skynet/skynet-src/socket_server.c the writes and the closing of one connected TCP
--   socket. `server_send` and `server_send_low` are socket_server_send and
--   socket_server_send_lowpriority, `send_list` is send_list_tcp, `send_both` is send_buffer_ with
--   `send_low`, `after_low` and `finish_writing` as its steps 2, 3 and 4, `read_end` is
--   forward_message_tcp when nothing is left to read, `ctrl_cmd` the commands K, W, D and P, and the
--   others have the names of the source. `pipe` is the control pipe, with the requests for this socket
--   only: inc_sending_ref and the write into the pipe are one step, so `sending` counts requests there.
--   The command W after a direct write is a step of its own, `send_wake`, and `waking` counts the threads
--   that have it to send.
-- - Monitor: skynet/skynet-src/skynet_monitor.c; `check`, and `trigger` as its three stores, between which
--   another thread may check.
--
-- Numbers are natural numbers; where the source relies on the width of a type the remainder is
-- written out (the 32-bit time of the timer). Pointers to shared objects are numbers or tables.
-- What a lock covers is one step. A failed assertion or the use of a null pointer is `none`, except
-- for these assertions, which have no counterpart: a list of nodes has its last node as tail, so those
-- on db->tail in databuffer.h have none, nor that on c->next in hashid.h; and in skynet_server.c those
-- on ctx->queue (a context and its queue have one number) and on ctx->init. The registration of a new
-- context and the making of its queue are one step.
--
-- Fuel: `raise_threshold` doubles a threshold that is not 0, and has the length as its fuel;
-- `drop_queue` has the length and one; `search_name` has the size of the range; `shift_levels` has
-- the four levels; `frame_loop` has the bytes of the buffer and two; `push_more` the number of bytes;
-- `register` the doublings up to 2^24 slots; `double_until` the number of nodes;
-- `wb_push` the bytes and one; `retire_all` two rounds. `unpack_on` has the room of the C stack as its
-- fuel, and `luaseri_unpack` takes it to be three calls for each byte and one.
--
-- Not modelled: system calls and start-up (modules, configuration, daemon), logging, the allocator,
-- of the socket server the poll, the slots and the reuse of ids, UDP and what comes before a
-- connection, the services logger and snlua, the harbor, the bindings to Lua, the vendored
-- libraries under skynet/3rd and the Lua code. The clock readings are arguments of the timer. The
-- memory model of the atomic operations is taken to be sequentially consistent.
pub mod Connections
pub mod Databuffer
pub mod Gate
pub mod GlobalMq
pub mod Handles
pub mod HashId
pub mod Monitor
pub mod Mq
pub mod Names
pub mod Netpack
pub mod Prelude
pub mod RwLock
pub mod Scheduler
pub mod Seri
pub mod SocketWrites
pub mod Timer
