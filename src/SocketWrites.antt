-- ===== src/SocketWrites.antt =====
-- skynet/skynet-src/socket_server.c: what is written to one connected TCP socket. Worker threads write
-- directly or send requests through the control pipe, and the socket thread writes the two lists of
-- buffers. The functions are in State, Sending, Calls and Events.
pub mod State
pub mod Sending
pub mod Calls
pub mod Events
pub mod Lists
pub mod Order
pub mod Closing
pub mod Writing
pub mod LowList
pub mod Appends
pub mod Requests
pub mod Commands
pub mod Direct
pub mod Steps
pub mod Drains
pub mod Awake
pub mod WakeUp
mod Tests
