-- ===== src/Seri.antt =====
-- skynet/lualib-src/lua-seri.c: Lua values as bytes, for the messages of Lua services. The Lua stack is
-- the argument and the result; a Lua error is a result of its own.
pub mod Blocks
pub mod Value
pub mod Pack
pub mod Unpack
pub mod Content
pub mod Encode
pub mod Packing
pub mod Reading
pub mod Leaves
pub mod RoundTrip
pub mod Ends
mod Tests
