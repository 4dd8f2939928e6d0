-- ===== src/Client.antt =====
-- The client library, src/libmunge: contexts (ctx.c), the transfer of a request and its response
-- (m_msg_client.c), munge_encode and munge_decode (encode.c, decode.c), and names (enum.c).
pub mod Ctx
pub mod Options
pub mod Transfer
pub mod Calls
pub mod Failures
pub mod Received
pub mod Decoding
pub mod Enum
mod Runs
