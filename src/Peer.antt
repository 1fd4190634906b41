-- ===== src/Peer.antt =====
-- The server and the client program: peer/server/server.cc and peer/client/client.cc.
pub mod Programs
pub mod Hello
pub mod RoundTrip
pub mod Send
pub mod Text
pub mod Call
pub mod Connect
mod Tests
