-- ===== src/Client.antt =====
-- The WebSocket client (client/): commands from the server, their dispatch, the queue of results
-- for a reconnect, and the workers of a connection.
pub mod Message
pub mod Dispatch
pub mod Events
pub mod Streams
pub mod Screen
pub mod Apps
