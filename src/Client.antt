-- ===== src/Client.antt =====
-- client/transport.py: what a client session does of its own: the frame ids that it submits, the
-- results that it reads and routes, and when it asks for another transport.
pub mod Receive
pub mod Submit
pub mod Monitor
pub mod Router
