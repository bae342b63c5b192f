-- ===== src/Remote.antt =====
-- chiasim/remote and utils/cbor_messages.py: how a client calls a ledger through a socket.
pub mod Streamable
pub mod Frames
pub mod Decorators
pub mod Server
pub mod Client
pub mod Writer
