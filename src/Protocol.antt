-- ===== src/Protocol.antt =====
-- custom_components/comelit_man/protocol.py: the wire format.
pub mod Header
pub mod Channel
pub mod Ctpp
pub mod Call
pub mod Rtp
