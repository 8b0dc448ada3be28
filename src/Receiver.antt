-- ===== src/Receiver.antt =====
-- custom_components/comelit_man/rtp_receiver.py: the UDP/TCP media receiver.
pub mod State
pub mod Nal
pub mod Packets
pub mod AudioSender
