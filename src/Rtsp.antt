-- ===== src/Rtsp.antt =====
-- custom_components/comelit_man/rtsp_server.py: the local RTSP/RTP server.
pub mod Packets
pub mod Ulaw
pub mod State
pub mod Timestamp
pub mod Broadcast
pub mod Video
pub mod Audio
pub mod Stream
pub mod Session
pub mod Setup
pub mod Requests
pub mod Sdp
pub mod Handler
