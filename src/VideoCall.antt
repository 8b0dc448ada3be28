-- ===== src/VideoCall.antt =====
-- custom_components/comelit_man/video_call.py: the signalling of a video call.
pub mod State
pub mod Talk
pub mod Names
pub mod Codec
pub mod Start
pub mod Renew
pub mod Monitor
pub mod Inbound
pub mod Ready
pub mod Answer
