-- ===== src/Vip.antt =====
-- custom_components/comelit_man/vip_listener.py: the listener for events on the CTPP channel.
pub mod Address
pub mod Message
pub mod Timestamp
pub mod Listener
