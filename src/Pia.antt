-- ===== src/Pia.antt =====
-- The cloud protocol of custom_components/hymer_connect_metadata/pia_decoder.py.
pub mod Wire
pub mod Slots
pub mod Requests
pub mod Subscriptions
pub mod Envelopes
