-- ===== src/Examples.antt =====
-- The theorems at work on concrete connections, and runs of the model.
mod Window
mod Mode
mod Timers
mod Segments
mod Connections
mod Applications
mod Unmodified
mod Transitions
mod Recovery
