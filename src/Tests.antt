-- ===== src/Tests.antt =====
-- Concrete requests, streams and states on which the theorems are applied.
mod Codec
mod Streams
mod Requests
mod Models
mod Logins
mod Storage
mod Refreshing
mod Serving
mod Answering
mod Admission
mod Callbacks
mod Layout
mod Running
mod Commands
mod Delivery
