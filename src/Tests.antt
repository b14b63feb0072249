-- ===== src/Tests.antt =====
-- Concrete runs of the models.
mod Transfer
mod Server
mod Requests
mod Sync
mod Loop
mod Forwards
mod Client
