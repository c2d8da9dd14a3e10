-- ===== src/Tests.antt =====
-- Runs on concrete data: the tables and events of the tests, and each theorem with hypotheses applied to them.
mod Data
mod Stores
mod Queues
mod Deliveries
mod Moves
mod Components
mod Admins
mod Feeds
mod Roles
mod Checks
mod Requests
mod Views
mod Caches
