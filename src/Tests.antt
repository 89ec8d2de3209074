-- ===== src/Tests.antt =====
-- Concrete runs of the theorems of all parts.
mod Publishing
mod Receiving
mod Lifecycles
mod Committing
mod Building
mod Queues
mod Storing
mod Transport
mod Watching
mod Messages
mod Dispatching
