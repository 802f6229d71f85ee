-- ===== src/Tests.antt =====
-- The theorems at concrete inputs, and runs of the models, by part.
mod Coroutine
mod Guid
mod Timer
mod Transaction
mod Server
mod DoubLink
mod DateTime
mod Demo
mod Network
mod Poll
