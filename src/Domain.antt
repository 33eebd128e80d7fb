-- ===== src/Domain.antt =====
-- The data of the program (domain): messages, outputs, usage, events and their JSON form.
pub mod Json
pub mod Usage
pub mod Execution
pub mod Messages
pub mod Codec
pub mod Events
