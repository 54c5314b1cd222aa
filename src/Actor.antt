-- ===== src/Actor.antt =====
-- src/actor.rs, part by part: the data (Types), what the actors share (World), one message
-- (Message), the loop of one actor (Run), and what is proved of them.
pub mod Types
pub mod World
pub mod Message
pub mod Spawn
pub mod Ref
pub mod Ask
pub mod Run
