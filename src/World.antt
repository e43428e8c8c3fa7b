-- ===== src/World.antt =====
-- game/world.h, game/world.cpp, game/world_task.h: the world and its tasks.
pub mod ChatTask
pub mod PlayerTask
pub mod BlockTask
pub mod FlatWorld
pub mod Session
pub mod BlockHistory
pub mod Broadcast
