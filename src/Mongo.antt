-- ===== src/Mongo.antt =====
-- lib/util/mongoapi, over the driver that it calls.
pub mod Driver
pub mod Api
pub mod Restful
pub mod Server
pub mod Upsert
pub mod PutMany
pub mod Patch
pub mod Memory
mod Tests
