-- ===== src/Cache.antt =====
-- core/cat/cache: items with a time to live, the two stores, and what both promise.
-- Time is counted in ticks of a clock that stands for `time.time()`.
pub mod Item
pub mod Spec
pub mod InMemory
pub mod FileSystem
pub mod History
pub mod Stores
mod Tests
