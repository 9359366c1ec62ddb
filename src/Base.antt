-- ===== src/Base.antt =====
-- The library of src/base.
pub mod FixedBuffer
pub mod AsyncLog
pub mod Date
pub mod FileUnit
pub mod LogFile
pub mod LstTimer
pub mod BlockQueue
pub mod ThreadPool
pub mod TimeZone
pub mod LogStream
pub mod BoundedBlockQueue
