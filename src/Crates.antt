-- ===== src/Crates.antt =====
-- The third-party crates that the code calls, each behind what its documentation promises.
pub mod DashMap
pub mod IndexMap
pub mod LruCache
pub mod Codec
pub mod Serde
pub mod Crc
pub mod Hasher
pub mod Fs
pub mod SourceFs
pub mod Zstd
pub mod Float
pub mod Concrete
