-- ===== src/Utils.antt =====
-- src/utils: the helpers on JSON values, on maps of extras and on random numbers.
pub mod Collections
pub mod Json
pub mod Rng
