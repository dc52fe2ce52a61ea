-- ===== src/Common.antt =====
-- libs/common/src: helpers that the services share.
pub mod Arrays
mod Tests
