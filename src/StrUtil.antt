-- ===== src/StrUtil.antt =====
-- src/strutil.c: comparison without regard to case, and sizes.
pub mod Case
pub mod Sizes
