-- ===== src/Calendar.antt =====
-- Jalali dates: shared/pkg/jalali.
pub mod Jalali
pub mod Cycle
pub mod Days
mod Tests
