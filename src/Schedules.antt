-- ===== src/Schedules.antt =====
-- schedules.py: recurring dispatch. The children follow the file: the cron expressions, the next
-- occurrence, the table of schedules, and the ticker that claims and dispatches occurrences.
pub mod Cron
pub mod Next
pub mod Store
pub mod Ticker
mod Tests
