-- ===== src/Jobs.antt =====
-- crates/swarmlite-controller/src/jobs.rs: scheduled jobs with a cursor for each service. The
-- parsers of cron expressions and time zones and the search for the next occurrence (the packages
-- croner, chrono and chrono-tz) are the parameter `occurrence`: the next time of a schedule in a
-- time zone strictly after a time, if there is one. `run_schedule` is the body of the loop over the
-- services, and `finish_old` the last loop. Grace periods are below 2 ^ 31 seconds (compose.rs
-- refuses larger ones), so the source's cast of the milliseconds to an `i64` is exact.
mod Cursor
mod Pass
unfoldable pub use Cursor.*
unfoldable pub use Pass.*
pub mod Once
mod Tests
