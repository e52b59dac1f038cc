-- ===== src/Examples.antt =====
-- Concrete runs of the models, and the theorems that have conditions at points where they hold.
mod World
mod Streams
mod Loopers
mod Checker
mod Carried
mod Deferred
mod Hesitant
mod Timers
mod Loops
mod Intervals
mod Aborts
mod Scripts
mod Throws
mod Violations
mod Text
