-- ===== src/Tests.antt =====
-- The theorems at concrete data, and runs on small inputs that can be followed in the Go tests.
mod Integrity
mod Sweep
mod Rotator
mod Docker
mod Writer
mod Metrics
mod Harness
mod Command
mod Copyprobe
mod Csv
mod Whole
mod Report
mod Monitor
mod Program
mod Retention
mod Swept
mod Served
mod Lost
