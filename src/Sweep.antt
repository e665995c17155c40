-- ===== src/Sweep.antt =====
-- internal/sweep: the search for the lowest memory limit that passes (search.go), and how one Docker
-- attempt is judged (docker.go).
pub mod Search
pub mod Docker
