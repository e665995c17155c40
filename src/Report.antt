-- ===== src/Report.antt =====
-- internal/report/report.go: the report records that the parts hand to one another. A `uint64` is a
-- number, an `int64` or `int` that may be negative is a ℤ, a pointer is an `Option`, a map is an
-- association list, and `float64` is the parameter `F`, since antt has no floats.
pub mod Atomic
use logrotate_cache_lab.Base.{ℕ, Bool, Option, List, Bytes}
use logrotate_cache_lab.Base.Int.{ℤ, pos}

abbrev pub schema_version : ℤ
schema_version = pos 1

pub record Sample : Type 0 where
  pub elapsed_ns : ℤ
  pub timestamp : Bytes
  pub strategy : Bytes
  pub run_id : Bytes
  pub memory_current : ℕ
  pub cache : ℕ
  pub rss : ℕ
  pub anon : Option ℕ
  pub inactive_file : Option ℕ
  pub active_file : Option ℕ
  pub dirty : Option ℕ
  pub writeback : Option ℕ
  pub shmem : Option ℕ
  pub active_bytes : ℕ
  pub backup_bytes : ℕ
  pub backup_count : ℤ

pub record RotationEvent : Type 0 where
  pub elapsed_ns : ℤ
  pub timestamp : Bytes
  pub ordinal : ℤ
  pub phase : Bytes
  pub bytes : ℤ
  pub error : Bytes

pub record CacheMetrics (F : Type 0) : Type 0 where
  pub start_bytes : ℕ
  pub end_bytes : ℕ
  pub max_bytes : ℕ
  pub mean_bytes : F
  pub median_bytes : ℕ
  pub p95_bytes : ℕ
  pub overall_rate_bytes_per_second : F
  pub positive_rate_bytes_per_second : F
  pub reclaim_rate_bytes_per_second : F
  pub rotation_transient_max_bytes : ℕ
  pub rotation_interval_slopes : List F

pub record FileSet : Type 0 where
  pub records : ℕ
  pub min : ℕ
  pub max : ℕ

pub record IntegrityReport : Type 0 where
  pub schema_version : ℤ
  pub expected : ℕ
  pub valid_unique : ℕ
  pub missing : ℕ
  pub duplicates : ℕ
  pub malformed : ℕ
  pub wrong_run_id : ℕ
  pub descending_transitions : ℕ
  pub missing_examples : List ℕ
  pub files : List (Bytes × FileSet)

pub record WriterState : Type 0 where
  pub generated : ℕ
  pub written : ℕ
  pub reopen_requests : ℕ
  pub reopen_failures : ℕ
  pub last_error : Bytes

pub record WorkloadConfig : Type 0 where
  pub max_file_bytes : ℤ
  pub rotations : ℤ
  pub max_backups : ℤ
  pub record_bytes : ℤ
  pub bytes_per_second : ℤ
  pub buffer_bytes : ℤ
  pub flush_interval_ns : ℤ
  pub monitor_interval_ns : ℤ
  pub resident_bytes : ℤ

pub record RunSummary (F : Type 0) : Type 0 where
  pub schema_version : ℤ
  pub run_id : Bytes
  pub strategy : Bytes
  pub success : Bool
  pub started_at : Bytes
  pub duration_ns : ℤ
  pub cgroup_version : Bytes
  pub cache_source : Bytes
  pub filesystem : Bytes
  pub rotations : ℤ
  pub workload : WorkloadConfig
  pub peak_memory : ℕ
  pub peak_rss : ℕ
  pub peak_anon : ℕ
  pub cache : CacheMetrics F
  pub writer : WriterState
  pub writer_implementation : Bytes
  pub integrity : IntegrityReport
  pub error : Bytes

pub record SweepAttempt (F : Type 0) : Type 0 where
  pub strategy : Bytes
  pub limit_mib : ℕ
  pub repetition : ℕ
  pub exit_code : ℤ
  pub oom : Bool
  pub timed_out : Bool
  pub functional_passed : Bool
  pub integrity_passed : Bool
  pub passed : Bool
  pub failure_kind : Bytes
  pub error : Bytes
  pub summary : Option (RunSummary F)

pub record SweepReport (F : Type 0) : Type 0 where
  pub schema_version : ℤ
  pub strategy : Bytes
  pub minimum_pass_mib : ℕ
  pub greatest_fail_mib : ℕ
  pub boundary_resolved : Bool
  pub baseline_minimum_mib : ℕ
  pub delta_minimum_mib : ℤ
  pub delta_resolved : Bool
  pub oom_failures : ℕ
  pub timeout_failures : ℕ
  pub functional_failures : ℕ
  pub integrity_failures : ℕ
  pub lower_mib : ℤ
  pub upper_mib : ℤ
  pub step_mib : ℤ
  pub repetitions : ℤ
  pub attempt_timeout_ns : ℤ
  pub workload : WorkloadConfig
  pub attempts : List (SweepAttempt F)

-- The zero values of the structs.
abbrev pub no_file_set : FileSet
no_file_set = record { records = 0; min = 0; max = 0 }
