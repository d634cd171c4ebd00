-- ===== src/Collector/Samples.antt =====
-- The sample of one process (crates/collector/src/process.rs).
use nemor.Base.{ℕ, String, Option}
use nemor.Base.Integer.{ℤ}

pub record ProcessSample (F : Type 0) : Type 0 where
  pub timestamp_ns : ℤ
  pub pid : ℕ
  pub executable : Option String
  pub executable_name : Option String
  pub parent_pid : Option ℕ
  pub process_group_id : Option ℤ
  pub session_id : Option ℤ
  pub tty_nr : Option ℤ
  pub foreground_process_group_id : Option ℤ
  pub start_time_ticks : Option ℕ
  pub cgroup_path : Option String
  pub rss_bytes : Option ℕ
  pub pss_bytes : Option ℕ
  pub uss_bytes : Option ℕ
  pub swap_bytes : Option ℕ
  pub minor_faults : Option ℕ
  pub major_faults : Option ℕ
  pub cpu_percent : Option F
  pub io_read_bytes : Option ℕ
  pub io_write_bytes : Option ℕ
