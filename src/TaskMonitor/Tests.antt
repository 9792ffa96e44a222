-- ===== src/TaskMonitor/Tests.antt =====
-- The watchdog of rust_task/task_monitor.rs on two workers.
use rust_base.Base.{[], ◌∷◌}
use rust_base.TaskMonitor.{TaskMonitor, to_u64, at_most_u64, get_elem?, scan}
use rust_base.TaskMonitor.Watchdog.{report_of, Report, scan-Report}

abbrev two_workers : TaskMonitor
two_workers = record { hang_threshold = 5; slots = 3 ∷ 0 ∷ [] }

scan-Report_example :
    Report
      (to_u64 9)
      (at_most_u64 two_workers.hang_threshold)
      (get_elem? two_workers.slots 1)
      (report_of 1 (scan 9 two_workers))
scan-Report_example = scan-Report 9 1 two_workers
