-- ===== src/Timer/Ticks.antt =====
-- The ticks of a timer of rust_task/timer.rs, across restarts.
