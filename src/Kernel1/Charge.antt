-- ===== src/Kernel1/Charge.antt =====
-- What a thread of arduino/context_switch/context_switch.ino is charged.
use ecp_c.Base.{ℕ, some, Option}
use ecp_c.Kernel2.State.{Thread, System, put_thread}
use ecp_c.Kernel2.Scheduler

-- The thread `this`, which runs, with a cost.
abbrev costs : System → Thread → ℕ → Option System
costs s this n = some (put_thread s s.current_thread (record this { current_cost_ticks = n }))
