-- ===== src/Scheduler/Whole.antt =====
-- `thread_yield` from end to end, with the wake-up and the accounting written out.
use ecp_c.Base.{
  ℕ, ◌-◌, ◌%◌, ◌≤◌, ◌<◌, ◌≡◌, ◌≢◌, ◌⊎◌, inl, inr, refl, List, some, arith, length, ◌==◌, ltb,
  if◌then◌else◌, Bool-cases, ==→eq, add32, sub32,
}
use ecp_c.System.{Thread, System, Board, active, slept, overrun_prio}
use ecp_c.Context.Layout.{IsFrame}
use ecp_c.Context.Switch.{IsReady}
use ecp_c.Scheduler.{wake, renew, refresh, charge, demote, thread_yield}
use ecp_c.Scheduler.Elect.{In, priority_of}
use ecp_c.Scheduler.Yield.{IsRing}
use ecp_c.Scheduler.Preempt.{IsCalm, Without-ne, yield_switches}

-- The wake-up tick of the sleeping thread is past; if the tick had wrapped, the counter has too.
pub record IsDue (s : System) (t : Thread) : Type 0 where
  pub asleep : t.status ≡ slept
  pub carried :
      (t.carry_ticks_to_wait ≡ 0) ⊎ ((t.carry_ticks_to_wait ≡ 1) × (s.carry_tick_counter ≡ 1))
  pub past : t.ticks_to_wait < s.global_thread_tick_counter

abbrev pub IsRunnable : System → Thread → Type 0
IsRunnable s t = (t.status ≡ active) ⊎ IsDue s t

IsRunnable-active : (s : System) (t : Thread) → IsRunnable s t → (refresh s t).status ≡ active
unfolding refresh wake renew
IsRunnable-active s t (inl e) = ground (arith, e)
IsRunnable-active s t (inr due) = ground (arith, due.asleep, due.carried, due.past)

active-IsRunnable : (s : System) (t : Thread) → (refresh s t).status ≡ active → IsRunnable s t
unfolding refresh wake renew
active-IsRunnable s t e = elim (Bool-cases (t.status == slept)) [
  | inr awake ↦ inl (ground (arith, awake, e))
  | inl asleep ↦ inr (record {
    asleep = ==→eq _ _ asleep;
    carried = ground (arith, asleep, e);
    past = ground (arith, asleep, e);
  })
]

refresh-either :
    (s : System) (t : Thread) → ((refresh s t).status ≡ active) ⊎ ((refresh s t).status ≡ t.status)
unfolding refresh wake renew
refresh-either s t = ground arith

refresh-priority : (s : System) (t : Thread) → (refresh s t).priority ≡ t.priority
unfolding refresh wake renew
refresh-priority s t = ground arith

refresh-cost : (s : System) (t : Thread) → (refresh s t).current_cost_ticks ≡ t.current_cost_ticks
unfolding refresh wake renew
refresh-cost s t = ground arith

refresh-budget : (s : System) (t : Thread) → (refresh s t).max_cost_ticks ≡ t.max_cost_ticks
unfolding refresh wake renew
refresh-budget s t = ground arith

refresh-status : (s : System) (t : Thread) → ¬ IsRunnable s t → (refresh s t).status ≡ t.status
refresh-status s t still = elim (refresh-either s t) [
  | inl e ↦ absurd (still (active-IsRunnable s t e))
  | inr e ↦ e
]

-- The cost of the thread that runs, with the ticks since the last accounting.
abbrev pub cost_now : System → Thread → ℕ
cost_now s t =
    add32 t.current_cost_ticks (sub32 s.global_thread_tick_counter s.tick_counter_last_cost)

-- Over a circular run queue, with fuel for one round, room for a frame on the running thread's
-- stack, saved stack pointers below 2 ^ 16 - 37 and no thread that takes ATS signals, `thread_yield`
-- ends. The thread that runs then is main or a thread of the queue other than the one that ran before
-- that is active or whose sleep is over; no such thread has a higher priority. The one that ran before
-- is never a candidate, even when it is active, unless it is main. It has been charged the ticks since
-- the last accounting, its priority has dropped to the overrun priority if that is over its budget,
-- and its registers, status register and return address are on its stack. The other threads of the
-- queue keep their priorities; those whose sleep is over are active, and the rest keep their status.
pub thread_yield_lem :
    (b : Board) (fuel : ℕ) (s : System) (ws : List ℕ) {this : Thread}
    → IsRing s ws
    → length ws < fuel
    → s.thread_list ≢ 0
    → IsReady b s
    → s.threads s.current_thread ≡ some this
    → IsCalm s
    → (s' : System) × (thread_yield b fuel s ≡ some s')
      × ((s'.current_thread ≡ s.thread_main_inf)
          ⊎ (In s'.current_thread ws
              × (s'.current_thread ≢ s.current_thread)
              × ((t : Thread) × (s.threads s'.current_thread ≡ some t) × IsRunnable s t)))
      × ((x : ℕ) (t : Thread)
          → In x ws
          → s.threads x ≡ some t
          → IsRunnable s t
          → t.priority ≤ priority_of (s.threads s'.current_thread))
      × ((u : Thread) × (s'.threads s.current_thread ≡ some u)
          × (u.sp ≡ s.cpu.sp - 37)
          × (u.current_cost_ticks ≡ cost_now s this)
          × (u.priority ≡ (
              if ltb this.max_cost_ticks (cost_now s this) then overrun_prio else this.priority)))
      × IsFrame s'.cpu.ram (s.cpu.sp - 37) s.cpu.regs (s.cpu.sreg % 128) b.return_address
      × ((x : ℕ) (t : Thread)
          → In x ws
          → s.threads x ≡ some t
          → (u : Thread) × (s'.threads x ≡ some u)
            × (u.priority ≡ t.priority)
            × (IsRunnable s t → u.status ≡ active)
            × (¬ IsRunnable s t → u.status ≡ t.status))
thread_yield_lem b fuel s ws {this} ring enough listed ready live calm =
    let (s', run, among, best, saved, frame, others) =
      yield_switches b fuel s ws {this = this} ring enough listed ready live calm in
    (
      s',
      run,
      elim among [
        | inl main ↦ inl main
        | inr (i, (t, at, act)) ↦ inr (
          i,
          (Without-ne s.current_thread s'.current_thread ws ring.others i),
          (t, at, active-IsRunnable s t act),
        )
      ],
      (λ x t i at run. best x t i at (IsRunnable-active s t run)),
      (
        record (demote (charge s (refresh s this))) { sp = s.cpu.sp - 37 },
        saved,
        refl,
        cost,
        priority,
      ),
      frame,
      (λ x t i at. (
        refresh s t,
        others x t i at,
        refresh-priority s t,
        IsRunnable-active s t,
        refresh-status s t,
      )),
    )
  where
    cost : (demote (charge s (refresh s this))).current_cost_ticks ≡ cost_now s this
    cost = ground (arith, refresh-cost s this)

    priority :
        (demote (charge s (refresh s this))).priority
        ≡ (if ltb this.max_cost_ticks (cost_now s this) then overrun_prio else this.priority)
    priority = ground (arith, refresh-cost s this, refresh-budget s this, refresh-priority s this)
