-- ===== src/Lifecycle/Call.antt =====
-- The calls of the library that an application makes, its interrupts included, and what each does to
-- the list of threads.
use ecp_c.Base.{ℕ, List, [], ◌∷◌, Option, some, none, ◌>>=◌}
use ecp_c.System.{Thread, System, Board}
use ecp_c.Scheduler.{thread_yield}
use ecp_c.Threads.{
  get_current_cost_ticks, tick_sleep, thread_usleep, thread_block, thread_unblock, thread_signal,
  thread_ats_signal, thread_ats_enable, thread_ats_disable, timer2_ovf, timer2_ovf_return,
}
use ecp_c.Semaphore.{
  thread_semaphore_create, thread_semaphore_p, thread_semaphore_v, thread_semaphore_free,
}
use ecp_c.Create.{
  Mallocs, thread_create, periodic_thread_create, sporadic_thread_create, aperiodic_thread_create,
}
use ecp_c.Remove.{thread_remove}
use ecp_c.Remove.Unlink.{drop_one}
use ecp_c.Lifecycle.Create.{queue_created}

pub data Call : Type 0 where
  create : Mallocs → (entry stack stack_size priority parm : ℕ) → Call
  create_periodic :
      Mallocs
      → (entry params_and_data stack stack_size priority offset_us period_us max_deadline_us
          max_cost_us error_handler : ℕ)
      → Call
  create_sporadic :
      Mallocs
      → (entry params_and_data stack stack_size priority offset_us mit_period_us max_deadline_us
          max_cost_us mit_policy queue_length_max error_handler : ℕ)
      → Call
  create_aperiodic :
      Mallocs
      → (entry params_and_data stack stack_size priority offset_us max_deadline_us max_cost_us
          ov_policy queue_length_max error_handler : ℕ)
      → Call
  remove : ℕ → Call
  yield : Call
  sleep : ℕ → Call
  usleep : ℕ → Call
  block : Call
  unblock : ℕ → Call
  signal : ℕ → Call
  ats_signal : ℕ → Call
  ats_enable : Call
  ats_disable : Call
  tick : Call
  tick_return : Call
  measure : Call
  semaphore_create : Option ℕ → ℕ → Call
  semaphore_p : ℕ → Call
  semaphore_v : ℕ → Call
  semaphore_free : ℕ → Call

-- The state behind a result.
abbrev pub state_of {ℓ} : {A : Type ℓ} → Option (A × System) → Option System
state_of o = o >>= λ r. some r.1

module _ (b : Board) (fuel : ℕ) where
  unfoldable pub call : Call → System → Option System
  call (create m entry stack stack_size priority parm) s =
      state_of (thread_create b fuel m entry stack stack_size priority parm s)
  call
        (create_periodic m entry params stack stack_size priority offset period deadline cost
          handler)
        s =
      state_of (
        periodic_thread_create b fuel m entry params stack stack_size priority offset period
          deadline cost handler s)
  call
        (create_sporadic m entry params stack stack_size priority offset period deadline cost policy
          length_max handler)
        s =
      state_of (
        sporadic_thread_create b fuel m entry params stack stack_size priority offset period
          deadline cost policy length_max handler s)
  call
        (create_aperiodic m entry params stack stack_size priority offset deadline cost policy
          length_max handler)
        s =
      state_of (
        aperiodic_thread_create b fuel m entry params stack stack_size priority offset deadline cost
          policy length_max handler s)
  call (remove th) s = state_of (thread_remove fuel th s)
  call yield s = thread_yield b fuel s
  call (sleep ticks) s = tick_sleep b fuel ticks s
  call (usleep time_us) s = thread_usleep b fuel time_us s
  call block s = thread_block b fuel s
  call (unblock th) s = thread_unblock b fuel th s
  call (signal th) s = state_of (thread_signal b fuel th s)
  call (ats_signal th) s = state_of (thread_ats_signal b fuel th s)
  call ats_enable s = thread_ats_enable b fuel s
  call ats_disable s = thread_ats_disable s
  call tick s = timer2_ovf b fuel s
  call tick_return s = some (timer2_ovf_return s)
  call measure s = state_of (get_current_cost_ticks s)
  call (semaphore_create at value) s = state_of (thread_semaphore_create at value s)
  call (semaphore_p sem) s = thread_semaphore_p b fuel sem s
  call (semaphore_v sem) s = thread_semaphore_v b fuel sem s
  call (semaphore_free sem) s = thread_semaphore_free fuel sem s

-- What a call of `malloc` for a control block returned.
abbrev pub block_of : Call → Option (ℕ × Thread)
block_of (create m _ _ _ _ _) = m.block
block_of (create_periodic m _ _ _ _ _ _ _ _ _ _) = m.block
block_of (create_sporadic m _ _ _ _ _ _ _ _ _ _ _ _) = m.block
block_of (create_aperiodic m _ _ _ _ _ _ _ _ _ _ _) = m.block
block_of _ = none

-- The abstract run queue: creation adds at its head, removal takes out, and nothing else changes it.
abbrev pub queue_after : Call → List ℕ → List ℕ
queue_after (create m _ stack _ _ _) xs = queue_created m stack xs
queue_after (create_periodic m _ _ stack _ _ _ _ _ _ _) xs = queue_created m stack xs
queue_after (create_sporadic m _ _ stack _ _ _ _ _ _ _ _ _) xs = queue_created m stack xs
queue_after (create_aperiodic m _ _ stack _ _ _ _ _ _ _ _) xs = queue_created m stack xs
queue_after (remove th) xs = drop_one th xs
queue_after _ xs = xs

abbrev pub queue_run : List Call → List ℕ → List ℕ
queue_run [] xs = xs
queue_run (c ∷ cs) xs = queue_run cs (queue_after c xs)
