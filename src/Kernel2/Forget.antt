-- ===== src/Kernel2/Forget.antt =====
-- The scheduler of the earlier kernel and that of the library: the library's state, without the
-- fields that the earlier kernel does not have, is a state of the earlier kernel.
use ecp_c.Base.{
  ℕ, zero, suc, ◌≡◌, inl, inr, refl, ap, ◌∙◌, Option, some, none, arith, ◌==◌, if◌then◌else◌, ◌>>=◌,
  Bool, true, false, Option-cases, Bool-cases, ==→eq,
}
use mathlib.Core.Path.{fun_ext}
use ecp_c.System.{Thread as LibThread, System as LibSystem, put_thread as put_lib, update}
use ecp_c.Scheduler.{
  wake as wake_lib, renew as renew_lib, refresh as refresh_lib, elect as elect_lib,
  visit as visit_lib, yield_loop as yield_loop_lib, account as account_lib, charge as charge_lib,
  demote as demote_lib, charged_until as charged_until_lib,
}
use ecp_c.Kernel2.State.{Thread, System, put_thread}
use ecp_c.Kernel2.Scheduler.{wake, elect, visit, yield_loop, account, charge, demote}

-- A control block of the library, with the pointer `prev` to the thread before.
abbrev pub forget_thread : (prev : ℕ) → LibThread → Thread
forget_thread prev t = record {
  runq_prev = prev;
  runq_next = t.runq_next;
  sp = t.sp;
  stack = t.stack;
  priority = t.priority;
  block_pattern = t.block_pattern;
  flags = t.status;
  stack_size = t.stack_size;
  ticks_to_wait = t.ticks_to_wait;
  carry_ticks_to_wait = t.carry_ticks_to_wait;
  min_period_ticks = t.min_period_ticks;
  max_deadline_ticks = t.max_deadline_ticks;
  max_cost_ticks = t.max_cost_ticks;
  current_cost_ticks = t.current_cost_ticks;
  offset_ticks = t.offset_ticks;
  executor = t.executor;
  error_handler = t.error_handler;
  parm = t.parm;
}

abbrev forget_block : (ℕ → ℕ) → (ℕ → Option LibThread) → ℕ → Option Thread
forget_block prev f q = f q >>= λ t. some (forget_thread (prev q) t)

abbrev pub forget : (prev : ℕ → ℕ) → LibSystem → System
forget prev s = record {
  cpu = s.cpu;
  threads = forget_block prev s.threads;
  tick_counter_us = s.global_thread_tick_counter;
  tick_counter_last_cost_us = s.tick_counter_last_cost;
  tick_counter_previous_us = s.tick_counter_previous;
  carry_tick_counter = s.carry_tick_counter;
  yield = s.yield;
  thread_list = s.thread_list;
  current_thread = s.current_thread;
  thread_main_inf = s.thread_main_inf;
  next_thread = s.next_thread;
  freed = s.freed;
}

module _ (prev : ℕ → ℕ) where
  wake-forget :
      (s : LibSystem) (k : ℕ) (t : LibThread)
      → wake (forget prev s) (forget_thread k t) ≡ forget_thread k (refresh_lib s t)
  unfolding wake wake_lib renew_lib refresh_lib
  wake-forget s k t = ground arith

  forget_block-update :
      (f : ℕ → Option LibThread) (p : ℕ) (t : LibThread)
      → update (forget_block prev f) p (some (forget_thread (prev p) t))
        ≡ forget_block prev (update f p (some t))
  forget_block-update f p t = fun_ext λ q. elim (Bool-cases (p == q)) [
    | inl same ↦ rw same (ap (λ r. some (forget_thread (prev r) t)) (==→eq _ _ same))
    | inr other ↦ rw other refl
  ]

  elect-forget :
      (s : LibSystem) (p k : ℕ) (t : LibThread) (c : ℕ)
      → elect (forget prev s) p (forget_thread k t) c ≡ elect_lib s p t c
  unfolding elect elect_lib
  elect-forget s p k t c = elim (Option-cases (s.threads c)) [
    | inl dangling ↦ rw dangling refl
    | inr (u, here) ↦ rw here refl
  ]

  abbrev pub map_forget : Option (LibSystem × ℕ) → Option (System × ℕ)
  map_forget o = o >>= λ r. some (forget prev r.0, r.1)

  put-forget :
      (s : LibSystem) (p : ℕ) (t : LibThread)
      → put_thread (forget prev s) p (forget_thread (prev p) t) ≡ forget prev (put_lib s p t)
  put-forget s p t =
      ap {A = ℕ → Option Thread} (λ f. record (forget prev s) { threads = f })
        (forget_block-update s.threads p t)

  map_forget-candidate :
      (o : Option ℕ) (s : LibSystem)
      → (o >>= λ c. some (forget prev s, c)) ≡ map_forget (o >>= λ c. some (s, c))
  map_forget-candidate none s = refl
  map_forget-candidate (some c) s = refl

  visit-forget :
      (s : LibSystem) (p c : ℕ) → visit (forget prev s) p c ≡ map_forget (visit_lib s p c)
  unfolding visit visit_lib
  visit-forget s p c = elim (Option-cases (s.threads p)) [
    | inl dangling ↦ rw dangling refl
    | inr (t, here) ↦
        let at : LibSystem = record s { next_thread = p } in
        let t' = refresh_lib s t in
        rw here (
          ap
            (λ th. elect (put_thread (forget prev at) p th) p th c >>= λ c'.
              some (put_thread (forget prev at) p th, c'))
            (wake-forget s (prev p) t)
          ∙ ap (λ s'. elect s' p (forget_thread (prev p) t') c >>= λ c'. some (s', c'))
              (put-forget at p t')
          ∙ ap (λ o. o >>= λ c'. some (forget prev (put_lib at p t'), c'))
              (elect-forget (put_lib at p t') p (prev p) t' c)
          ∙ map_forget-candidate (elect_lib (put_lib at p t') p t' c) (put_lib at p t'))
  ]

  if-map_forget :
      (test : Bool) (x y : Option (LibSystem × ℕ))
      → (if test then map_forget x else map_forget y) ≡ map_forget (if test then x else y)
  if-map_forget true x y = refl
  if-map_forget false x y = refl

  -- The walk of the run queue is the same walk.
  pub yield_loop-forget :
      (fuel : ℕ) (s : LibSystem) (p c : ℕ)
      → yield_loop fuel (forget prev s) p c ≡ map_forget (yield_loop_lib fuel s p c)
  unfolding yield_loop yield_loop_lib
  yield_loop-forget zero s p c = refl
  yield_loop-forget (suc fuel) s p c = elim (Option-cases (s.threads p)) [
    | inl dangling ↦ rw dangling refl
    | inr (t, here) ↦
        let next : ℕ = (if t.runq_next == 0 then s.thread_list else t.runq_next) in
        rw (here, visit-forget s next c)
          (elim (Option-cases (visit_lib s next c)) [
            | inl fault ↦ rw fault refl
            | inr (r, visited) ↦
                rw (visited, yield_loop-forget fuel r.0 next r.1)
                  (if-map_forget (next == s.current_thread) (some r)
                    (yield_loop_lib fuel r.0 next r.1))
          ])
  ]

  demote-forget :
      (s : LibSystem) (k : ℕ) (t : LibThread)
      → demote (charge (forget prev s) (forget_thread k t))
        ≡ forget_thread k (demote_lib (charge_lib s t))
  demote-forget s k t = ground arith

  -- The accounting is the same accounting.
  pub account-forget :
      (s : LibSystem) → account (forget prev s) ≡ (account_lib s >>= λ s'. some (forget prev s'))
  unfolding account account_lib
  account-forget s = elim (Option-cases (s.threads s.current_thread)) [
    | inl dangling ↦ rw dangling refl
    | inr (t, here) ↦ rw here (
        ap
          (λ th. some (
            put_thread (forget prev (record s { tick_counter_last_cost = charged_until_lib s }))
              s.current_thread th))
          (demote-forget s (prev s.current_thread) t)
        ∙ ap some (
            put-forget (record s { tick_counter_last_cost = charged_until_lib s }) s.current_thread
              (demote_lib (charge_lib s t))))
  ]

  -- What `thread_yield` decides before its switch, the thread that it elects and the control blocks
  -- with the accounting, is in the library, in every state and on every path, faults and lack of
  -- fuel included, what it is in the earlier kernel: the additions to the library's scheduler have
  -- changed only the fields that the earlier kernel does not have.
  pub yield_loop-account-forget :
      (fuel : ℕ) (s : LibSystem)
      → (yield_loop fuel (forget prev s) s.current_thread s.thread_main_inf >>= λ r.
          account r.0 >>= λ s'. some (s', r.1))
        ≡ map_forget (
            yield_loop_lib fuel s s.current_thread s.thread_main_inf >>= λ r.
            account_lib r.0 >>= λ s'. some (s', r.1))
  yield_loop-account-forget fuel s =
      rw (yield_loop-forget fuel s s.current_thread s.thread_main_inf)
        (decided (yield_loop_lib fuel s s.current_thread s.thread_main_inf))
    where
      charged :
          (e : ℕ) (o : Option LibSystem)
          → ((o >>= λ s'. some (forget prev s')) >>= λ s'. some (s', e))
            ≡ map_forget (o >>= λ s'. some (s', e))
      charged e none = refl
      charged e (some s') = refl

      decided :
          (o : Option (LibSystem × ℕ))
          → (map_forget o >>= λ r. account r.0 >>= λ s'. some (s', r.1))
            ≡ map_forget (o >>= λ r. account_lib r.0 >>= λ s'. some (s', r.1))
      decided none = refl
      decided (some (s', e)) = rw (account-forget s') (charged e (account_lib s'))
