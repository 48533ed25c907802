-- ===== src/Lifecycle/Rest.antt =====
-- A thread that is blocked, waits for a semaphore or sleeps, while others run.
pub mod Yield
pub mod Quiet
pub mod Calls
pub mod Create
pub mod Runs
pub mod Entry
use ecp_c.Base.{
  ℕ, ◌+◌, ◌≤◌, ◌≡◌, ◌≢◌, refl, sym, ◌∙◌, inl, inr, Option, some, none, some_inj, arith, Bool-cases,
  ◌==◌, ==→eq, ==→ne, if◌then◌else◌,
}
use mathlib.Core.Path.{subst}
use ecp_c.System.{Thread, System, Board, put_thread, update, update_self, update_ne, active, slept}

-- What a control block has to do with the wake-up of its thread.
pub record Same (t0 t : Thread) : Type 0 where
  pub status : t.status ≡ t0.status
  pub semaphore : t.blocked_semaphore ≡ t0.blocked_semaphore
  pub until : t.ticks_to_wait ≡ t0.ticks_to_wait
  pub carry : t.carry_ticks_to_wait ≡ t0.carry_ticks_to_wait

pub Same-refl : (t : Thread) → Same t t
Same-refl t = record { status = refl; semaphore = refl; until = refl; carry = refl }

Same-trans : {t0 t t' : Thread} → Same t0 t → Same t t' → Same t0 t'
Same-trans a b = record {
  status = b.status ∙ a.status;
  semaphore = b.semaphore ∙ a.semaphore;
  until = b.until ∙ a.until;
  carry = b.carry ∙ a.carry;
}

-- The thread at `th` is not active, as it was in `t0`, and is not main. If it sleeps, its tick is not
-- past within `n` more ticks.
pub record Sits (th : ℕ) (t0 : Thread) (n : ℕ) (s : System) : Type 0 where
  pub block : (t : Thread) × (s.threads th ≡ some t) × Same t0 t
  pub idle : t0.status ≢ active
  pub not_main : s.thread_main_inf ≢ th
  pub time :
      t0.status ≡ slept
      → (t0.carry_ticks_to_wait ≡ 0) × (s.global_thread_tick_counter + n ≤ t0.ticks_to_wait)

-- And it does not run.
pub record Rests (th : ℕ) (t0 : Thread) (n : ℕ) (s : System) : Type 0 where
  pub sits : Sits th t0 n s
  pub off : s.current_thread ≢ th

-- The error handlers of the sketch do not disturb the thread at `th`.
abbrev pub HandlersSpare : Board → ℕ → Type 0
HandlersSpare b th =
    (h e : ℕ) (t0 : Thread) (n : ℕ) (s s' : System)
    → b.error_handler h e s ≡ some s'
    → Rests th t0 n s
    → Rests th t0 n s'

module _ {th : ℕ} {t0 : Thread} {n : ℕ} {s : System} (k : Sits th t0 n s) (s' : System)
    (main : s'.thread_main_inf ≡ s.thread_main_inf)
    (clock : s'.global_thread_tick_counter ≡ s.global_thread_tick_counter) where
  pub Sits-frame : s'.threads th ≡ s.threads th → Sits th t0 n s'
  Sits-frame same =
      let (t, at_th, unchanged) = k.block in
      record {
        block = (t, same ∙ at_th, unchanged);
        idle = k.idle;
        not_main = rw main k.not_main;
        time = λ e. rw clock (k.time e);
      }

  -- A control block is written.
  pub Sits-other :
      (p : ℕ) (o : Option Thread) → s'.threads ≡ update s.threads p o → th ≢ p → Sits th t0 n s'
  Sits-other p o e ne = Sits-frame (rw e (ground (arith, ne)))

  -- A control block is written back with its status.
  pub Sits-Same :
      (p : ℕ) {t : Thread} (t' : Thread)
      → s.threads p ≡ some t
      → Same t t'
      → s'.threads ≡ update s.threads p (some t')
      → Sits th t0 n s'
  Sits-Same p {t} t' at_p unchanged e = elim (Bool-cases (th == p)) [
    | inr ne ↦ Sits-other p _ e (==→ne th p ne)
    | inl here ↦
        let (u, at_th, before) = k.block in
        let same : th ≡ p = ==→eq th p here in
        let known : u ≡ t = ground arith in
        record {
          block = (t', rw e (ground arith), Same-trans (subst (Same t0) known before) unchanged);
          idle = k.idle;
          not_main = rw main k.not_main;
          time = λ q. rw clock (k.time q);
        }
  ]
