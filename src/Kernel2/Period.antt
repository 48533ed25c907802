-- ===== src/Kernel2/Period.antt =====
-- The period of a thread of arduino/context_switch_2_0/context_switch_2_0.ino is not written after its
-- creation.
pub mod Yield
pub mod Calls
pub mod Create
pub mod Runs
pub mod Releases
pub mod Cycle
use ecp_c.Base.{
  ℕ, ◌≡◌, ◌≢◌, refl, ◌∙◌, inl, inr, Option, some, arith, Bool-cases, ◌==◌, ==→eq, ==→ne,
  if◌then◌else◌,
}
use ecp_c.System.{update}
use ecp_c.Kernel2.State.{Thread, System, Upcalls}

-- The thread at `th` has the period `period`, in the control blocks `m`.
pub record Periodic (th period : ℕ) (m : ℕ → Option Thread) : Type 0 where
  pub block : (t : Thread) × (m th ≡ some t) × (t.min_period_ticks ≡ period)

abbrev pub IsPeriodic : (th period : ℕ) → System → Type 0
IsPeriodic th period s = Periodic th period s.threads

-- The functions of the sketch do not touch the period of the thread at `th`.
pub record UpcallsLeave (u : Upcalls) (th : ℕ) : Type 0 where
  pub handler :
      (h e period : ℕ) (s s' : System)
      → u.error_handler h e s ≡ some s'
      → IsPeriodic th period s
      → IsPeriodic th period s'
  pub executor :
      (f period : ℕ) (s s' : System)
      → u.executor f s ≡ some s'
      → IsPeriodic th period s
      → IsPeriodic th period s'

module _ {th period : ℕ} {m : ℕ → Option Thread} (k : Periodic th period m) where
  -- A control block is written, not that of the thread.
  pub Periodic-other : (p : ℕ) (o : Option Thread) → th ≢ p → Periodic th period (update m p o)
  Periodic-other p o ne =
      let (t, at_th, same) = k.block in record { block = (t, ground (arith, ne), same) }

  -- A control block is written back with its period.
  pub Periodic-same :
      (p : ℕ) {t : Thread} (t' : Thread)
      → m p ≡ some t
      → t'.min_period_ticks ≡ t.min_period_ticks
      → Periodic th period (update m p (some t'))
  Periodic-same p {t} t' at_p same = elim (Bool-cases (th == p)) [
    | inr ne ↦ Periodic-other p _ (==→ne th p ne)
    | inl here ↦
        let (u, at_th, known) = k.block in
        let there : th ≡ p = ==→eq th p here in
        let one : u ≡ t = ground arith in
        record { block = (t', ground arith, ground (arith, same)) }
  ]
