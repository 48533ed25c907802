-- ===== src/Pattern/Pending.antt =====
-- The releases that are pending for a sporadic or aperiodic thread, over the operations of the library.
pub mod Yield
pub mod Calls
pub mod Signal
pub mod Create
pub mod Runs
pub mod Stretch
pub mod Cycles
use ecp_c.Base.{
  ℕ, ◌+◌, ◌≤◌, ◌≡◌, ◌≢◌, refl, sym, ap, ◌∙◌, inl, inr, Option, some, arith, Bool-cases, ◌==◌, ==→eq,
  ==→ne, if◌then◌else◌,
}
use ecp_c.System.{Thread, System, Board, update}

-- What a control block has to do with the releases of its thread.
pub record Release (t t' : Thread) : Type 0 where
  pub pattern : t'.block_pattern ≡ t.block_pattern
  pub pending : t'.queue_pending ≡ t.queue_pending

-- The thread at `th` waits for releases, and has at least `low` and at most `high` of them, in the
-- control blocks `m`.
pub record Pending (th low high : ℕ) (m : ℕ → Option Thread) : Type 0 where
  pub block :
      (t : Thread) × (m th ≡ some t)
      × (t.block_pattern ≢ 0)
      × (low ≤ t.queue_pending)
      × (t.queue_pending ≤ high)

abbrev pub HasPending : (th low high : ℕ) → System → Type 0
HasPending th low high s = Pending th low high s.threads

-- The error handlers of the sketch do not touch the releases of the thread at `th`.
abbrev pub HandlersLeave : Board → ℕ → Type 0
HandlersLeave b th =
    (h e low high : ℕ) (s s' : System)
    → b.error_handler h e s ≡ some s'
    → HasPending th low high s
    → HasPending th low high s'

module _ {th low high : ℕ} {m : ℕ → Option Thread} (k : Pending th low high m) where
  -- A control block is written, not that of the thread.
  pub Pending-other : (p : ℕ) (o : Option Thread) → th ≢ p → Pending th low high (update m p o)
  Pending-other p o ne =
      let (t, at_th, waits, many, few) = k.block in
      record { block = (t, ground (arith, ne), waits, many, few) }

  -- A control block is written back with its releases.
  pub Pending-same :
      (p : ℕ) {t : Thread} (t' : Thread)
      → m p ≡ some t
      → Release t t'
      → Pending th low high (update m p (some t'))
  Pending-same p {t} t' at_p same = elim (Bool-cases (th == p)) [
    | inr ne ↦ Pending-other p _ (==→ne th p ne)
    | inl here ↦
        let (u, at_th, waits, many, few) = k.block in
        let there : th ≡ p = ==→eq th p here in
        let known : u ≡ t = ground arith in
        record {
          block = (
            t',
            ground arith,
            (λ e. waits (ap (λ x. x.block_pattern) known ∙ sym same.pattern ∙ e)),
            ground (arith, same.pending),
            ground (arith, same.pending),
          );
        }
  ]
