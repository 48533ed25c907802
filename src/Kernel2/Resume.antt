-- ===== src/Kernel2/Resume.antt =====
-- A thread of arduino/context_switch_2_0/context_switch_2_0.ino that is switched out and back in
-- goes on where it was.
use ecp_c.Base.{ℕ, ◌+◌, ◌-◌, ◌^◌, ◌≤◌, ◌<◌, ◌≡◌, ◌≢◌, sym, ap, ◌∙◌, some, some_inj, arith}
use mathlib.Core.Path.{subst}
use ecp_c.System.{Board, update_self}
use ecp_c.Context.Layout.{Outside}
use ecp_c.Kernel2.State.{Thread, System}
use ecp_c.Kernel2.Switch.{do_switch}
use ecp_c.Kernel2.Layout.{IsFrame-eq}
use ecp_c.Kernel2.Exchange.{IsReady, Switched, do_switch-other}

-- Between two switches a suspended thread is left alone: its saved stack pointer and the 35 bytes
-- above it are in `s2` as they were in `s1`, and the next switch does not store there.
pub record LeftAlone (b : Board) (s1 s2 : System) (a p : ℕ) : Type 0 where
  pub block : s2.threads a ≡ s1.threads a
  pub bytes : (q : ℕ) → p < q → q ≤ p + 35 → s2.cpu.ram q ≡ s1.cpu.ram q
  pub apart : (q : ℕ) → p < q → q ≤ p + 35 → Outside s2.cpu.sp (35 + b.spill_size) q
  pub not_aux :
      (q : ℕ) → p < q → q ≤ p + 35 → (q ≢ b.px_current_tcb_aux) × (q ≢ b.px_current_tcb_aux + 1)

-- A thread that calls `do_switch`, is left alone while others run, and is then chosen by a switch
-- of another thread, goes on at the return address of its call, with its 32 registers, its
-- status register and its stack pointer as they were.
pub switch_and_resume :
    (b : Board) (s s1 s2 : System) {this next other : Thread}
    → IsReady b s.cpu
    → s.threads s.current_thread ≡ some this
    → s.threads s.next_thread ≡ some next
    → s.current_thread ≢ s.next_thread
    → next.sp + 35 < 2 ^ 16
    → do_switch b s ≡ some s1
    → LeftAlone b s1 s2 s.current_thread (s.cpu.sp - 35)
    → IsReady b s2.cpu
    → s2.threads s2.current_thread ≡ some other
    → s2.current_thread ≢ s.current_thread
    → s2.next_thread ≡ s.current_thread
    → (s3 : System) × (do_switch b s2 ≡ some s3)
      × (s3.current_thread ≡ s.current_thread)
      × ((i : ℕ) → i < 32 → s3.cpu.regs i ≡ s.cpu.regs i)
      × (s3.cpu.sp ≡ s.cpu.sp)
      × (s3.cpu.pc ≡ b.return_address)
      × (s3.cpu.sreg ≡ s.cpu.sreg)
switch_and_resume b s s1 s2 {this} {next} {other} ready live live' ne small run left ready2 live2
      ne2 back =
    let (s3, run3, k3) =
      do_switch-other b s2 ready2 live2 suspended (λ e. ne2 (e ∙ back))
        (omega (arith, ready.small)) in
    let frame =
      IsFrame-eq s1.cpu.ram s3.cpu.ram p
        (λ q above under.
          k3.memory q (left.apart q above under) (left.not_aux q above under).0
            (left.not_aux q above under).1
          ∙ left.bytes q above under)
        k.frame in
    let (regs, pc, sreg) = k3.resumed s.cpu.regs s.cpu.sreg b.return_address frame in
    (
      s3,
      run3,
      ap System.current_thread k3.state ∙ back,
      regs,
      omega (arith, k3.sp, ready.room),
      pc,
      sreg,
    )
  where
    p : ℕ
    p = s.cpu.sp - 35

    k : Switched b s this next.sp s1
    k =
        let (s1', run', k') = do_switch-other b s ready live live' ne small in
        subst (Switched b s this next.sp) (some_inj (sym run' ∙ run)) k'

    suspended : s2.threads s2.next_thread ≡ some (record this { sp = p })
    suspended = rw back (
        left.block
        ∙ ap (λ t. System.threads t s.current_thread) k.state
        ∙ update_self s.threads s.current_thread (some (record this { sp = p })))
