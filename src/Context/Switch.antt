-- ===== src/Context/Switch.antt =====
-- What a context switch keeps: the state of the thread that leaves, on its stack, and the state of
-- the thread that comes back.
use ecp_c.Base.{
  ℕ, ◌+◌, ◌-◌, ◌*◌, ◌/◌, ◌%◌, ◌^◌, ◌≤◌, ◌<◌, ◌≡◌, ◌≢◌, ◌⊎◌, inl, inr, refl, sym, ap, ◌∙◌, some,
  arith,
}
use mathlib.Core.Path.{subst}
use ecp_c.System.{Thread, Cpu, System, Board, update}
use ecp_c.Context.{push_byte, exec, save_context, restore_context, change_high, do_switch}
use ecp_c.Context.Exec.{framed, IsLinked, Restored, exec-save_context, exec-restore_context}
use ecp_c.Context.Layout.{Outside, IsFrame, IsFrame-eq, framed-Outside, framed-IsFrame}

-- The stack pointer leaves room for a frame, and the two variables of the switch lie elsewhere.
pub record IsReady (b : Board) (s : System) : Type 0 where
  pub small : s.cpu.sp < 2 ^ 16
  pub room : 37 ≤ s.cpu.sp
  pub linked : IsLinked b s.cpu.ram
  pub apart :
      (b.px_current_tcb + 1 < b.px_current_tcb_aux) ⊎ (b.px_current_tcb_aux + 1 < b.px_current_tcb)
  pub spilled : (c : Cpu) (q : ℕ) → Outside c.sp b.spill_size q → b.spill c q ≡ c.ram q
  pub px_low : Outside s.cpu.sp (37 + b.spill_size) b.px_current_tcb
  pub px_high : Outside s.cpu.sp (37 + b.spill_size) (b.px_current_tcb + 1)
  pub aux_low : Outside s.cpu.sp (37 + b.spill_size) b.px_current_tcb_aux
  pub aux_high : Outside s.cpu.sp (37 + b.spill_size) (b.px_current_tcb_aux + 1)

module _ (b : Board) (s : System) where
  open b use {px_current_tcb as px, px_current_tcb_aux as aux}

  -- `change_high`, entered with the stack pointer `v` in `pxCurrentTCB_aux`.
  record Changed (v p : ℕ) (this : Thread) (s' : System) : Type 0 where
    state : s' ≡ record s {
      cpu = record s.cpu { ram = s'.cpu.ram };
      threads = update s.threads s.current_thread (some (record this { sp = v }));
      current_thread = s.next_thread;
    }
    low : s'.cpu.ram aux ≡ p % 256
    high : s'.cpu.ram (aux + 1) ≡ p / 256
    rest : (q : ℕ) → q ≢ aux → q ≢ aux + 1 → s'.cpu.ram q ≡ s.cpu.ram q

  change_high-same :
      {this : Thread} (v : ℕ)
      → v < 2 ^ 16
      → s.cpu.ram aux ≡ v % 256
      → s.cpu.ram (aux + 1) ≡ v / 256
      → s.threads s.current_thread ≡ some this
      → s.next_thread ≡ s.current_thread
      → (s' : System) × (change_high b s ≡ some s') × Changed v v this s'
  unfolding change_high
  change_high-same {this} v small lo hi live e = (
    record s {
      threads = update s.threads s.current_thread (some (record this { sp = v }));
      current_thread = s.next_thread;
    },
    ground arith,
    record { state = refl; low = lo; high = hi; rest = λ q n n'. refl },
  )

  change_high-other :
      {this next : Thread} (v : ℕ)
      → v < 2 ^ 16
      → next.sp < 2 ^ 16
      → s.cpu.ram aux ≡ v % 256
      → s.cpu.ram (aux + 1) ≡ v / 256
      → s.threads s.current_thread ≡ some this
      → s.threads s.next_thread ≡ some next
      → s.current_thread ≢ s.next_thread
      → (s' : System) × (change_high b s ≡ some s') × Changed v next.sp this s'
  unfolding change_high
  change_high-other {this} {next} v small small' lo hi live live' ne = (
    record s {
      cpu = record s.cpu {
        ram = update (update s.cpu.ram aux (next.sp % 256)) (aux + 1) (next.sp / 256 % 256);
      };
      threads = update s.threads s.current_thread (some (record this { sp = v }));
      current_thread = s.next_thread;
    },
    ground arith,
    record { state = refl; low = ground arith; high = ground arith; rest = λ q n n'. ground arith },
  )

-- What `do_switch` leaves, when the thread that runs afterwards has the saved stack pointer `p`.
pub record Switched (b : Board) (s : System) (this : Thread) (p : ℕ) (s' : System) : Type 0 where
  pub state : s' ≡ record s {
    cpu = s'.cpu;
    threads = update s.threads s.current_thread (some (record this { sp = s.cpu.sp - 37 }));
    current_thread = s.next_thread;
  }
  pub frame : IsFrame s'.cpu.ram (s.cpu.sp - 37) s.cpu.regs (s.cpu.sreg % 128) b.return_address
  pub memory :
      (q : ℕ)
      → Outside s.cpu.sp (37 + b.spill_size) q
      → q ≢ b.px_current_tcb_aux
      → q ≢ b.px_current_tcb_aux + 1
      → s'.cpu.ram q ≡ s.cpu.ram q
  pub sp : s'.cpu.sp ≡ p + 37
  pub pc : s'.cpu.pc ≡ s'.cpu.ram (p + 36) * 256 + s'.cpu.ram (p + 37)
  pub resumed :
      (g : ℕ → ℕ) (status ret : ℕ)
      → IsFrame s'.cpu.ram p g status ret
      → ((i : ℕ) → i < 32 → s'.cpu.regs i ≡ g i) × (s'.cpu.pc ≡ ret) × (s'.cpu.sreg ≡ 0xab)

Restored-resumed :
    (c c' : Cpu) (p : ℕ)
    → Restored c c' p
    → (g : ℕ → ℕ) (status ret : ℕ) → IsFrame c'.ram p g status ret
    → ((i : ℕ) → i < 32 → c'.regs i ≡ g i) × (c'.pc ≡ ret) × (c'.sreg ≡ 0xab)
Restored-resumed c c' p r g status ret f =
    let k : IsFrame c.ram p g status ret = rw r.ram at f in
    (r.regs g k.saved_regs, omega arith, omega arith)

module _ (b : Board) (s : System) (ready : IsReady b s) where
  open b use {px_current_tcb as px, px_current_tcb_aux as aux, return_address as ret}

  abbrev called : Cpu
  called = push_byte (push_byte s.cpu (ret % 256)) (ret / 256)

  abbrev saved : System
  saved = record s { cpu = exec (save_context b) called }

  abbrev stored : ℕ → ℕ
  stored = framed called.ram called.sp called.regs (called.sreg % 128)

  called-sp : called.sp ≡ s.cpu.sp - 2
  called-sp = omega arith

  stored-Outside : (q : ℕ) → Outside s.cpu.sp 37 q → stored q ≡ s.cpu.ram q
  stored-Outside q (inl below) =
      framed-Outside called.ram called.sp called.regs (called.sreg % 128) q (omega arith)
        (inl (omega arith))
      ∙ ground arith
  stored-Outside q (inr above) =
      framed-Outside called.ram called.sp called.regs (called.sreg % 128) q (omega arith)
        (inr (omega arith))
      ∙ ground arith

  narrower : (q : ℕ) → Outside s.cpu.sp (37 + b.spill_size) q → Outside s.cpu.sp 37 q
  narrower q out = ground arith

  stored-IsLinked : IsLinked b stored
  stored-IsLinked = record {
    low = stored-Outside px (narrower px ready.px_low) ∙ ready.linked.low;
    high = stored-Outside (px + 1) (narrower (px + 1) ready.px_high) ∙ ready.linked.high;
    reach = ready.linked.reach;
  }

  saved_lem :
      (saved.cpu.ram
        ≡ update (update stored aux ((s.cpu.sp - 37) % 256)) (aux + 1) ((s.cpu.sp - 37) / 256))
      × (saved.cpu.sp ≡ s.cpu.sp - 37)
  saved_lem =
      let (r, p) = exec-save_context b called (omega arith) (omega arith) stored-IsLinked in
      let e : called.sp - 35 ≡ s.cpu.sp - 37 = omega arith in (rw (← e) r, rw (← e) p)

  saved-aux :
      (saved.cpu.ram aux ≡ (s.cpu.sp - 37) % 256)
      × (saved.cpu.ram (aux + 1) ≡ (s.cpu.sp - 37) / 256)
  saved-aux = rw (saved_lem.0) (ground arith, ground arith)

  saved-ne : (q : ℕ) → q ≢ aux → q ≢ aux + 1 → saved.cpu.ram q ≡ stored q
  saved-ne q n n' = rw (saved_lem.0) (ground arith)

  -- The rest of the switch, from what `change_high` does.
  switch_from :
      (p : ℕ) (this : Thread) (s1 : System)
      → p + 37 < 2 ^ 16
      → change_high b saved ≡ some s1
      → Changed b saved (s.cpu.sp - 37) p this s1
      → (s' : System) × (do_switch b s ≡ some s') × Switched b s this p s'
  unfolding do_switch
  switch_from p this s1 small e k = (
    record s1 { cpu = exec (restore_context b) reg },
    rw e refl,
    record {
      state = ap {A = System} (λ t. record t { cpu = exec (restore_context b) reg }) k.state;
      frame =
          IsFrame-eq stored _ (s.cpu.sp - 37)
            (λ q above under.
              final q (inr above) (omega (arith, ready.aux_low)) (omega (arith, ready.aux_high)))
            (framed-IsFrame s.cpu ret ready.small ready.room);
      memory = λ q out n n'. final q (below_frame q out) n n' ∙ stored-Outside q (narrower q out);
      sp = restored.sp;
      pc = rw restored.ram restored.pc;
      resumed = Restored-resumed reg _ p restored;
    },
  )
    where
      reg : Cpu
      reg = record s1.cpu { regs = b.clobber s1.cpu; ram = b.spill s1.cpu }

      below_frame :
          (q : ℕ) → Outside s.cpu.sp (37 + b.spill_size) q → Outside (s.cpu.sp - 37) b.spill_size q
      below_frame q out = ground (arith, ready.room)

      at_sp : s1.cpu.sp ≡ s.cpu.sp - 37
      at_sp = ap (λ t. Cpu.sp (System.cpu t)) k.state ∙ saved_lem.1

      kept : (q : ℕ) → Outside (s.cpu.sp - 37) b.spill_size q → reg.ram q ≡ s1.cpu.ram q
      kept q out = ready.spilled s1.cpu q (subst (λ p. Outside p b.spill_size q) (sym at_sp) out)

      ram_after :
          (q : ℕ)
          → Outside (s.cpu.sp - 37) b.spill_size q
          → q ≢ aux
          → q ≢ aux + 1
          → reg.ram q ≡ stored q
      ram_after q out n n' = kept q out ∙ k.rest q n n' ∙ saved-ne q n n'

      linked : IsLinked b reg.ram
      linked = record {
        low =
            ram_after px (below_frame px ready.px_low) (omega (arith, ready.apart))
              (omega (arith, ready.apart))
            ∙ stored-IsLinked.low;
        high =
            ram_after (px + 1) (below_frame (px + 1) ready.px_high) (omega (arith, ready.apart))
              (omega (arith, ready.apart))
            ∙ stored-IsLinked.high;
        reach = ready.linked.reach;
      }

      aux_low : reg.ram aux ≡ p % 256
      aux_low = kept aux (below_frame aux ready.aux_low) ∙ k.low

      aux_high : reg.ram (aux + 1) ≡ p / 256
      aux_high = kept (aux + 1) (below_frame (aux + 1) ready.aux_high) ∙ k.high

      restored : Restored reg (exec (restore_context b) reg) p
      restored =
          exec-restore_context b reg p (omega (arith, aux_low, aux_high)) small
            (omega (arith, aux_low)) linked

      final :
          (q : ℕ)
          → Outside (s.cpu.sp - 37) b.spill_size q
          → q ≢ aux
          → q ≢ aux + 1
          → (exec (restore_context b) reg).ram q ≡ stored q
      final q out n n' = ap (λ ram. ram q) restored.ram ∙ ram_after q out n n'

  -- The thread that runs goes on itself.
  pub do_switch_self :
      {this : Thread}
      → s.threads s.current_thread ≡ some this
      → s.next_thread ≡ s.current_thread
      → (s' : System) × (do_switch b s ≡ some s') × Switched b s this (s.cpu.sp - 37) s'
  do_switch_self {this} live e =
      let (lo, hi) = saved-aux in
      let (s1, run, k) =
        change_high-same b saved (s.cpu.sp - 37) (omega (arith, ready.small)) lo hi live e in
      switch_from (s.cpu.sp - 37) this s1 (omega (arith, ready.small, ready.room)) run k

  pub do_switch-other :
      {this next : Thread}
      → s.threads s.current_thread ≡ some this
      → s.threads s.next_thread ≡ some next
      → s.current_thread ≢ s.next_thread
      → next.sp + 37 < 2 ^ 16
      → (s' : System) × (do_switch b s ≡ some s') × Switched b s this next.sp s'
  do_switch-other {this} {next} live live' ne small =
      let (lo, hi) = saved-aux in
      let (s1, run, k) =
        change_high-other b saved (s.cpu.sp - 37) (omega (arith, ready.small)) (omega arith) lo hi
          live live' ne in
      switch_from next.sp this s1 small run k
