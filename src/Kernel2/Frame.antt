-- ===== src/Kernel2/Frame.antt =====
-- What the two halves of `do_switch` of arduino/context_switch_2_0/context_switch_2_0.ino do, and
-- the 35 bytes that a suspended thread has on its stack.
use ecp_c.Base.{
  ℕ, ◌+◌, ◌-◌, ◌*◌, ◌/◌, ◌%◌, ◌^◌, ◌≤◌, ◌<◌, ◌≡◌, refl, sym, ◌∙◌, [], ◌∷◌, ◌++◌, arith, u16,
}
use mathlib.Core.List.{map}
use ecp_c.System.{Cpu, Board, update}
use ecp_c.Context.{exec, step, ret, pushes, pops, store_sp, load_sp, registers_up, registers_down}
use ecp_c.Context.Frames.{peek, store_down, assign, assign-map}
use ecp_c.Context.Exec.{
  IsLinked, exec-append, exec-pushes, exec-pops, exec-store_sp, exec-load_sp, has-registers_down,
}
use ecp_c.Kernel2.Switch.{push_status, pop_status, save_context, restore_context}

-- What `do_switch` stores at `p` and below, entered with registers `g`.
unfoldable pub framed : (ℕ → ℕ) → ℕ → (ℕ → ℕ) → ℕ → ℕ → ℕ
framed ram p g status = update (store_down ram p (map g registers_up)) (p - 32) status

exec-push_status :
    (c : Cpu)
    → 1 ≤ c.sp
    → c.sp < 2 ^ 16
    → let c' = exec push_status c in (c'.ram ≡ update c.ram c.sp c.sreg) × (c'.sp ≡ c.sp - 1)
unfolding exec step
exec-push_status c room small = rw one (refl, refl)
  where
    one : u16 (c.sp + 0xffff) ≡ c.sp - 1
    one = omega arith

exec-pop_status :
    (c : Cpu)
    → c.sp + 1 < 2 ^ 16
    → let c' = exec pop_status c in
      (c'.ram ≡ c.ram) × (c'.sp ≡ c.sp + 1) × (c'.sreg ≡ c.ram (c.sp + 1))
unfolding exec step
exec-pop_status c room = rw one (refl, refl, refl)
  where
    one : u16 (c.sp + 1) ≡ c.sp + 1
    one = omega arith

module _ (b : Board) where
  open b use {px_current_tcb_aux as aux}

  save_tail :
      (c : Cpu)
      → c.sp < 2 ^ 16
      → 1 ≤ c.sp
      → IsLinked b (update c.ram c.sp c.sreg)
      → let c' = exec (store_sp b) (exec push_status c) in
        (c'.ram
          ≡ update
              (update (update c.ram c.sp c.sreg) aux ((c.sp - 1) % 256))
              (aux + 1)
              ((c.sp - 1) / 256))
        × (c'.sp ≡ c.sp - 1)
  save_tail c small room l =
      let (r, p) = exec-push_status c room small in
      let (r', p', _) = exec-store_sp b (exec push_status c) (rw r l) in
      (rw (r', r, p) refl, rw (p', p) refl)

  -- Saving writes the frame under the stack pointer, and the new stack pointer to
  -- `pxCurrentTCB_aux`.
  pub exec-save_context :
      (c : Cpu)
      → c.sp < 2 ^ 16
      → 33 ≤ c.sp
      → IsLinked b (framed c.ram c.sp c.regs c.sreg)
      → let c' = exec (save_context b) c in
        (c'.ram
          ≡ update
              (update (framed c.ram c.sp c.regs c.sreg) aux ((c.sp - 33) % 256))
              (aux + 1)
              ((c.sp - 33) / 256))
        × (c'.sp ≡ c.sp - 33)
  unfolding framed
  exec-save_context c small room l =
      rw (exec-append (pushes registers_up) (push_status ++ store_sp b) c) (
        rw (exec-append push_status (store_sp b) (exec (pushes registers_up) c)) (
          rw (exec-pushes registers_up c small (omega arith))
            (rw (← total) (save_tail pushed (omega arith) (omega arith) l))))
    where
      pushed : Cpu
      pushed = record c { ram = store_down c.ram c.sp (map c.regs registers_up); sp = c.sp - 32 }

      total : c.sp - 32 - 1 ≡ c.sp - 33
      total = omega arith

-- Restoring from the stack pointer `p` that `pxCurrentTCB_aux` holds.
pub record Restored (c c' : Cpu) (p : ℕ) : Type 0 where
  pub ram : c'.ram ≡ c.ram
  pub sp : c'.sp ≡ p + 35
  pub pc : c'.pc ≡ c.ram (p + 34) * 256 + c.ram (p + 35)
  pub sreg : c'.sreg ≡ c.ram (p + 1)
  pub regs :
      (g : ℕ → ℕ)
      → peek c.ram (p + 1) 32 ≡ map g registers_down
      → (i : ℕ) → i < 32
      → c'.regs i ≡ g i

exec-ret :
    (c : Cpu)
    → c.sp + 2 < 2 ^ 16
    → exec (ret ∷ []) c ≡ record c { sp = c.sp + 2; pc = c.ram (c.sp + 1) * 256 + c.ram (c.sp + 2) }
unfolding exec step
exec-ret c room = rw (one, two) refl
  where
    one : u16 (c.sp + 1) ≡ c.sp + 1
    one = omega arith

    two : u16 (c.sp + 2) ≡ c.sp + 2
    two = omega arith

abbrev popped : Cpu → Cpu
popped c = record c {
  sp = c.sp + 32 + 2;
  regs = assign registers_down (peek c.ram c.sp 32) c.regs;
  pc = c.ram (c.sp + 32 + 1) * 256 + c.ram (c.sp + 32 + 2);
}

pop_registers : (c : Cpu) → c.sp + 34 < 2 ^ 16 → exec (pops registers_down ++ ret ∷ []) c ≡ popped c
pop_registers c room =
    rw (exec-append (pops registers_down) (ret ∷ []) c)
      (rw (exec-pops registers_down c (omega arith)) (exec-ret _ (omega arith)))

popped-Restored :
    (c c1 c2 : Cpu) (p : ℕ)
    → c1.ram ≡ c.ram
    → c1.sp ≡ p
    → c2.ram ≡ c1.ram
    → c2.sp ≡ c1.sp + 1
    → c2.sreg ≡ c1.ram (c1.sp + 1)
    → Restored c (popped c2) p
popped-Restored c c1 c2 p r1 s1 r2 s2 g2 = record {
  ram = r2 ∙ r1;
  sp = omega arith;
  pc = rw (r2, r1, s2, s1, low, high) refl;
  sreg = rw (g2, r1, s1) refl;
  regs = λ g framed_at i h.
      rw (r2, r1, s2, s1, framed_at, assign-map registers_down g c2.regs i, has-registers_down i h)
        refl;
}
  where
    low : p + 1 + 32 + 1 ≡ p + 34
    low = omega arith

    high : p + 1 + 32 + 2 ≡ p + 35
    high = omega arith

module _ (b : Board) where
  open b use {px_current_tcb_aux as aux}

  pub exec-restore_context :
      (c : Cpu) (p : ℕ)
      → p ≡ c.ram (aux + 1) * 256 + c.ram aux
      → p + 35 < 2 ^ 16
      → c.ram aux < 256
      → IsLinked b c.ram
      → Restored c (exec (restore_context b) c) p
  exec-restore_context c p e room byte l =
      let rest = pops registers_down ++ ret ∷ [] in
      let c1 = exec (load_sp b) c in
      let c2 = exec pop_status c1 in
      let (r1, s1, _) = exec-load_sp b c l byte in
      let (r2, s2, g2) = exec-pop_status c1 (omega arith) in
      rw (exec-append (load_sp b) (pop_status ++ rest) c) (
        rw (exec-append pop_status rest c1) (
          rw (pop_registers c2 (omega arith)) (popped-Restored c c1 c2 p r1 (s1 ∙ sym e) r2 s2 g2)))
