-- ===== src/Context/Exec.antt =====
-- What the two halves of `do_switch` do to the stack pointer, the registers and the memory.
use ecp_c.Base.{
  ℕ, ◌+◌, ◌-◌, ◌*◌, ◌/◌, ◌%◌, ◌^◌, ◌≤◌, ◌<◌, ◌≡◌, refl, sym, ◌∙◌, List, [], ◌∷◌, ◌++◌, arith,
  length, u16, true,
}
use mathlib.Core.List.{map}
use ecp_c.System.{Cpu, Board, update}
use ecp_c.Context.{
  Instr, exec, step, pushes, pops, push_byte, store_sp, load_sp, push_status, pop_status,
  registers_up, registers_down, save_context, restore_context,
}
use ecp_c.Context.Frames.{peek, store_down, assign, assign-map, has}

pub exec-append : (xs ys : List Instr) (c : Cpu) → exec (xs ++ ys) c ≡ exec ys (exec xs c)
unfolding exec
exec-append [] ys c = refl
exec-append (x ∷ xs) ys c = exec-append xs ys (step c x)

pub exec-pushes :
    (rs : List ℕ) (c : Cpu)
    → c.sp < 2 ^ 16
    → length rs ≤ c.sp
    → exec (pushes rs) c
      ≡ record c { ram = store_down c.ram c.sp (map c.regs rs); sp = c.sp - length rs }
unfolding exec step store_down
exec-pushes [] c small room = ground arith
exec-pushes (r ∷ rs) c small room = ground (arith, exec-pushes rs (push_byte c (c.regs r)))

pub exec-pops :
    (rs : List ℕ) (c : Cpu)
    → c.sp + length rs < 2 ^ 16
    → exec (pops rs) c
      ≡ record c { sp = c.sp + length rs; regs = assign rs (peek c.ram c.sp (length rs)) c.regs }
unfolding exec step assign peek
exec-pops [] c room = ground arith
exec-pops (r ∷ rs) c room = ground (arith, exec-pops rs (step c (Instr.pop r)))

module _ (b : Board) where
  open b use {px_current_tcb as px, px_current_tcb_aux as aux}

  -- The linker's words: `pxCurrentTCB` holds the address of `pxCurrentTCB_aux`.
  pub record IsLinked (ram : ℕ → ℕ) : Type 0 where
    pub low : ram px ≡ aux % 256
    pub high : ram (px + 1) ≡ aux / 256
    pub reach : aux + 1 < 2 ^ 16

  pointer : (ram : ℕ → ℕ) → IsLinked ram → ram (px + 1) * 256 + ram px ≡ aux
  pointer ram l = omega arith

  pointer_inc : (ram : ℕ → ℕ) → IsLinked ram → u16 (aux + 1) / 256 * 256 + (aux + 1) % 256 ≡ aux + 1
  pointer_inc ram l = omega arith

  -- The six instructions that store the stack pointer in `pxCurrentTCB_aux`.
  pub exec-store_sp :
      (c : Cpu)
      → IsLinked c.ram
      → let c' = exec (store_sp b) c in
        (c'.ram ≡ update (update c.ram aux (c.sp % 256)) (aux + 1) (c.sp / 256))
        × (c'.sp ≡ c.sp)
        × (c'.pc ≡ c.pc)
  unfolding exec step
  exec-store_sp c l = rw (pointer c.ram l, pointer_inc c.ram l) (refl, refl, refl)

  -- The six that load it.
  pub exec-load_sp :
      (c : Cpu)
      → IsLinked c.ram
      → c.ram aux < 256
      → let c' = exec (load_sp b) c in
        (c'.ram ≡ c.ram) × (c'.sp ≡ c.ram (aux + 1) * 256 + c.ram aux) × (c'.pc ≡ c.pc)
  unfolding exec step
  exec-load_sp c l n = rw (pointer c.ram l, pointer_inc c.ram l) (refl, omega arith, refl)

exec-push_status :
    (c : Cpu)
    → c.sp < 2 ^ 16
    → 3 ≤ c.sp
    → let c' = exec push_status c in
      (c'.ram ≡ update (update (update c.ram c.sp c.sreg) (c.sp - 1) 0xab) (c.sp - 2) 0xab)
      × (c'.sp ≡ c.sp - 3)
      × (c'.pc ≡ c.pc)
unfolding exec step
exec-push_status c small room = rw (three, two, one) (refl, refl, refl)
  where
    one : u16 (c.sp + 0xffff) ≡ c.sp - 1
    one = omega arith

    two : u16 (u16 (c.sp + 0xffff) + 0xffff) ≡ c.sp - 2
    two = omega arith

    three : u16 (u16 (u16 (c.sp + 0xffff) + 0xffff) + 0xffff) ≡ c.sp - 3
    three = omega arith

-- Three bytes are popped, and the first of them ends up in the status register.
exec-pop_status :
    (c : Cpu)
    → c.sp + 3 < 2 ^ 16
    → let c' = exec pop_status c in
      (c'.ram ≡ c.ram) × (c'.sp ≡ c.sp + 3) × (c'.sreg ≡ c.ram (c.sp + 1))
unfolding exec step
exec-pop_status c room = rw (three, one) (refl, refl, refl)
  where
    one : u16 (c.sp + 1) ≡ c.sp + 1
    one = omega arith

    three : u16 (u16 (u16 (c.sp + 1) + 1) + 1) ≡ c.sp + 3
    three = omega arith

abbrev pushed_cpu : Cpu → Cpu
pushed_cpu c = record c {
  ram = store_down c.ram c.sp (map c.regs registers_up);
  sp = c.sp - 32;
  sreg = c.sreg % 128;
}

exec-pushes_after_cli :
    (c : Cpu) → c.sp < 2 ^ 16 → 32 ≤ c.sp → exec (Instr.cli ∷ pushes registers_up) c ≡ pushed_cpu c
unfolding exec step
exec-pushes_after_cli c small room = exec-pushes registers_up (step c Instr.cli) small (omega arith)

-- The status register and the two marks, at `p` and below.
unfoldable pub marked : (ℕ → ℕ) → ℕ → ℕ → ℕ → ℕ
marked ram p status = update (update (update ram p status) (p - 1) 0xab) (p - 2) 0xab

-- What `do_switch` stores at `p` and below, entered with registers `g`.
unfoldable pub framed : (ℕ → ℕ) → ℕ → (ℕ → ℕ) → ℕ → ℕ → ℕ
framed ram p g status = marked (store_down ram p (map g registers_up)) (p - 32) status

module _ (b : Board) where
  open b use {px_current_tcb as px, px_current_tcb_aux as aux}

  save_tail :
      (c : Cpu)
      → c.sp < 2 ^ 16
      → 3 ≤ c.sp
      → IsLinked b (marked c.ram c.sp c.sreg)
      → let c' = exec (store_sp b) (exec push_status c) in
        (c'.ram
          ≡ update
              (update (marked c.ram c.sp c.sreg) aux ((c.sp - 3) % 256))
              (aux + 1)
              ((c.sp - 3) / 256))
        × (c'.sp ≡ c.sp - 3)
  unfolding marked
  save_tail c small room l =
      let (r, p, _) = exec-push_status c small room in
      let (r', p', _) = exec-store_sp b (exec push_status c) (rw r l) in (rw (r', r, p), rw (p', p))

  -- Saving writes the frame under the stack pointer, and the new stack pointer to
  -- `pxCurrentTCB_aux`.
  pub exec-save_context :
      (c : Cpu)
      → c.sp < 2 ^ 16
      → 35 ≤ c.sp
      → IsLinked b (framed c.ram c.sp c.regs (c.sreg % 128))
      → let c' = exec (save_context b) c in
        (c'.ram
          ≡ update
              (update (framed c.ram c.sp c.regs (c.sreg % 128)) aux ((c.sp - 35) % 256))
              (aux + 1)
              ((c.sp - 35) / 256))
        × (c'.sp ≡ c.sp - 35)
  unfolding framed
  exec-save_context c small room l =
      rw (exec-append (Instr.cli ∷ pushes registers_up) (push_status ++ store_sp b) c) (
        rw (exec-append push_status (store_sp b) (exec (Instr.cli ∷ pushes registers_up) c)) (
          rw (exec-pushes_after_cli c small (omega arith))
            (rw (← total) (save_tail (pushed_cpu c) (omega arith) (omega arith) l))))
    where
      total : c.sp - 32 - 3 ≡ c.sp - 35
      total = omega arith

pub has-registers_down : (i : ℕ) → i < 32 → has i registers_down ≡ true
unfolding has
has-registers_down i h = ground arith

-- Restoring from the stack pointer `p` that `pxCurrentTCB_aux` holds.
pub record Restored (c c' : Cpu) (p : ℕ) : Type 0 where
  pub ram : c'.ram ≡ c.ram
  pub sp : c'.sp ≡ p + 37
  pub pc : c'.pc ≡ c.ram (p + 36) * 256 + c.ram (p + 37)
  pub sreg : c'.sreg ≡ c.ram (p + 1) % 128 + 128
  pub regs :
      (g : ℕ → ℕ)
      → peek c.ram (p + 3) 32 ≡ map g registers_down
      → (i : ℕ) → i < 32
      → c'.regs i ≡ g i

exec-reti :
    (c : Cpu)
    → c.sp + 2 < 2 ^ 16
    → exec (Instr.reti ∷ []) c ≡ record c {
      sp = c.sp + 2;
      pc = c.ram (c.sp + 1) * 256 + c.ram (c.sp + 2);
      sreg = c.sreg % 128 + 128;
    }
unfolding exec step
exec-reti c room = rw (one, two)
  where
    one : u16 (c.sp + 1) ≡ c.sp + 1
    one = omega arith

    two : u16 (c.sp + 2) ≡ c.sp + 2
    two = omega arith

abbrev popped : Cpu → Cpu
popped c = record c {
  sp = c.sp + 32 + 2;
  regs = assign registers_down (peek c.ram c.sp 32) c.regs;
  pc = c.ram (c.sp + 32 + 1) * 256 + c.ram (c.sp + 32 + 2);
  sreg = c.sreg % 128 + 128;
}

pop_registers :
    (c : Cpu) → c.sp + 34 < 2 ^ 16 → exec (pops registers_down ++ Instr.reti ∷ []) c ≡ popped c
pop_registers c room =
    rw (exec-append (pops registers_down) (Instr.reti ∷ []) c)
      (rw (exec-pops registers_down c (omega arith)) (exec-reti _ (omega arith)))

popped-Restored :
    (c c1 c2 : Cpu) (p : ℕ)
    → c1.ram ≡ c.ram
    → c1.sp ≡ p
    → c2.ram ≡ c1.ram
    → c2.sp ≡ c1.sp + 3
    → c2.sreg ≡ c1.ram (c1.sp + 1)
    → Restored c (popped c2) p
popped-Restored c c1 c2 p r1 s1 r2 s2 g2 = record {
  ram = r2 ∙ r1;
  sp = omega arith;
  pc = rw (r2, r1, s2, s1, low, high);
  sreg = rw (g2, r1, s1);
  regs = λ g framed_at i h.
      rw (r2, r1, s2, s1, framed_at, assign-map registers_down g c2.regs i, has-registers_down i h);
}
  where
    low : p + 3 + 32 + 1 ≡ p + 36
    low = omega arith

    high : p + 3 + 32 + 2 ≡ p + 37
    high = omega arith

module _ (b : Board) where
  open b use {px_current_tcb as px, px_current_tcb_aux as aux}

  pub exec-restore_context :
      (c : Cpu) (p : ℕ)
      → p ≡ c.ram (aux + 1) * 256 + c.ram aux
      → p + 37 < 2 ^ 16
      → c.ram aux < 256
      → IsLinked b c.ram
      → Restored c (exec (restore_context b) c) p
  exec-restore_context c p e room byte l =
      let rest = pops registers_down ++ Instr.reti ∷ [] in
      let c1 = exec (load_sp b) c in
      let c2 = exec pop_status c1 in
      let (r1, s1, _) = exec-load_sp b c l byte in
      let (r2, s2, g2) = exec-pop_status c1 (omega arith) in
      rw (exec-append (load_sp b) (pop_status ++ rest) c) (
        rw (exec-append pop_status rest c1) (
          rw (pop_registers c2 (omega arith)) (popped-Restored c c1 c2 p r1 (s1 ∙ sym e) r2 s2 g2)))
