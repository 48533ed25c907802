-- ===== src/Context.antt =====
-- The context switch of arduino/libraries/rtthreads/rtthreads.cpp: the naked function `do_switch`,
-- an instruction at a time, and `change_high`, which it calls. A push stores and then lowers the
-- stack pointer; a call pushes the low byte of the return address first. The use that the compiled
-- `change_high` makes of the free memory below the stack pointer is the board's `spill`.
pub mod Frames
pub mod Exec
pub mod Layout
pub mod Switch
pub mod Resume
use ecp_c.Base.{
  ℕ, ◌+◌, ◌-◌, ◌*◌, ◌/◌, ◌%◌, ◌==◌, if◌then◌else◌, ◌>>=◌, Option, some, List, [], ◌∷◌, ◌++◌, u8,
  u16,
}
use ecp_c.System.{Thread, Cpu, System, Board, update, put_thread}

pub data Port : Type 0 where
  spl sph status_register : Port

pub data Instr : Type 0 where
  cli : Instr
  push : ℕ → Instr
  pop : ℕ → Instr
  ldi : ℕ → ℕ → Instr
  lds : ℕ → ℕ → Instr
  load_port : ℕ → Port → Instr
  store_port : Port → ℕ → Instr
  st_x_inc : ℕ → Instr
  ld_x_inc : ℕ → Instr
  ret : Instr
  reti : Instr

-- The pointer register X is r27:r26.
abbrev x_pointer : Cpu → ℕ
x_pointer c = c.regs 27 * 256 + c.regs 26

abbrev x_inc : Cpu → (ℕ → ℕ) → ℕ → ℕ
x_inc c regs = update (update regs 26 ((x_pointer c + 1) % 256)) 27 (u16 (x_pointer c + 1) / 256)

abbrev pub push_byte : Cpu → ℕ → Cpu
push_byte c v = record c { ram = update c.ram c.sp v; sp = u16 (c.sp + 0xffff) }

read_port : Cpu → Port → ℕ
read_port c spl = c.sp % 256
read_port c sph = c.sp / 256
read_port c status_register = c.sreg

write_port : Cpu → Port → ℕ → Cpu
write_port c spl v = record c { sp = c.sp / 256 * 256 + v }
write_port c sph v = record c { sp = v * 256 + c.sp % 256 }
write_port c status_register v = record c { sreg = v }

unfoldable pub step : Cpu → Instr → Cpu
unfolding read_port write_port
step c cli = record c { sreg = c.sreg % 128 }
step c (push r) = push_byte c (c.regs r)
step c (pop r) = record c { sp = u16 (c.sp + 1); regs = update c.regs r (c.ram (u16 (c.sp + 1))) }
step c (ldi r k) = record c { regs = update c.regs r k }
step c (lds r a) = record c { regs = update c.regs r (c.ram a) }
step c (load_port r p) = record c { regs = update c.regs r (read_port c p) }
step c (store_port p r) = write_port c p (c.regs r)
step c (st_x_inc r) = record c {
  ram = update c.ram (x_pointer c) (c.regs r);
  regs = x_inc c c.regs;
}
step c (ld_x_inc r) = record c { regs = x_inc c (update c.regs r (c.ram (x_pointer c))) }
step c ret = record c {
  pc = c.ram (u16 (c.sp + 1)) * 256 + c.ram (u16 (c.sp + 2));
  sp = u16 (c.sp + 2);
}
step c reti = record c {
  pc = c.ram (u16 (c.sp + 1)) * 256 + c.ram (u16 (c.sp + 2));
  sp = u16 (c.sp + 2);
  sreg = c.sreg % 128 + 128;
}

unfoldable pub exec : List Instr → Cpu → Cpu
exec [] c = c
exec (i ∷ is) c = exec is (step c i)

abbrev pub pushes : List ℕ → List Instr
pushes [] = []
pushes (r ∷ rs) = push r ∷ pushes rs

abbrev pub pops : List ℕ → List Instr
pops [] = []
pops (r ∷ rs) = pop r ∷ pops rs

abbrev pub registers_up : List ℕ
registers_up =
    0 ∷ 1 ∷ 2 ∷ 3 ∷ 4 ∷ 5 ∷ 6 ∷ 7 ∷ 8 ∷ 9 ∷ 10 ∷ 11 ∷ 12 ∷ 13 ∷ 14 ∷ 15 ∷ 16 ∷ 17 ∷ 18 ∷ 19 ∷ 20
    ∷ 21 ∷ 22 ∷ 23 ∷ 24 ∷ 25 ∷ 26 ∷ 27 ∷ 28 ∷ 29 ∷ 30 ∷ 31 ∷ []

abbrev pub registers_down : List ℕ
registers_down =
    31 ∷ 30 ∷ 29 ∷ 28 ∷ 27 ∷ 26 ∷ 25 ∷ 24 ∷ 23 ∷ 22 ∷ 21 ∷ 20 ∷ 19 ∷ 18 ∷ 17 ∷ 16 ∷ 15 ∷ 14 ∷ 13
    ∷ 12 ∷ 11 ∷ 10 ∷ 9 ∷ 8 ∷ 7 ∷ 6 ∷ 5 ∷ 4 ∷ 3 ∷ 2 ∷ 1 ∷ 0 ∷ []

-- The status register under two marks; on the way back the topmost mark is what goes into the
-- status register.
abbrev pub push_status : List Instr
push_status = load_port 0 status_register ∷ push 0 ∷ ldi 16 0xab ∷ push 16 ∷ push 16 ∷ []

abbrev pub pop_status : List Instr
pop_status = pop 0 ∷ pop 16 ∷ pop 16 ∷ store_port status_register 0 ∷ []

module _ (b : Board) where
  -- Stack pointer to `pxCurrentTCB_aux`, and back.
  abbrev pub store_sp : List Instr
  store_sp =
      lds 26 b.px_current_tcb
      ∷ lds 27 (b.px_current_tcb + 1)
      ∷ load_port 0 spl
      ∷ st_x_inc 0
      ∷ load_port 0 sph
      ∷ st_x_inc 0
      ∷ []

  abbrev pub load_sp : List Instr
  load_sp =
      lds 26 b.px_current_tcb
      ∷ lds 27 (b.px_current_tcb + 1)
      ∷ ld_x_inc 0
      ∷ store_port spl 0
      ∷ ld_x_inc 0
      ∷ store_port sph 0
      ∷ []

  -- `do_switch` up to the call of `change_high`.
  abbrev pub save_context : List Instr
  save_context = (cli ∷ pushes registers_up) ++ (push_status ++ store_sp)

  -- `do_switch` from there on.
  abbrev pub restore_context : List Instr
  restore_context = load_sp ++ (pop_status ++ (pops registers_down ++ reti ∷ []))

  unfoldable pub change_high : System → Option System
  change_high s =
      let c = s.cpu in
      let a = b.px_current_tcb_aux in
      do
        this ← s.threads s.current_thread
        let aux = c.ram (a + 1) % 256 * 256 + c.ram a % 256
        let s1 = put_thread s s.current_thread (record this { sp = aux })
        next ← s1.threads s1.next_thread
        let ram2 = update (update c.ram a (next.sp % 256)) (a + 1) (next.sp / 256 % 256)
        let ram = if s1.current_thread == s1.next_thread then c.ram else ram2
        some (record s1 { cpu = record c { ram = ram }; current_thread = s1.next_thread })

  -- The call of `do_switch`, with the return address that the call pushes.
  unfoldable pub do_switch : System → Option System
  do_switch s =
      let c = push_byte (push_byte s.cpu (b.return_address % 256)) (b.return_address / 256) in
      do
        s' ← change_high (record s { cpu = exec save_context c })
        let c' = record s'.cpu { regs = b.clobber s'.cpu; ram = b.spill s'.cpu }
        some (record s' { cpu = exec restore_context c' })
