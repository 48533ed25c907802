-- ===== src/Kernel2/Switch.antt =====
-- `change_high` and `do_switch` of arduino/context_switch_2_0/context_switch_2_0.ino. `do_switch` is
-- not naked: the compiled function has no frame of its own and ends in `ret`.
use ecp_c.Base.{◌+◌, ◌*◌, ◌/◌, ◌%◌, ◌==◌, if◌then◌else◌, ◌>>=◌, Option, some, List, [], ◌∷◌, ◌++◌}
use ecp_c.System.{Board, update}
use ecp_c.Context.{
  Instr, push, pop, load_port, store_port, status_register, ret, pushes, pops, push_byte,
  registers_up, registers_down, store_sp, load_sp, exec,
}
use ecp_c.Kernel2.State.{System, put_thread}

abbrev pub push_status : List Instr
push_status = load_port 0 status_register ∷ push 0 ∷ []

abbrev pub pop_status : List Instr
pop_status = pop 0 ∷ store_port status_register 0 ∷ []

module _ (b : Board) where
  -- `do_switch` up to the call of `change_high`.
  abbrev pub save_context : List Instr
  save_context = pushes registers_up ++ (push_status ++ store_sp b)

  -- `do_switch` from there on. The `0` of `out 0x3d, 0` is the register r0.
  abbrev pub restore_context : List Instr
  restore_context = load_sp b ++ (pop_status ++ (pops registers_down ++ ret ∷ []))

  unfoldable pub change_high : System → Option System
  change_high s =
      let c = s.cpu in
      let a = b.px_current_tcb_aux in
      do
        this ← s.threads s.current_thread
        let aux = c.ram (a + 1) % 256 * 256 + c.ram a % 256
        let s1 = put_thread s s.current_thread (record this { sp = aux })
        next ← s1.threads s1.next_thread
        let ram2 = update (update c.ram a (next.sp % 256)) (a + 1) (next.sp / 256 % 256)
        let ram = if s1.current_thread == s1.next_thread then c.ram else ram2
        some (record s1 { cpu = record c { ram = ram }; current_thread = s1.next_thread })

  -- The call of `do_switch`, with the return address that the call pushes.
  unfoldable pub do_switch : System → Option System
  do_switch s =
      let c = push_byte (push_byte s.cpu (b.return_address % 256)) (b.return_address / 256) in
      do
        s' ← change_high (record s { cpu = exec save_context c })
        let c' = record s'.cpu { regs = b.clobber s'.cpu; ram = b.spill s'.cpu }
        some (record s' { cpu = exec restore_context c' })
