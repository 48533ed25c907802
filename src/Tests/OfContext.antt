-- ===== src/Tests/OfContext.antt =====
-- A switch from the first thread of the fixtures to the second, and back.
use ecp_c.Base.{ℕ, ◌<◌, ◌≡◌, inl, inr, refl, sym, ap, ◌∙◌, Option, some, none, some_inj, arith}
use mathlib.Core.Path.{subst}
use ecp_c.System.{Cpu, System}
use ecp_c.Context.{do_switch}
use ecp_c.Context.Layout.{Outside}
use ecp_c.Context.Switch.{IsReady, Switched, do_switch-other}
use ecp_c.Context.Resume.{LeftAlone, switch_and_back}
use ecp_c.Tests.Fixtures.{system, board, first, second}

pub board_spills : (c : Cpu) (q : ℕ) → Outside c.sp 2 q → board.spill c q ≡ c.ram q
board_spills c q out = ground arith

pub system-IsReady : IsReady board system
system-IsReady = record {
  small = omega arith;
  room = omega arith;
  linked = record { low = refl; high = refl; reach = omega arith };
  apart = inl (omega arith);
  spilled = board_spills;
  px_low = inl (omega arith);
  px_high = inl (omega arith);
  aux_low = inl (omega arith);
  aux_high = inl (omega arith);
}

abbrev result : Option System → System
result none = system
result (some s) = s

some-result : (o : Option System) {s : System} → o ≡ some s → o ≡ some (result o)
some-result o {s} e = e ∙ sym (ap (λ p. some (result p)) e)

there : (s' : System) × (do_switch board system ≡ some s') × Switched board system first 1500 s'
there =
    do_switch-other board system system-IsReady {this = first} {next = second} refl refl
      (omega arith) (omega arith)

-- The second thread runs.
abbrev switched : System
switched = result (do_switch board system)

switched_run : do_switch board system ≡ some switched
switched_run = some-result (do_switch board system) there.1

-- Then it switches back: the first thread is next again.
abbrev returning : System
returning = record switched { next_thread = 10 }

switched-Switched : Switched board system first 1500 switched
switched-Switched =
    let (s, run, k) = there in
    subst (Switched board system first 1500) (some_inj (sym run ∙ switched_run)) k

switched_current : returning.current_thread ≡ 20
switched_current = ap System.current_thread switched-Switched.state

switched_second : returning.threads returning.current_thread ≡ some second
switched_second =
    ap returning.threads switched_current ∙ ap (λ s. System.threads s 20) switched-Switched.state

returning-IsReady : IsReady board returning
returning-IsReady = record {
  small = omega (arith, switched-Switched.sp);
  room = omega (arith, switched-Switched.sp);
  linked = record {
    low = switched-Switched.memory 0x100 (inl (omega arith)) (omega arith) (omega arith);
    high = switched-Switched.memory 0x101 (inl (omega arith)) (omega arith) (omega arith);
    reach = omega arith;
  };
  apart = inl (omega arith);
  spilled = board_spills;
  px_low = inl (omega (arith, switched-Switched.sp));
  px_high = inl (omega (arith, switched-Switched.sp));
  aux_low = inl (omega (arith, switched-Switched.sp));
  aux_high = inl (omega (arith, switched-Switched.sp));
}

returning-LeftAlone : LeftAlone board switched returning 10 1963
returning-LeftAlone = record {
  block = refl;
  bytes = λ q above under. refl;
  apart = λ q above under. inr (omega (arith, switched-Switched.sp));
  not_aux = λ q above under. (omega arith, omega arith);
}

switch_and_back_example :
    (s3 : System) × (do_switch board returning ≡ some s3)
    × (s3.current_thread ≡ 10)
    × ((i : ℕ) → i < 32 → s3.cpu.regs i ≡ system.cpu.regs i)
    × (s3.cpu.sp ≡ 2000)
    × (s3.cpu.pc ≡ 0x1234)
    × (s3.cpu.sreg ≡ 0xab)
switch_and_back_example =
    switch_and_back board system switched returning {this = first} {next = second} {other = second}
      system-IsReady refl refl (omega arith) (omega arith) switched_run returning-LeftAlone
      returning-IsReady switched_second (omega (arith, switched_current)) refl
