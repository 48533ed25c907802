-- ===== src/Kernel1/Switch.antt =====
-- The context switch of arduino/context_switch/context_switch.ino, whose text is that of the later
-- version.
use ecp_c.Base.{Option}
use ecp_c.System.{Board}
use ecp_c.Kernel2.State.{System}
use ecp_c.Kernel2.Switch

module _ (b : Board) where
  abbrev pub do_switch : System → Option System
  do_switch = Switch.do_switch b
