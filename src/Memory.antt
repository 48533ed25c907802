-- ===== src/Memory.antt =====
-- The raw memory access of arduino/libraries/rtthreads/rtthreads.cpp (thread_read_*, thread_write_*).
-- A pointer has 16 bits, so the cast drops the upper half of a position; words are little-endian.
-- A float is its 32-bit pattern.
pub mod Access
use ecp_c.Base.{ℕ, ◌+◌, ◌*◌, ◌/◌, ◌%◌, ◌^◌, u16}
use ecp_c.System.{Cpu, System, update}

abbrev pub store : System → ℕ → ℕ → System
store s a v = record s { cpu = record s.cpu { ram = update s.cpu.ram (u16 a) (v % 256) } }

unfoldable pub thread_read_byte : System → ℕ → ℕ
thread_read_byte s position = s.cpu.ram (u16 position)

unfoldable pub thread_read_uint16_t : System → ℕ → ℕ
thread_read_uint16_t s position = s.cpu.ram (u16 position) + 256 * s.cpu.ram (u16 (position + 1))

unfoldable pub thread_read_uint32_t : System → ℕ → ℕ
thread_read_uint32_t s position =
    s.cpu.ram (u16 position)
    + 256 * s.cpu.ram (u16 (position + 1))
    + 65536 * s.cpu.ram (u16 (position + 2))
    + 16777216 * s.cpu.ram (u16 (position + 3))

unfoldable pub thread_read_float : System → ℕ → ℕ
unfolding thread_read_uint32_t
thread_read_float s position = thread_read_uint32_t s position

unfoldable pub thread_write_byte : System → ℕ → ℕ → System
thread_write_byte s position v = store s position v

unfoldable pub thread_write_uint16_t : System → ℕ → ℕ → System
thread_write_uint16_t s position v = store (store s position v) (position + 1) (v / 256)

unfoldable pub thread_write_uint32_t : System → ℕ → ℕ → System
thread_write_uint32_t s position v =
    store (store (store (store s position v) (position + 1) (v / 256)) (position + 2) (v / 65536))
      (position + 3) (v / 16777216)

unfoldable pub thread_write_float : System → ℕ → ℕ → System
unfolding thread_write_uint32_t
thread_write_float s position v = thread_write_uint32_t s position v
