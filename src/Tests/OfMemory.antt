-- ===== src/Tests/OfMemory.antt =====
-- A word written across the end of the address space, and read back.
use ecp_c.Base.{ℕ, ◌+◌, ◌%◌, ◌^◌, ◌≡◌, ◌≢◌, arith, u16}
use ecp_c.System.{System}
use ecp_c.Memory.{
  thread_read_byte, thread_read_uint16_t, thread_read_uint32_t, thread_read_float,
  thread_write_uint32_t,
}
use ecp_c.Memory.Access.{read-write}
use ecp_c.Tests.Fixtures.{system}

abbrev written : System
written = thread_write_uint32_t system 0xfffe 0x1234_5678

read-write_example :
    (thread_read_uint32_t written 0xfffe ≡ 0x1234_5678)
    × (thread_read_float written 0xfffe ≡ 0x1234_5678)
    × (thread_read_uint16_t written 0xfffe ≡ 0x1234_5678 % 2 ^ 16)
    × (thread_read_byte written 0xfffe ≡ 0x1234_5678 % 2 ^ 8)
    × ((q : ℕ)
        → u16 q ≢ u16 0xfffe
        → u16 q ≢ u16 (0xfffe + 1)
        → u16 q ≢ u16 (0xfffe + 2)
        → u16 q ≢ u16 (0xfffe + 3)
        → thread_read_byte written q ≡ thread_read_byte system q)
read-write_example = read-write system 0xfffe 0x1234_5678 (omega arith)
