-- ===== src/Memory/Access.antt =====
-- What is written is read back, at every width, and nothing else is touched.
use ecp_c.Base.{ℕ, ◌+◌, ◌/◌, ◌%◌, ◌^◌, ◌<◌, ◌≡◌, ◌≢◌, arith, u16}
use ecp_c.System.{System}
use ecp_c.Memory.{
  thread_read_byte, thread_read_uint16_t, thread_read_uint32_t, thread_read_float,
  thread_write_uint16_t, thread_write_uint32_t,
}

-- The four addresses of a word are different, whatever the position.
next_ne : (p i j : ℕ) → i < j → j < 4 → u16 (p + i) ≢ u16 (p + j)
next_ne p i j h k = omega arith

-- A 32-bit word that is written at any position is read back from it, as it is and as a float; its
-- lower half is what a 16-bit read gives there, its lowest byte what a byte read gives; and a byte
-- at an address outside the four is as it was. Addresses are taken modulo 2 ^ 16.
pub read-write :
    (s : System) (position v : ℕ)
    → v < 2 ^ 32
    → let s' = thread_write_uint32_t s position v in
      (thread_read_uint32_t s' position ≡ v)
      × (thread_read_float s' position ≡ v)
      × (thread_read_uint16_t s' position ≡ v % 2 ^ 16)
      × (thread_read_byte s' position ≡ v % 2 ^ 8)
      × ((q : ℕ)
          → u16 q ≢ u16 position
          → u16 q ≢ u16 (position + 1)
          → u16 q ≢ u16 (position + 2)
          → u16 q ≢ u16 (position + 3)
          → thread_read_byte s' q ≡ thread_read_byte s q)
unfolding thread_write_uint32_t thread_read_uint32_t thread_read_float thread_read_uint16_t
    thread_read_byte
read-write s position v small =
    (ground arith, ground arith, ground arith, ground arith, λ q n0 n1 n2 n3. ground arith)

-- Two 16-bit writes, low half first, are one 32-bit write.
write16-write16 :
    (s : System) (position v : ℕ)
    → thread_write_uint16_t
        (thread_write_uint16_t s position (v % 2 ^ 16))
        (position + 2)
        (v / 2 ^ 16)
      ≡ thread_write_uint32_t s position v
unfolding thread_write_uint16_t thread_write_uint32_t
write16-write16 s position v = rw (last, first, second, fourth)
  where
    last : position + 2 + 1 ≡ position + 3
    last = omega arith

    first : v % 2 ^ 16 % 256 ≡ v % 256
    first = omega arith

    second : v % 2 ^ 16 / 256 % 256 ≡ v / 256 % 256
    second = omega arith

    fourth : v / 2 ^ 16 / 256 % 256 ≡ v / 16777216 % 256
    fourth = omega arith
