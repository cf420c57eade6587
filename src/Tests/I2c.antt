-- ===== src/Tests/I2c.antt =====
-- The I2C transfers.
use rowhammer_tester.Prelude.{ℕ, ◌+◌, ◌*◌, ◌≡◌, refl, true, [], ◌++◌, arith}
use rowhammer_tester.I2c.{
  Reg, write_fifo_state, read_fifo_state, i2c_state, access_port, World, returned, i2c_read,
  i2c_write,
}
use rowhammer_tester.I2c.Entries.{entries, address_entries, data_entries}
use rowhammer_tester.I2c.ReadLoop.{ReadSends}
use rowhammer_tester.I2c.Read.{read_header, i2c_read-ReadSends}
use rowhammer_tester.I2c.Write.{IsSteady, i2c_write-Writes}

-- A worker of 32 entries that is idle and has five responses whenever it is asked.
abbrev answer : Reg → ℕ → ℕ
answer write_fifo_state n = 32
answer read_fifo_state n = 5 * 256
answer i2c_state n = 1
answer access_port n = 64 + n
answer _ n = 0

abbrev same : ℕ → ℕ
same n = n

abbrev fresh : World
fresh = record { reads = 0; ops = [] }

i2c_read-ReadSends_example :
    ReadSends
      (entries fresh.ops)
      (entries fresh.ops ++ read_header answer same 7 80 11 true 1)
      2
      (i2c_read answer same 7 10 80 11 2 true 1 fresh)
i2c_read-ReadSends_example = i2c_read-ReadSends answer same 7 10 80 11 2 true 1 fresh

-- The same with one response at a time.
abbrev one_by_one : Reg → ℕ → ℕ
one_by_one write_fifo_state n = 32
one_by_one read_fifo_state n = 256
one_by_one i2c_state n = 1
one_by_one access_port n = 64 + n
one_by_one _ n = 0

one_by_one-IsSteady : IsSteady one_by_one 7
one_by_one-IsSteady = record {
  idle = λ n. refl;
  going = λ n. refl;
  free = λ n. omega arith;
  one_response = λ n. refl;
}

i2c_write-Writes_example :
    (w' : World) × (i2c_write one_by_one same 7 10 80 11 3 same 1 fresh ≡ returned 3 w')
    × (entries w'.ops ≡ entries fresh.ops ++ address_entries 80 11 1 ++ data_entries 3 same 3 0)
i2c_write-Writes_example =
    i2c_write-Writes one_by_one same 7 10 80 11 3 same 1 fresh one_by_one-IsSteady (omega arith)
      (omega arith)
