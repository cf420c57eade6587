-- ===== src/Lib.antt =====
-- rowhammer_tester
--
-- A rowhammer tester in two halves: gateware that executes payloads of DRAM commands and tests the
-- memory, and scripts that build payloads and addresses for it. The sources are under
-- rowhammer_tester/ of the repository.
--
-- A payload is a list of 32-bit words. The scripts encode it (Encoder, Playbook), the gateware
-- fetches, decodes and executes it, and sends its commands to the memory while it has the DFI.
--
-- gateware/payload_executor.py, one state record and one step a clock cycle for each class:
--   OpCode, Decoder      the operation codes, field widths (OpCode/Width) and the decoded signals
--   Encoder              Encoder.Instruction, encode_spec, encode_payload and address
--   Fetcher              next_addr, mem_addr and the program counter
--   Executor             PayloadExecutor: `tick` is a cycle of the state machine, `command` what it sends
--   Program              an instruction set without the pipeline, which the executor is compared with
--   DfiExecutor          the registers of a DFI phase, and RefreshCounter
--   DfiSwitch            DFISwitch; DfiSwitch/Handover joins it with the executor
--   Scratchpad           the memory's write port and counter
-- gateware/bist.py:
--   Bist                 what the two modules share: pattern, masks, AddressSelector, RowDataInverter
--   Bist/Writer          the writer's machine; Bist/Reader the reader's three machines
-- gateware/rowhammer.py:
--   RowHammerDma         the DMA attacker's counter and address
-- gateware/sram.py:
--   Sram                 the memory on a Wishbone bus
-- scripts/utils.py:
--   HwTest               hw_memset, hw_memtest, setup_inverters
--   ExpectedCycles       get_expected_execution_cycles
--   AddressConverter     DRAMAddressConverter
--   Memory               memwrite, memread, memcheck, word2byte, validate_keys
--   Session              execute_payload, and the calls of a script on the board, as actions
--   I2c                  i2c_read, i2c_write and i2c_poll: what they push to the I2C worker, round by round
-- scripts/rowhammer.py, scripts/hw_rowhammer.py, scripts/bitflip_report.py:
--   BitFlips             bitcount, bitflips, bitflip_list, and the log of a word of dump_bitflips
--   RowHammer            the rows of the class, their words and errors; RowHammer/Display shows and logs
--                        them, RowHammer/Run has the attacks, prepare_memory and run, RowHammer/Pairs
--                        and RowHammer/Main the pairs of rows and the loop over the read counts of main,
--                        RowHammer/Sweep when the refresh is off in it
--   HwRowHammer          the class that attacks through the BIST reader; HwRowHammer/Run its run
--   BitflipReport        run_summary, and the line of a run of build_report
-- scripts/read_level.py:
--   ReadLevel            read_level_find_best, and read_level_module around it
-- payload:
--   PayloadChecker       the instructions of both protocols and VerifyInstr; PayloadChecker/Bank,
--                        PayloadChecker/Ddr3 and PayloadChecker/Ddr4 the classes of ddr3lib.py and
--                        ddr4lib.py, PayloadChecker/Run the loop of verify_payload.py over either.
--                        PayloadChecker/Legal says what commands must keep to, and
--                        PayloadChecker/Sound is the interface a rank fills to keep a run to it
-- scripts/playbook:
--   Playbook             lib/__init__.py
--   RowMapping, RowGenerator   row_mappings and row_generators
--   HammerTolerance      payload_generators/hammer_tolerance.py: gather_full_stats
--   HalfDouble           payload_generators/half_double_analysis.py: the state machine; HalfDouble/Process
--                        has process_errors, and the loop of playbook.py around a generator
-- Prelude holds what they share, Tests the theorems at concrete inputs.
--
-- A register of w bits is a number that wraps modulo 2 ^ w where the code adds to it. Python's
-- exceptions are the errors of Result. Signals and memories of LiteX, LiteDRAM and migen are
-- parameters: `log2_int` and the one-hot decoder as functions, a memory as a function from its
-- address, a FIFO or DMA by its handshake signals in each cycle. A run of the executor is counted in
-- cycles and that of the instruction set in instructions (fuel); a theorem on the former follows from
-- a run of the latter that has ended, and a loop's theorem gives the fuel that ends it. The loop of
-- verify_payload.py takes fuel too; PayloadChecker/Run/Ends counts how much is enough for payloads whose
-- loops do not nest. The loops of the I2C transfers wait for a device: the theorem on `i2c_read` holds for
-- any fuel, the runs that still wait included, and that on `i2c_write` says how much is enough for a
-- worker that is steady, as I2c/Write has it. HalfDouble/Ends counts the measurements that are
-- enough for the half double analysis, and BitFlips/Exact shows that the number whose bits the log goes
-- through is enough fuel for its loop.
--
-- The scripts that attack call the board through litex's remote client. Session gives the calls in their
-- order and how they end: returned, failed with an error, or still waiting where a polling loop is given
-- too few values. What is read is an argument of the script, and Session/Refresh replays the calls on the
-- refresh setting.
--
-- Not modelled: declarations of CSRs, board descriptions (targets), firmware, printing and progress
-- bars, write levelling, the DFI accesses of the read levelling test, the parsing of payloads and of
-- arguments, of which negative numbers are left out, the row choice of hammer_tolerance.py and row_list.py, SPD decoding, and the plots of logs,
-- which are calls of pandas and matplotlib. Of the bit flip report the files and the tables that only
-- count one column are left out.
pub mod Prelude
pub mod OpCode
pub mod Decoder
pub mod Encoder
pub mod Fetcher
pub mod Executor
pub mod Program
pub mod Playbook
pub mod ExpectedCycles
pub mod AddressConverter
pub mod DfiExecutor
pub mod DfiSwitch
pub mod Bist
pub mod Memory
pub mod RowMapping
pub mod RowGenerator
pub mod Scratchpad
pub mod RowHammerDma
pub mod Sram
pub mod HwTest
pub mod I2c
pub mod ReadLevel
pub mod HammerTolerance
pub mod Session
pub mod BitFlips
pub mod BitflipReport
pub mod RowHammer
pub mod HwRowHammer
pub mod HalfDouble
pub mod PayloadChecker
pub mod Tests
