-- ===== src/PayloadChecker.antt =====
-- rowhammer_tester/payload/verify_payload.py, and what ddr3lib.py and ddr4lib.py share: payloads of
-- the two protocols in rowhammer_tester/payload/*.proto, and a run through one. A parsed protobuf
-- message is a value here; an instruction with no field set is `empty`. `math.inf` is `never`.
pub mod Bank
pub mod Faw
pub mod Legal
pub mod Sound
pub mod Ddr3
pub mod Ddr4
pub mod Run
use rowhammer_tester.Prelude.{
  ℕ, zero, suc, ◌+◌, ◌-◌, ◌%◌, ◌^◌, Bool, true, false, not, ◌&&◌, Option, none, some, List, [], ◌∷◌,
  ltb, leb, ◌==◌, if◌then◌else◌,
}

pub data Opcode : Type 0 where
  rd act pre ref nop jmp max_opcode : Opcode

-- DDR3's numbers; in DDR4 ACT is 8 and MAX is 9.
abbrev pub number : Opcode → ℕ
number rd = 2
number act = 4
number pre = 5
number ref = 6
number nop = 0
number jmp = 7
number max_opcode = 8

-- The fields of both protocols; a DDR3 payload has no stack and no bank group.
pub record MemInstr : Type 0 where
  pub opcode : Opcode
  pub timeslice : ℕ
  pub rank : ℕ
  pub stack : ℕ
  pub bank_group : ℕ
  pub bank : ℕ
  pub addr : ℕ

pub data Instr : Type 0 where
  mem : MemInstr → Instr
  nop_instr : (opcode : Opcode) (timeslice : ℕ) → Instr
  jmp_instr : (opcode : Opcode) (offset count : ℕ) → Instr
  empty : Instr

-- The enums `Bits`.
pub record Bits : Type 0 where
  pub mem_timeslice : ℕ
  pub bank_group : ℕ
  pub bank : ℕ
  pub addr : ℕ
  pub nop_timeslice : ℕ
  pub jmp_offset : ℕ
  pub jmp_count : ℕ

abbrev pub ddr3_bits : Bits
ddr3_bits = record {
  mem_timeslice = 8;
  bank_group = 0;
  bank = 3;
  addr = 16;
  nop_timeslice = 29;
  jmp_offset = 9;
  jmp_count = 20;
}

abbrev pub ddr4_bits : Bits
ddr4_bits = record {
  mem_timeslice = 9;
  bank_group = 2;
  bank = 2;
  addr = 18;
  nop_timeslice = 29;
  jmp_offset = 9;
  jmp_count = 20;
}

-- `opcode not in {RD, ACT, PRE, REF}`, negated.
abbrev pub is_mem_opcode : Opcode → Bool
is_mem_opcode rd = true
is_mem_opcode act = true
is_mem_opcode pre = true
is_mem_opcode ref = true
is_mem_opcode _ = false

abbrev pub is_rd : Opcode → Bool
is_rd rd = true
is_rd _ = false

abbrev pub is_nop : Opcode → Bool
is_nop nop = true
is_nop _ = false

abbrev pub is_jmp : Opcode → Bool
is_jmp jmp = true
is_jmp _ = false

-- `0 < n < (1 << bits)`
abbrev pub fits : ℕ → ℕ → Bool
fits n bits = ltb 0 n && ltb n (2 ^ bits)

module _ (b : Bits) where
  -- The checks on a memory instruction but those on stack and bank group.
  unfoldable pub verify_mem : MemInstr → Bool
  verify_mem m =
      is_mem_opcode m.opcode
      && fits m.timeslice b.mem_timeslice
      && m.rank == 0
      && ltb m.bank (2 ^ b.bank)
      && ltb m.addr (2 ^ b.addr)
      && not (is_rd m.opcode && not (m.addr % 8 == 0))

  unfoldable pub verify_nop : Opcode → ℕ → Bool
  verify_nop op timeslice = is_nop op && fits timeslice b.nop_timeslice

  unfoldable pub verify_jmp : ℕ → Opcode → ℕ → ℕ → Bool
  verify_jmp ip op offset count =
      is_jmp op && fits offset b.jmp_offset && leb offset ip && fits count b.jmp_count

-- ddr3lib's `VerifyInstr`
unfoldable pub ddr3_verify_instr : ℕ → Instr → Bool
unfolding verify_mem verify_nop verify_jmp
ddr3_verify_instr ip (mem m) = verify_mem ddr3_bits m
ddr3_verify_instr ip (nop_instr op t) = verify_nop ddr3_bits op t
ddr3_verify_instr ip (jmp_instr op offset count) = verify_jmp ddr3_bits ip op offset count
ddr3_verify_instr ip empty = false

-- ddr4lib's
unfoldable pub ddr4_verify_instr : ℕ → Instr → Bool
unfolding verify_mem verify_nop verify_jmp
ddr4_verify_instr ip (mem m) =
    m.stack == 0 && ltb m.bank_group (2 ^ ddr4_bits.bank_group) && verify_mem ddr4_bits m
ddr4_verify_instr ip (nop_instr op t) = verify_nop ddr4_bits op t
ddr4_verify_instr ip (jmp_instr op offset count) = verify_jmp ddr4_bits ip op offset count
ddr4_verify_instr ip empty = false

-- An entry of `next_tick`, and a timing parameter.
pub data Time : Type 0 where
  at : ℕ → Time
  never : Time

-- `tick < next_tick`
abbrev pub too_early : ℕ → Time → Bool
too_early tick (at n) = ltb tick n
too_early tick never = true

-- What `Execute` does to an entry of `next_tick` by a parameter.
abbrev pub postpone : ℕ → Time → Time → Time
postpone tick never old = never
postpone tick (at p) never = at (tick + p)
postpone tick (at p) (at old) = if ltb old (tick + p) then at (tick + p) else at old

-- The timing parameters that both protocols have.
pub record CoreTiming : Type 0 where
  pub tick_ps : ℕ
  pub ras : ℕ
  pub rp : ℕ
  pub rfc : ℕ
  pub rcd : ℕ
  pub rtp : ℕ
  pub faw : ℕ

-- One item of a list that `f` indexes.
abbrev pub update {ℓ} : {A : Type ℓ} → (ℕ → A) → ℕ → A → ℕ → A
update f i a j = if j == i then a else f j

-- A deque with `maxlen=4`, oldest first, after an `append`.
abbrev pub push_act : List ℕ → ℕ → List ℕ
push_act [] t = t ∷ []
push_act (a ∷ []) t = a ∷ t ∷ []
push_act (a ∷ b ∷ []) t = a ∷ b ∷ t ∷ []
push_act (a ∷ b ∷ c ∷ []) t = a ∷ b ∷ c ∷ t ∷ []
push_act (a ∷ b ∷ c ∷ d ∷ _) t = b ∷ c ∷ d ∷ t ∷ []

-- `len(prev_acts) == maxlen` and `tick - prev_acts[0] < faw`
abbrev pub breaks_faw : ℕ → ℕ → List ℕ → Bool
breaks_faw faw tick (a ∷ b ∷ c ∷ d ∷ _) = ltb (tick - a) faw
breaks_faw faw tick _ = false
