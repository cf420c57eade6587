-- ===== src/DfiExecutor/Refresh.antt =====
-- The executor's commands on the DFI, as the refresh counter and the ranks see them.
use rowhammer_tester.Prelude.{
  ℕ, ◌-◌, ◌^◌, ◌<◌, ◌≡◌, ◌≢◌, ◌↔◌, refl, true, false, some, none, arith, Option,
}
use rowhammer_tester.OpCode.{value, ref}
use rowhammer_tester.Decoder.{Geometry, decode, decode_op}
use rowhammer_tester.Executor.{Command}
use rowhammer_tester.DfiExecutor.{Phase, phase_step, is_refresh}

decode_op-lt : (w : ℕ) → decode_op w < 8
unfolding decode_op
decode_op-lt w = omega arith

-- Of the commands that the executor sends on a phase, with one rank or several, the refresh
-- counter on it sees exactly the REF commands as refreshes.
pub is_refresh-phase_step :
    (one_hot : ℕ → ℕ) (nranks : ℕ) (g : Geometry) (w i : ℕ) (p : Phase)
    → 0 < nranks
    → let c : Command = record { phase = i; decoded = decode g w } in
      (is_refresh (phase_step one_hot nranks i (some c) p) ≡ true)
      ↔ ((decode g w).op_code ≡ value ref)
unfolding is_refresh phase_step decode
is_refresh-phase_step one_hot nranks g w i p pos = ground (arith, decode_op-lt w)

-- A command that is sent on another phase, or none, leaves a phase with no rank selected, no read
-- enabled and its address and bank as they were; no refresh is counted there.
phase_step-inactive :
    (one_hot : ℕ → ℕ) (nranks i : ℕ) (c : Option Command) (p : Phase)
    → 0 < nranks
    → ((d : Command) → c ≡ some d → d.phase ≢ i)
    → ((phase_step one_hot nranks i c p).cs_n ≡ 2 ^ nranks - 1)
      × ((phase_step one_hot nranks i c p).rddata_en ≡ false)
      × ((phase_step one_hot nranks i c p).address ≡ p.address)
      × ((phase_step one_hot nranks i c p).bank ≡ p.bank)
      × (is_refresh (phase_step one_hot nranks i c p) ≡ false)
unfolding phase_step is_refresh
phase_step-inactive one_hot nranks i none p pos other = (refl, refl, refl, refl, ground arith)
phase_step-inactive one_hot nranks i (some d) p pos other =
    let h = other d refl in (ground arith, ground arith, ground arith, ground arith, ground arith)
