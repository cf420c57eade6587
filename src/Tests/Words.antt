-- ===== src/Tests/Words.antt =====
-- Instruction words, and the payloads of the playbook.
use rowhammer_tester.Prelude.{
  ℕ, ◌+◌, ◌-◌, ◌^◌, ◌<◌, ◌≡◌, ◌≢◌, refl, some, none, List, [], ◌∷◌, ◌++◌, arith, ok, map, sum,
  length, All,
}
use rowhammer_tester.OpCode.{noop, loop, ref}
use rowhammer_tester.Decoder.{Geometry, decode_timeslice}
use rowhammer_tester.Encoder.{Encoder, Instruction, encode, address}
use rowhammer_tester.Encoder.Address.{IsConfigured, Holds, decode-address}
use rowhammer_tester.Encoder.Delay.{IsWait, encode-delay}
use rowhammer_tester.Encoder.RoundTrip.{command_kwargs, command_word}
use rowhammer_tester.Playbook.{
  Setup, LoopState, timed, row_step, rows_loop, encode_one_loop, loop_count, n_loops, new_jump,
}
use rowhammer_tester.Playbook.LongLoop.{runs, runs-n_loops}
use rowhammer_tester.Playbook.Refresh.{HasRoom, encode_one_loop-jump}

abbrev geometry : Geometry
geometry = record { rankbits = 1; bankbits = 3; rowbits = 14; colbits = 10 }

abbrev encoder : Encoder
encoder = record { bankbits = 3; nranks = 2 }

-- migen's `log2_int` at the ranks of `encoder`.
abbrev log2_int : ℕ → ℕ
log2_int n = n - 1

configured : IsConfigured log2_int geometry encoder
configured = record { bank_width = refl; rank_width = refl; rank_count = refl }

decode-address_example :
    (a : ℕ) × (address log2_int encoder (some 1) 5 (some 300) none ≡ ok a)
    × Holds geometry a 1 5 300
decode-address_example =
    decode-address log2_int geometry encoder 1 5 (some 300) none configured refl (omega arith)
      (omega arith) (omega arith)

not_noop : ref ≢ noop
not_noop h = cc

not_loop : ref ≢ loop
not_loop h = cc

encode-delay_example :
    (b : ℕ) × (ws : List ℕ) × (encode ref (command_kwargs 40 0) ≡ ok (command_word ref b 0 ∷ ws))
    × (0 < b)
    × (b < 2 ^ 5)
    × (b + sum (map decode_timeslice ws) ≡ 40)
    × All (IsWait geometry) ws
encode-delay_example = encode-delay geometry ref 40 0 not_noop not_loop (omega arith)

runs-n_loops_example :
    ((i : ℕ) → loop_count 10000 i < 2 ^ 12) × (runs 10000 (n_loops 10000) 0 ≡ 10000)
runs-n_loops_example = runs-n_loops 10000

-- Two rows, hammered with refreshes.
abbrev setup : Setup
setup = record {
  row_sequence = 100 ∷ 102 ∷ [];
  timings = record { tras = 5; trp = 3; trefi = 50; trfc = 20 };
  encoder = encoder;
  bank = 1;
  rank = some 0;
  refresh_op = ref;
}

abbrev fresh : LoopState
fresh = record { payload = []; accum = 45; local_refreshes = 1 }

rows_appended :
    (p : List Instruction) × (rows_loop log2_int setup setup.row_sequence fresh
      ≡ ok (record { payload = p; accum = 36; local_refreshes = 2 }))
unfolding rows_loop row_step timed address
rows_appended = (_, refl)

has_room : HasRoom log2_int setup
has_room = omega arith

loop_encoded :
    (p : List Instruction) × (r : ℕ) × (encode_one_loop log2_int setup 3 9 [] ≡ ok (p, r))
unfolding encode_one_loop timed new_jump address
loop_encoded = (_, _, refl)

encode_one_loop-jump_example :
    (before : List Instruction) × (last : Instruction) × (jump : ℕ) × (loop_encoded.0
      ≡ before ++ last ∷ [])
    × (new_jump 9 jump ≡ ok last)
    × (length before ≡ 0 + jump)
    × (jump < 2 ^ 17)
encode_one_loop-jump_example =
    encode_one_loop-jump log2_int setup 3 9 [] loop_encoded.0 loop_encoded.1 has_room (omega arith)
      loop_encoded.2
