-- ===== src/Encoder/RoundTrip.antt =====
-- What the decoder reads back from the words that the encoder writes.
use rowhammer_tester.Prelude.{
  ℕ, ◌^◌, ◌<◌, ◌≡◌, ◌≢◌, ◌↔◌, true, false, some, none, [], ◌∷◌, arith, ok,
}
use rowhammer_tester.OpCode.{OpCode, value, noop, loop}
use rowhammer_tester.OpCode.Width
use rowhammer_tester.Decoder.{Geometry, decode, decode_op, decode_timeslice, decode_address}
use rowhammer_tester.Encoder.{Kwargs, encode, encode_parts}
use rowhammer_tester.Encoder.Fields.{word_of_two, word_of_command, word_of_loop}

abbrev pub loop_kwargs : ℕ → ℕ → Kwargs
loop_kwargs count jump = record {
  count = some count;
  jump = some jump;
  timeslice = none;
  address = none;
}

abbrev pub noop_kwargs : ℕ → Kwargs
noop_kwargs timeslice = record {
  count = none;
  jump = none;
  timeslice = some timeslice;
  address = none;
}

abbrev pub command_kwargs : ℕ → ℕ → Kwargs
command_kwargs timeslice address = record {
  count = none;
  jump = none;
  timeslice = some timeslice;
  address = some address;
}

-- A LOOP whose count and jump fit their fields becomes one 32-bit word, from which the decoder
-- reads that operation code, count and jump, and which does not stop the executor.
decode-encode_loop :
    (g : Geometry) (count jump : ℕ)
    → count < 2 ^ 12
    → jump < 2 ^ 17
    → (w : ℕ) × (encode loop (loop_kwargs count jump) ≡ ok (w ∷ []))
      × (w < 2 ^ 32)
      × ((decode g w).op_code ≡ value loop)
      × ((decode g w).loop_count ≡ count)
      × ((decode g w).loop_jump ≡ jump)
      × ((decode g w).stop ≡ false)
unfolding encode decode
decode-encode_loop g count jump c j = (
  encode_parts 0 0
      ((Width.op_code, value loop) ∷ (Width.loop_count, count) ∷ (Width.loop_jump, jump) ∷ []),
  ground arith,
  omega (arith, word_of_loop (value loop) count jump),
  omega (arith, word_of_loop (value loop) count jump),
  omega (arith, word_of_loop (value loop) count jump),
  omega (arith, word_of_loop (value loop) count jump),
  ground (arith, word_of_loop (value loop) count jump),
)

-- A NOOP whose timeslice fits its 29-bit field becomes one 32-bit word, from which the decoder
-- reads that code and timeslice; it stops the executor exactly when the timeslice is 0.
decode-encode_noop :
    (g : Geometry) (timeslice : ℕ)
    → timeslice < 2 ^ 29
    → (w : ℕ) × (encode noop (noop_kwargs timeslice) ≡ ok (w ∷ []))
      × (w < 2 ^ 32)
      × ((decode g w).op_code ≡ value noop)
      × ((decode g w).timeslice ≡ timeslice)
      × (((decode g w).stop ≡ true) ↔ (timeslice ≡ 0))
unfolding encode decode
decode-encode_noop g timeslice t = (
  encode_parts 0 0 ((Width.op_code, value noop) ∷ (Width.timeslice_noop, timeslice) ∷ []),
  ground arith,
  omega (arith, word_of_two (value noop) timeslice),
  omega (arith, word_of_two (value noop) timeslice),
  ground (arith, word_of_two (value noop) timeslice),
  ground (arith, word_of_two (value noop) timeslice),
)

-- The word of a command.
abbrev pub command_word : OpCode → ℕ → ℕ → ℕ
command_word op timeslice address =
    encode_parts 0 0
      ((Width.op_code, value op) ∷ (Width.timeslice, timeslice) ∷ (Width.address, address) ∷ [])

value-lt : (op : OpCode) → value op < 8
value-lt op = ground arith

value-ne_noop : (op : OpCode) → op ≢ noop → value op ≢ 0
value-ne_noop op h = ground arith

decode-command_word :
    (g : Geometry) (op : OpCode) (timeslice address : ℕ)
    → op ≢ noop
    → timeslice < 2 ^ 5
    → address < 2 ^ 24
    → (command_word op timeslice address < 2 ^ 32)
      × (decode_op (command_word op timeslice address) ≡ value op)
      × (decode_timeslice (command_word op timeslice address) ≡ timeslice)
      × (decode_address (command_word op timeslice address) ≡ address)
      × ((decode g (command_word op timeslice address)).stop ≡ false)
unfolding decode
decode-command_word g op timeslice address not_noop t a =
    let e = word_of_command (value op) timeslice address in
    let small = value-lt op in
    let other = value-ne_noop op not_noop in
    (
      omega (arith, e, small),
      omega (arith, e, small),
      ground (arith, e, small, other),
      omega (arith, e, small),
      ground (arith, e, small, other),
    )
