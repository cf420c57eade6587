-- ===== src/RowHammer/Display.antt =====
-- rowhammer.py: display_errors and dump_bitflips. The log is the list of its rows behind the header;
-- `none` in its place is fuel that ran out.
use rowhammer_tester.Prelude.{
  ℕ, ◌+◌, ◌*◌, ◌≡◌, refl, Bool, true, Option, some, none, List, [], ◌∷◌, ◌++◌, ltb, if◌then◌else◌,
  Result, raised, ok, ◌>>=◌, unbound_local_error,
}
use rowhammer_tester.AddressConverter.{Converter, decode_bus}
use rowhammer_tester.BitFlips.{FlipRow, Block, dump_word}
use rowhammer_tester.RowHammer.{
  Attacker, WordError, RowErrors, Summary, main_base, row_base, summarize, show_words, summary_of,
  latest,
}

-- `sorted(row_errors, key=int)`
unfoldable pub insert_row : RowErrors → List RowErrors → List RowErrors
insert_row r [] = r ∷ []
insert_row r (s ∷ ss) =
    let rest = insert_row r ss in if ltb s.row r.row then s ∷ rest else r ∷ s ∷ ss

unfoldable pub sort_rows : List RowErrors → List RowErrors
unfolding insert_row
sort_rows [] = []
sort_rows (r ∷ rs) = insert_row r (sort_rows rs)

abbrev pub join : Option (List FlipRow) → Option (List FlipRow) → Option (List FlipRow)
join none rest = none
join (some rows) none = none
join (some rows) (some rest) = some (rows ++ rest)

module _ (log2_int : ℕ → ℕ) (c : Converter) (a : Attacker) (read_count : Option ℕ) where
  unfoldable pub block_of : (row base_addr : ℕ) → WordError → Block
  block_of row base_addr e =
      let at = decode_bus log2_int c main_base 32 (base_addr + 4 * e.index) in
      record {
        read_count = read_count;
        row = row;
        bank = at.bank;
        col = at.col;
        base_addr = base_addr;
        index = e.index;
        word = e.word;
        expected = e.expected;
      }

  unfoldable pub dump_words : (row base_addr : ℕ) → List WordError → Option (List FlipRow)
  unfolding block_of
  dump_words row base_addr [] = some []
  dump_words row base_addr (e ∷ errors) =
      join (dump_word (block_of row base_addr e)) (dump_words row base_addr errors)

  unfoldable pub dump_rows : List RowErrors → Result (Option (List FlipRow))
  unfolding dump_words
  dump_rows [] = ok (some [])
  dump_rows (r ∷ rs) = do
    base_addr ← row_base log2_int c a r.row
    rest ← dump_rows rs
    ok (join (dump_words r.row base_addr r.errors) rest)

  unfoldable pub dump_bitflips : List RowErrors → Result (Option (List FlipRow))
  unfolding dump_rows sort_rows
  dump_bitflips row_errors = dump_rows (sort_rows row_errors)

  -- What `display_errors` returns, and the log that it writes, if any.
  unfoldable pub display_errors :
      Bool → List RowErrors → Result (Option (List Summary) × Option (Option (List FlipRow)))
  unfolding dump_bitflips
  display_errors do_error_summary [] = ok (if do_error_summary then some [] else none, none)
  display_errors do_error_summary (r ∷ rs) = do
    summaries ←
        (if do_error_summary
          then (do
            found ←
                summarize log2_int c a (r ∷ rs) (record { decoded_row = none; row_flips = none })
            ok (some found))
          else ok none)
    log ←
        (if a.log_directory
          then (do written ← dump_bitflips (r ∷ rs); ok (some written))
          else ok none)
    ok (summaries, log)

-- With a summary asked for, errors whose first row has none raise: nothing is logged and nothing is
-- returned, whatever the rows behind it have.
pub display_errors-unbound :
    (log2_int : ℕ → ℕ) (c : Converter) (a : Attacker) (read_count : Option ℕ) (r : RowErrors)
    (rs : List RowErrors)
    → r.errors ≡ []
    → display_errors log2_int c a read_count true (r ∷ rs) ≡ raised unbound_local_error
unfolding display_errors summarize show_words summary_of latest
display_errors-unbound log2_int c a read_count r rs e = rw e refl
