-- ===== src/Tests/Rows.antt =====
-- Row generators.
use rowhammer_tester.RowGenerator.{EvenConfig}

abbrev even_config : EvenConfig
even_config = record { nr_rows = 5; max_row = 8 }
