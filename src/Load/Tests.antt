-- ===== src/Load/Tests.antt =====
-- The loading of three rows: one that has expired, and two for a table with room for one.
use grpc_server.Base.{true, none, some, [], ◌∷◌, Bytes, ℤ, pos, List, arith}
use grpc_server.Cache.Table.{sample_hash, sample_hash-IsHash}
use grpc_server.Cache.Sample.{
  node_with, sample_heap, one_entry, sample_heap-IsFresh, one_entry-AllHold,
}
use grpc_server.Load.{Row, Counts, load_rows}
use grpc_server.Load.Rows.{LoadOk, load_rows-LoadOk}

abbrev row_at : ℤ → Bytes → Row
row_at timestamp text = record {
  text = text;
  solution_is_send = pos 1;
  trust_lvl = pos 2;
  timestamp = timestamp;
  ttl_seconds = pos 60;
  categories = some (some (b'a' ∷ 0 ∷ []) ∷ none ∷ []);
}

abbrev rows : List Row
rows = row_at (pos 100) [] ∷ row_at (pos 1000) (5 ∷ []) ∷ row_at (pos 1000) (3 ∷ []) ∷ []

abbrev no_counts : Counts
no_counts = record { loaded = 0; expired = 0; errors = 0 }

load_rows-LoadOk_example : LoadOk sample_hash 3 no_counts (
    load_rows sample_hash
      (λ row. row)
      some
      (λ i. node_with none)
      (λ i. (true, true))
      1010
      1
      0
      rows
      no_counts
      one_entry
      sample_heap)
load_rows-LoadOk_example =
    load_rows-LoadOk sample_hash sample_hash-IsHash (λ row. row) some (λ i. node_with none)
      (λ i. (true, true)) 1010 1 (omega arith) 0 rows no_counts one_entry sample_heap
      one_entry-AllHold sample_heap-IsFresh
