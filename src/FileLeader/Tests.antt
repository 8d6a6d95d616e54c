-- ===== src/FileLeader/Tests.antt =====
-- Runs of the listing of chunks.
use velox_dfs.Base.{
  ℕ, zero, suc, ◌+◌, ◌*◌, ◌≡◌, refl, ap, sym, List, [], ◌∷◌, some, Text, text, arith, get_elem?,
}
use velox_dfs.Messages.{BlockMetadata, ChunkMetadata}
use velox_dfs.FileLeader.{Row, Pick, rounds}
use velox_dfs.FileLeader.Rounds.{IsDealt}
use velox_dfs.FileLeader.Order.{rounds-dealt}
use velox_dfs.FileLeader.Ending.{rounds-total, rounds_lose_chunks}

abbrev primary : Text → BlockMetadata
primary name = record {
  name = name;
  file_name = text "f";
  seq = 0;
  hash_key = 7;
  size = 20;
  type = 0;
  replica = 0;
  node = text "n";
  l_node = [];
  r_node = [];
  is_committed = 1;
  chunks = [];
}

abbrev chunk : ℕ → ChunkMetadata
chunk seq = record {
  size = 10;
  offset = 0;
  foffset = 10 * seq;
  chunk_seq = seq;
  name = text "c";
  primary_file = text "p";
  primary_seq = 0;
}

-- Three chunks over two primary files; the first chunk is in the second of them.
abbrev two_rows : List Row
two_rows = (primary (text "p"), chunk 1 ∷ []) ∷ (primary (text "q"), chunk 0 ∷ chunk 2 ∷ []) ∷ []

abbrev in_order : List Pick
in_order =
    (primary (text "q"), chunk 0)
    ∷ (primary (text "p"), chunk 1)
    ∷ (primary (text "q"), chunk 2)
    ∷ []

dealt : IsDealt two_rows 1 in_order
dealt zero zero h = (_, refl, refl)
dealt zero (suc zero) h = (_, refl, refl)
dealt zero (suc (suc i)) h =
    let far : suc (suc i) * 2 + 0 ≡ suc (suc (suc (suc (i * 2)))) = omega arith in
    (_, refl, ap (λ k. get_elem? in_order k) (sym far))
dealt (suc zero) zero h = (_, refl, refl)
dealt (suc zero) (suc i) h =
    let far : suc i * 2 + 1 ≡ suc (suc (suc (i * 2))) = omega arith in
    (_, refl, ap (λ k. get_elem? in_order k) (sym far))
dealt (suc (suc m)) i h = absurd (omega arith)

rounds-dealt_example : rounds 5 two_rows 1 0 0 ≡ some in_order
rounds-dealt_example = rounds-dealt two_rows 1 in_order 5 dealt (omega arith) (omega arith)

rounds-total_example : (out : List Pick) × (rounds 4 two_rows 1 0 0 ≡ some out)
rounds-total_example = rounds-total two_rows 1 2 (omega arith) (omega arith, (omega arith, tt))

rounds_lose_chunks_example :
    rounds 9
      ((primary (text "p"), chunk 0 ∷ chunk 2 ∷ chunk 3 ∷ chunk 4 ∷ [])
        ∷ (primary (text "q"), chunk 1 ∷ [])
        ∷ [])
      0
      0
      0
    ≡ some (
        (primary (text "p"), chunk 0)
        ∷ (primary (text "q"), chunk 1)
        ∷ (primary (text "p"), chunk 2)
        ∷ (primary (text "p"), chunk 3)
        ∷ [])
rounds_lose_chunks_example =
    rounds_lose_chunks (primary (text "p")) (primary (text "q")) (chunk 0) (chunk 2) (chunk 3)
      (chunk 1) (chunk 4 ∷ []) 5
