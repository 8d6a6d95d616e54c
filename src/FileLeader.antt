-- ===== src/FileLeader.antt =====
-- src/fileleader/file_leader.cc: how `file_request` lists the chunks of a file, which are dealt out
-- to one primary file on each node, in the order of the file.
pub mod Rounds
pub mod Order
pub mod Ending
pub mod Server
pub mod Tests
use velox_dfs.Base.{
  ℕ, zero, suc, ◌+◌, ◌-◌, ◌%◌, List, [], ◌∷◌, ◌++◌, map, Option, none, some, Text, get_elem?,
  length, leb, ◌==◌, if◌then◌else◌, ◌>>=◌, Bool, true, false,
}
use velox_dfs.Messages.{BlockMetadata, ChunkMetadata, FileDescription, FileInfo}
use velox_dfs.Histogram.{Histogram, get_index}

-- A primary file with its chunks: `blocks[idx]` and `sblock[idx]`.
abbrev pub Row : Type 0
Row = BlockMetadata × List ChunkMetadata

-- Two results of `GET_INDEX`; none is -1.
same_index : Option ℕ → Option ℕ → Bool
same_index none none = true
same_index (some a) (some b) = a == b
same_index _ _ = false

-- The loop over i that looks for the first primary file of server `h_idx`.
first_of_server : Histogram → Option ℕ → List Row → ℕ → ℕ → ℕ
unfolding same_index
first_of_server hist h_idx [] i start = start
first_of_server hist h_idx ((block, chunks) ∷ rows) i start =
    let rest = first_of_server hist h_idx rows (i + 1) start in
    if same_index h_idx (get_index hist block.hash_key) then i else rest

-- The loop that sets `chunk_start_idx`, over the rows that are left. `none` is the read of a first
-- chunk that is not there.
pub find_start : Histogram → List Row → List Row → ℕ → Option ℕ
unfolding first_of_server
find_start hist rows [] start = some start
find_start hist rows ((block, []) ∷ left) start = none
find_start hist rows ((block, c ∷ cs) ∷ left) start = find_start hist rows left (
    if c.chunk_seq == 0
    then first_of_server hist (get_index hist block.hash_key) rows 0 start
    else start)

-- A chunk with its primary file.
abbrev pub Pick : Type 0
Pick = BlockMetadata × ChunkMetadata

-- The chunk number i of a row: `sblock[idx][i]`, if `sblock[idx].size() > i`.
abbrev pub cell : Row → ℕ → Option Pick
cell (block, chunks) i = get_elem? chunks i >>= λ c. some (block, c)

-- One visit: list the chunk, or count the row in `EOP`.
abbrev pub count_cell : Option Pick → List Pick × ℕ → List Pick × ℕ
count_cell none (picks, ended) = (picks, ended + 1)
count_cell (some p) (picks, ended) = (p ∷ picks, ended)

-- (The row is always there: j is taken modulo the number of rows.)
abbrev pub visit : Option Row → ℕ → List Pick × ℕ → List Pick × ℕ
visit none i acc = acc
visit (some row) i acc = count_cell (cell row i) acc

-- The inner loop over j, with `left` rounds to go: the chunks that it lists, and what it adds to
-- `EOP`.
pub round : List Row → ℕ → ℕ → ℕ → List Pick × ℕ
round rows i j zero = ([], 0)
round rows i j (suc left) = visit (get_elem? rows (j % length rows)) i (round rows i (j + 1) left)

-- The outer loop over i, with `ended` for `EOP`. `none`: the fuel ran out.
pub rounds : ℕ → List Row → ℕ → ℕ → ℕ → Option (List Pick)
unfolding round
rounds zero rows start ended i = none
rounds (suc fuel) rows start ended i =
    let more =
      (let pass = round rows i start (length rows) in
        rounds fuel rows start (ended + pass.1) (i + 1) >>= λ rest. some (pass.0 ++ rest)) in
    if leb (length rows) ended then some [] else more

-- The `push_back`s of one listed chunk after another.
abbrev pub list_chunks : FileDescription → List Pick → FileDescription
list_chunks fd picks = record fd {
  blocks = fd.blocks ++ map (λ p. p.1.name) picks;
  primary_files = fd.primary_files ++ map (λ p. p.0.name) picks;
  hash_keys = fd.hash_keys ++ map (λ p. p.0.hash_key) picks;
  block_size = fd.block_size ++ map (λ p. p.1.size) picks;
  block_hosts = fd.block_hosts ++ map (λ p. p.0.node) picks;
  offsets = fd.offsets ++ map (λ p. p.1.offset) picks;
  offsets_in_file = fd.offsets_in_file ++ map (λ p. p.1.foffset) picks;
  chunk_sequences = fd.chunk_sequences ++ map (λ p. p.1.chunk_seq) picks;
  primary_sequences = fd.primary_sequences ++ map (λ p. p.1.primary_seq) picks;
}

-- `file_request` from the selected rows on: the part that fills the description.
pub describe : ℕ → Histogram → List Row → FileDescription → Option FileDescription
unfolding find_start rounds
describe fuel hist rows fd = do
  let fd' = record fd { info = record (fd.info) { num_primary_file = length rows } }
  start ← find_start hist rows rows 0
  if fd.num_block == 0
      then some fd'
      else do picks ← rounds fuel rows start 0 0; some (list_chunks fd' picks)
