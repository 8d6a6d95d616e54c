-- ===== src/FileLeader/Server.antt =====
-- src/fileleader/file_leader.cc: the operations of the file leader on its tables and its arrangements,
-- built with the logical blocks feature.
-- The content of the database file and the scheduler are arguments.
pub mod Router
pub mod Lifecycle
pub mod Changes
pub mod Totality
pub mod Reading
pub mod Short
pub mod Tests
use velox_dfs.Base.{
  ℕ, zero, suc, ◌+◌, ◌-◌, Bool, true, false, ◌&&◌, not, List, [], ◌∷◌, ◌++◌, Option, none, some,
  Text, text, text_eq, length, map, ltb, ◌==◌, if◌then◌else◌, ◌>>=◌,
}
use velox_dfs.Messages.{
  FileInfo, FileDescription, BlockMetadata, ChunkMetadata, FileUpdate, FileRequest, MetaData,
}
use velox_dfs.Histogram.{Histogram}
use velox_dfs.Disk.{Disk}
use velox_dfs.Disk
use velox_dfs.Directory.{
  Tables, empty_file_info, create_tables, file_table_insert, file_table_select,
  file_table_select_all, file_table_update, file_table_confirm_upload, file_table_delete,
  file_table_exists, block_table_insert, block_table_insert_all, block_table_select,
  block_table_delete_all, select_last_block_metadata, chunk_table_insert, chunk_table_insert_all,
  chunk_table_select, chunk_table_delete_all, select_last_chunk_metadata,
}
use velox_dfs.FileLeader.{Row, describe}

-- What does not change: the node, its network, `boundaries`, the content of the database file for
-- given tables, and the scheduler of `find_best_arrangement`. `garbage` is what an unset number holds.
pub record Site : Type 0 where
  pub id : ℕ
  pub network_size : ℕ
  pub ip : Text
  pub boundaries : Histogram
  pub database : Tables → Text
  pub arrange : FileDescription → Option FileDescription
  pub garbage : ℕ

-- `arrangements` is `current_file_arrangements`; the disk is the one of `local_io`.
pub record Leader : Type 0 where
  pub tables : Tables
  pub arrangements : List (Text × FileDescription)
  pub disk : Disk

abbrev pub find_arrangement : Text → List (Text × FileDescription) → Option FileDescription
find_arrangement name [] = none
find_arrangement name ((key, fd) ∷ rest) =
    if text_eq key name then some fd else find_arrangement name rest

abbrev pub erase_arrangement : Text → List (Text × FileDescription) → List (Text × FileDescription)
erase_arrangement name [] = []
erase_arrangement name ((key, fd) ∷ rest) =
    let erased = erase_arrangement name rest in
    if text_eq key name then erased else (key, fd) ∷ erased

-- A default-constructed `FileDescription`.
abbrev pub empty_description : FileDescription
empty_description = record {
  info = empty_file_info;
  primary_files = [];
  blocks = [];
  hash_keys = [];
  block_size = [];
  offsets = [];
  offsets_in_file = [];
  chunk_sequences = [];
  primary_sequences = [];
  block_hosts = [];
  logical_blocks = [];
  num_static_blocks = 0;
}

abbrev pub with_tables : Tables → Leader → Leader
with_tables t l = record l { tables = t }

unfoldable pub file_exist : Text → Leader → Bool
file_exist name l = file_table_exists name l.tables

-- (The number of blocks that the function computes is only logged.)
unfoldable pub file_insert : FileInfo → Leader → FileDescription × Leader
file_insert f l = (
  record empty_description {
    info = record empty_file_info { name = f.name; size = f.size; hash_key = f.hash_key };
  },
  with_tables (file_table_insert f l.tables) l,
)

-- The loop that inserts the chunks of each block.
unfoldable pub insert_chunks : List BlockMetadata → Text → Tables → Tables
insert_chunks [] name t = t
insert_chunks (block ∷ blocks) name t =
    insert_chunks blocks name (chunk_table_insert_all block.chunks name t)

unfoldable pub file_insert_confirm : FileInfo → Leader → Bool × Leader
unfolding insert_chunks
file_insert_confirm f l =
    let confirmed = file_table_confirm_upload f.name f.num_block f.num_primary_file l.tables in
    let inserted = block_table_insert_all f.blocks_metadata confirmed in
    (true, with_tables (insert_chunks f.blocks_metadata f.name inserted) l)

-- An unset `BlockMetadata`: its texts are empty and it has no chunks.
abbrev pub unset_block : ℕ → BlockMetadata
unset_block garbage = record {
  name = [];
  file_name = [];
  seq = garbage;
  hash_key = garbage;
  size = garbage;
  type = garbage;
  replica = garbage;
  node = [];
  l_node = [];
  r_node = [];
  is_committed = garbage;
  chunks = [];
}

abbrev pub unset_chunk : ℕ → ChunkMetadata
unset_chunk garbage = record {
  size = garbage;
  offset = garbage;
  foffset = garbage;
  chunk_seq = garbage;
  name = [];
  primary_file = [];
  primary_seq = garbage;
}

-- The loop of an append over `bi.chunks`, with `last_seq`.
pub append_chunks : List ChunkMetadata → Text → ℕ → Tables → Tables × ℕ
append_chunks [] name last_seq t = (t, last_seq)
append_chunks (chunk ∷ chunks) name last_seq t =
    append_chunks chunks name (last_seq + 1)
      (chunk_table_insert (record chunk { chunk_seq = last_seq + 1 }) name t)

pub update_append : ℕ → FileUpdate → Tables → Tables
unfolding append_chunks
update_append garbage f t =
    let bi = select_last_block_metadata f.name (unset_block garbage) t in
    let sbi = select_last_chunk_metadata bi.name (unset_chunk garbage) t in
    let appended = append_chunks bi.chunks f.name sbi.chunk_seq t in
    let fi = file_table_select f.name empty_file_info appended.0 in
    file_table_update f.name (f.size + fi.size) (appended.1 + 1) fi.num_primary_file appended.0

-- The loop over the blocks of an update, each followed by its chunks.
pub insert_blocks : List BlockMetadata → Text → Tables → Tables
insert_blocks [] name t = t
insert_blocks (block ∷ blocks) name t =
    insert_blocks blocks name (insert_each block.chunks (block_table_insert block t))
  where
    insert_each : List ChunkMetadata → Tables → Tables
    insert_each [] t = t
    insert_each (chunk ∷ chunks) t = insert_each chunks (chunk_table_insert chunk name t)

pub update_whole : FileUpdate → Tables → Tables
unfolding insert_blocks
update_whole f t =
    insert_blocks f.blocks_metadata f.name
      (file_table_update f.name f.size f.num_block f.num_primary_file t)

unfoldable pub file_update : Site → FileUpdate → Leader → Bool × Leader
unfolding update_append update_whole file_exist
file_update site f l =
    if file_exist f.name l
    then (
      true,
      record l {
        tables =
            if f.is_append then update_append site.garbage f l.tables else update_whole f l.tables;
        arrangements = erase_arrangement f.name l.arrangements;
      },
    )
    else (false, l)

-- The content of the database goes to the left and to the right neighbour. (`send` is that of the
-- block node.)
unfoldable pub replicate_metadata : Site → Leader → List (ℕ × MetaData)
replicate_metadata site l =
    let md : MetaData = record { content = site.database l.tables; node = site.ip } in
    let left_node = if site.id == 0 then site.network_size - 1 else site.id - 1 in
    let right_node = if site.id + 1 == site.network_size then 0 else site.id + 1 in
    (left_node, md) ∷ (right_node, md) ∷ []

-- The result, the state, and the messages sent.
unfoldable pub file_delete : Site → Text → Leader → Bool × Leader × List (ℕ × MetaData)
unfolding replicate_metadata file_exist
file_delete site name l =
    let t =
      chunk_table_delete_all name (block_table_delete_all name (file_table_delete name l.tables)) in
    let deleted = with_tables t l in
    if file_exist name l
    then (
      true,
      record deleted { arrangements = erase_arrangement name l.arrangements },
      replicate_metadata site deleted,
    )
    else (false, l, [])

-- The primary files with their chunks.
abbrev pub rows_of : List BlockMetadata → Tables → List Row
rows_of blocks t = map (λ block. (block, chunk_table_select block.name t)) blocks

-- The description before the chunks are listed.
pub described_file : Text → FileInfo → FileDescription
described_file name fi = record empty_description {
  info = record empty_file_info {
    name = name;
    uploading = fi.uploading;
    hash_key = fi.hash_key;
    replica = fi.replica;
    size = fi.size;
    is_input = fi.is_input;
    num_block = fi.num_block;
    n_lblock = fi.num_block;
    intended_block_size = fi.intended_block_size;
  };
}

-- The end of `file_request`: arrange the logical blocks, and remember the result.
pub finish_request :
    Site → FileRequest → FileDescription → Leader → Option (FileDescription × Leader)
finish_request site m fd l =
    if fd.is_input && m.generate
    then (site.arrange fd >>= (λ arranged. some (
      arranged,
      record l { arrangements = (m.name, arranged) ∷ erase_arrangement m.name l.arrangements },
    )))
    else some (fd, l)

-- From the lookup in the tables on. The loop has fuel for two more rounds than there are chunks in the
-- table.
pub request_table : Site → FileRequest → Leader → Option (FileDescription × Leader)
unfolding described_file finish_request
request_table site m l =
    let fi = file_table_select m.name empty_file_info l.tables in
    if fi.uploading == 1
    then some (
      record empty_description {
        info = record empty_file_info { name = m.name; uploading = fi.uploading };
      },
      l,
    )
    else do
      fd ←
          describe (length l.tables.chunk_table + 2) site.boundaries
            (rows_of (block_table_select m.name l.tables) l.tables) (described_file m.name fi)
      finish_request site m fd l

-- The early exit: an arrangement made before, unless a new one is asked for.
unfoldable pub file_request : Site → FileRequest → Leader → Option (FileDescription × Leader)
unfolding request_table
file_request site m l = elim (find_arrangement m.name l.arrangements) [
  | none ↦ request_table site m l
  | some fd ↦ if m.generate then request_table site m l else some (fd, l)
]

unfoldable pub list : List FileInfo → Leader → List FileInfo
list files l = file_table_select_all files l.tables

pub metadata_save : MetaData → Leader → Leader
metadata_save m l = record l { disk = Disk.write (m.node ++ text "_replica") m.content l.disk }

-- The tables are removed with the database file and made again; the arrangements stay.
unfoldable pub format : Leader → Bool × Leader
format l = (true, record l { tables = create_tables; disk = Disk.format l.disk })
