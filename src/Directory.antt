-- ===== src/Directory.antt =====
-- src/fileleader/directory.cc: the metadata tables, as the meaning of the SQL statements that the
-- source builds. A table is the list of its rows, in the order in which a scan returns them: a new row
-- comes last, and a replaced row is a new one. Names hold no quote, and no numeral exceeds 2^63 - 1.
pub mod Select
use velox_dfs.Base.{
  ℕ, zero, suc, ◌+◌, ◌-◌, ◌*◌, ◌%◌, ◌^◌, Bool, true, false, not, ◌&&◌, ◌||◌, List, [], ◌∷◌, ◌++◌,
  Option, none, some, Text, text, text_eq, leb, ltb, ◌==◌, if◌then◌else◌, map,
}
use velox_dfs.Messages.{FileInfo, BlockMetadata, ChunkMetadata}

-- The chunk table also has the name of the file, which no statement selects.
pub record Tables : Type 0 where
  pub file_table : List FileInfo
  pub block_table : List BlockMetadata
  pub chunk_table : List (Text × ChunkMetadata)

abbrev pub filter {ℓ} : {A : Type ℓ} → (A → Bool) → List A → List A
filter p [] = []
filter p (x ∷ xs) = let rest = filter p xs in if p x then x ∷ rest else rest

abbrev pub first_row {ℓ} : {A : Type ℓ} → List A → Option A
first_row [] = none
first_row (x ∷ xs) = some x

-- `atoi` of a numeral: its low 32 bits, read as signed, then converted to `uint64_t`.
pub signed_32 : ℕ → ℕ
signed_32 n = let low = n % 2 ^ 32 in if ltb low (2 ^ 31) then low else low + (2 ^ 64 - 2 ^ 32)

-- `file_callback` and `file_list_callback`: what a row gives in a fresh record, or one with other
-- fields set.
unfoldable pub file_callback : FileInfo → FileInfo → FileInfo
unfolding signed_32
file_callback row info = record info {
  name = row.name;
  hash_key = row.hash_key;
  size = row.size;
  num_block = row.num_block;
  num_primary_file = row.num_primary_file;
  n_lblock = row.n_lblock;
  type = row.type;
  replica = row.replica;
  uploading = row.uploading;
  is_input = row.is_input;
  intended_block_size = signed_32 row.intended_block_size;
}

-- `create_tables`, on a database with no table.
unfoldable pub create_tables : Tables
create_tables = record { file_table = []; block_table = []; chunk_table = [] }

abbrev pub named : Text → FileInfo → Bool
named name row = text_eq row.name name

-- `INSERT`, which fails on a name that is there.
unfoldable pub file_table_insert : FileInfo → Tables → Tables
file_table_insert info t = elim (first_row (filter (named info.name) t.file_table)) [
  | some row ↦ t
  | none ↦ record t { file_table = t.file_table ++ (info ∷ []) }
]

unfoldable pub file_table_select : Text → FileInfo → Tables → FileInfo
unfolding file_callback
file_table_select name info t = elim (first_row (filter (named name) t.file_table)) [
  | none ↦ info
  | some row ↦ file_callback row info
]

-- A default-constructed `FileInfo`. (`type` is not set there.)
abbrev pub empty_file_info : FileInfo
empty_file_info = record {
  name = [];
  hash_key = 0;
  size = 0;
  num_block = 0;
  num_primary_file = 0;
  n_lblock = 0;
  type = 0;
  replica = 0;
  reducer_output = false;
  job_id = 0;
  uploading = 1;
  is_input = false;
  intended_block_size = 0;
  blocks_metadata = [];
}

-- The rows come behind what the list holds.
pub file_table_select_all : List FileInfo → Tables → List FileInfo
unfolding file_callback
file_table_select_all found t =
    found
    ++ map (λ row. file_callback row empty_file_info)
        (filter (λ row. row.uploading == 0) t.file_table)

abbrev pub update_rows : Text → (FileInfo → FileInfo) → Tables → Tables
update_rows name change t = record t {
  file_table = map (λ row. if text_eq row.name name then change row else row) t.file_table;
}

unfoldable pub file_table_update : Text → ℕ → ℕ → ℕ → Tables → Tables
file_table_update name size num_block num_primary_file t =
    update_rows name
      (λ row. record row {
        size = size;
        num_block = num_block;
        num_primary_file = num_primary_file;
      })
      t

unfoldable pub file_table_confirm_upload : Text → ℕ → ℕ → Tables → Tables
file_table_confirm_upload name num_block num_primary_file t =
    update_rows name
      (λ row. record row {
        uploading = 0;
        num_block = num_block;
        num_primary_file = num_primary_file;
      })
      t

unfoldable pub file_table_delete : Text → Tables → Tables
file_table_delete name t = record t {
  file_table = filter (λ row. not (text_eq row.name name)) t.file_table;
}

-- `exist_callback`: there is a row, and the file is not being uploaded.
unfoldable pub file_table_exists : Text → Tables → Bool
file_table_exists name t = elim (first_row (filter (named name) t.file_table)) [
  | none ↦ false
  | some row ↦ row.uploading == 0
]

-- `INSERT OR REPLACE`.
unfoldable pub block_table_insert : BlockMetadata → Tables → Tables
block_table_insert block t = record t {
  block_table = filter (λ row. not (text_eq row.name block.name)) t.block_table ++ (block ∷ []);
}

unfoldable pub block_table_insert_all : List BlockMetadata → Tables → Tables
unfolding block_table_insert
block_table_insert_all [] t = t
block_table_insert_all (block ∷ blocks) t =
    block_table_insert_all blocks (block_table_insert block t)

-- `block_callback` into a record that holds `chunks`; the size goes through `atoi`.
unfoldable pub block_callback : BlockMetadata → BlockMetadata → BlockMetadata
unfolding signed_32
block_callback row block = record row { size = signed_32 row.size; chunks = block.chunks }

-- The digits of a numeral at the head of a text.
leading_digits : ℕ → Text → ℕ
leading_digits n [] = n
leading_digits n (c ∷ s) =
    let rest = leading_digits (10 * n + (c - 48)) s in if leb 48 c && leb c 57 then rest else n

-- The low byte of `atoi` of a text.
atoi_byte : Text → ℕ
unfolding leading_digits
atoi_byte [] = 0
atoi_byte (c ∷ s) =
    let skipped = atoi_byte s in
    let n = leading_digits 0 (if c == 43 || c == 45 then s else c ∷ s) in
    if c == 32 || (leb 9 c && leb c 13)
    then skipped
    else (if c == 45 then (256 - n % 256) % 256 else n % 256)

-- `block_list_callback`: it assigns `atoi` of the file name, a `char`, to the file name.
unfoldable pub block_list_callback : BlockMetadata → BlockMetadata
unfolding signed_32 atoi_byte
block_list_callback row = record row {
  file_name = atoi_byte row.file_name ∷ [];
  size = signed_32 row.size;
  chunks = [];
}

unfoldable pub block_table_select : Text → Tables → List BlockMetadata
unfolding block_list_callback
block_table_select name t =
    map block_list_callback (filter (λ row. text_eq row.file_name name) t.block_table)

pub block_table_select_by_index : Text → ℕ → BlockMetadata → Tables → BlockMetadata
unfolding block_callback
block_table_select_by_index name seq block t =
    elim (first_row (filter (λ row. text_eq row.file_name name && row.seq == seq) t.block_table)) [
      | none ↦ block
      | some row ↦ block_callback row block
    ]

pub block_table_update : Text → ℕ → ℕ → Tables → Tables
block_table_update name size seq t = record t {
  block_table =
      map
        (λ row.
          if text_eq row.file_name name && row.seq == seq then record row { size = size } else row)
        t.block_table;
}

pub block_table_delete : Text → ℕ → Tables → Tables
block_table_delete name seq t = record t {
  block_table = filter (λ row. not (text_eq row.file_name name && row.seq == seq)) t.block_table;
}

unfoldable pub block_table_delete_all : Text → Tables → Tables
block_table_delete_all name t = record t {
  block_table = filter (λ row. not (text_eq row.file_name name)) t.block_table;
}

-- `ORDER BY seq DESC LIMIT 1`.
pub last_block : Option BlockMetadata → List BlockMetadata → Option BlockMetadata
last_block best [] = best
last_block none (row ∷ rows) = last_block (some row) rows
last_block (some best) (row ∷ rows) =
    last_block (if ltb best.seq row.seq then some row else some best) rows

unfoldable pub select_last_block_metadata : Text → BlockMetadata → Tables → BlockMetadata
unfolding last_block block_callback
select_last_block_metadata name block t =
    elim (last_block none (filter (λ row. text_eq row.file_name name) t.block_table)) [
      | none ↦ block
      | some row ↦ block_callback row block
    ]

unfoldable pub chunk_table_insert : ChunkMetadata → Text → Tables → Tables
chunk_table_insert chunk file_name t = record t {
  chunk_table =
      filter (λ row. not (text_eq (row.1).name chunk.name)) t.chunk_table
      ++ ((file_name, chunk) ∷ []);
}

unfoldable pub chunk_table_insert_all : List ChunkMetadata → Text → Tables → Tables
unfolding chunk_table_insert
chunk_table_insert_all [] file_name t = t
chunk_table_insert_all (chunk ∷ chunks) file_name t =
    chunk_table_insert_all chunks file_name (chunk_table_insert chunk file_name t)

unfoldable pub chunk_table_select : Text → Tables → List ChunkMetadata
chunk_table_select primary_file t =
    map (λ row. row.1) (filter (λ row. text_eq (row.1).primary_file primary_file) t.chunk_table)

pub chunk_table_delete : Text → ℕ → Tables → Tables
chunk_table_delete primary_file seq t = record t {
  chunk_table =
      filter (λ row. not (text_eq (row.1).primary_file primary_file && (row.1).chunk_seq == seq))
        t.chunk_table;
}

unfoldable pub chunk_table_delete_all : Text → Tables → Tables
chunk_table_delete_all name t = record t {
  chunk_table = filter (λ row. not (text_eq row.0 name)) t.chunk_table;
}

-- These two name columns that `block_table` does not have, so that their statements fail.
pub chunk_table_update : Text → ℕ → ℕ → Tables → Tables
chunk_table_update primary_file size seq t = t

pub select_last_chunk_metadata {ℓ} : {A : Type ℓ} → Text → A → Tables → A
select_last_chunk_metadata primary_file chunk t = chunk
