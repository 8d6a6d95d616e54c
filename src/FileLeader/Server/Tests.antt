-- ===== src/FileLeader/Server/Tests.antt =====
-- Runs of the file leader on one small file.
use velox_dfs.Base.{true, false, ◌≡◌, refl, [], ◌∷◌, some, Text, text, text_eq, arith}
use velox_dfs.Messages.{
  FileInfo, FileDescription, BlockMetadata, ChunkMetadata, FileUpdate, FileRequest,
}
use velox_dfs.Directory.{empty_file_info, block_table_select, file_table_exists, chunk_table_select}
use velox_dfs.FileLeader.Server.{
  Site, Leader, empty_description, unset_block, unset_chunk, file_exist, file_insert,
  file_insert_confirm, file_update, file_delete, file_request, request_table, format, rows_of,
}
use velox_dfs.FileLeader.Server.Lifecycle.{unknown, delete_lem, upload_lem}
use velox_dfs.FileLeader.Server.Changes.{
  format_keeps_arrangements, append_records_nothing, request-update,
}
use velox_dfs.FileLeader.Server.Totality.{AllStarted, arranged_answer, file_request-total}

abbrev site : Site
site = record {
  id = 0;
  network_size = 3;
  ip = text "n0";
  boundaries = record { numserver = 3; boundaries = 10 ∷ 20 ∷ 30 ∷ [] };
  database = λ t. [];
  arrange = λ fd. some fd;
  garbage = 7;
}

abbrev ready : FileInfo
ready = record empty_file_info { name = text "f"; uploading = 0; num_block = 1; is_input = true }

abbrev block : BlockMetadata
block = record (unset_block 0) { name = text "f_0"; file_name = text "f"; hash_key = 15 }

abbrev chunk : ChunkMetadata
chunk = record (unset_chunk 0) { name = text "f_0_0"; primary_file = text "f_0"; size = 4 }

abbrev arranged : FileDescription
arranged = record empty_description { info = ready }

-- A file leader that knows the file `f`, with an arrangement of it.
abbrev leader : Leader
leader = record {
  tables = record {
    file_table = ready ∷ [];
    block_table = block ∷ [];
    chunk_table = (text "f", chunk) ∷ [];
  };
  arrangements = (text "f", arranged) ∷ [];
  disk = [];
}

abbrev ask : FileRequest
ask = record { name = text "f"; generate = false }

there : file_exist (text "f") leader ≡ true
unfolding file_exist file_table_exists
there = refl

delete_lem_example :
    let result = file_delete site (text "f") leader in
    (result.0 ≡ true)
    × (file_exist (text "f") result.1 ≡ false)
    × (block_table_select (text "f") result.1.tables ≡ [])
    × ((m : FileRequest)
        → m.name ≡ text "f"
        → file_request site m result.1 ≡ some (unknown (text "f"), result.1))
    × ((other : Text)
        → text_eq other (text "f") ≡ false
        → file_exist other result.1 ≡ file_exist other leader)
delete_lem_example = delete_lem site (text "f") leader there

abbrev fresh : FileInfo
fresh = record empty_file_info { name = text "g"; size = 4 }

abbrev confirmation : FileInfo
confirmation = record fresh { uploading = 0; num_block = 1; num_primary_file = 1 }

upload_lem_example :
    let announced = (file_insert fresh leader).1 in
    (file_exist (text "g") leader ≡ false)
    × (file_exist (text "g") announced ≡ false)
    × (file_exist (text "g") (file_insert_confirm confirmation announced).1 ≡ true)
upload_lem_example = upload_lem site fresh confirmation leader refl refl refl

format_keeps_arrangements_example :
    (file_exist (text "f") (format leader).1 ≡ false)
    × (file_request site ask (format leader).1 ≡ some (arranged, (format leader).1))
format_keeps_arrangements_example = format_keeps_arrangements site ask arranged leader refl refl

abbrev longer : FileUpdate
longer = record {
  name = text "f";
  size = 6;
  num_block = 1;
  num_primary_file = 1;
  is_append = true;
  blocks_metadata = record block { name = text "f_1"; chunks = chunk ∷ [] } ∷ [];
}

append_records_nothing_example :
    ((file_update site longer leader).0 ≡ true)
    × ((file_update site longer leader).1.tables.block_table ≡ leader.tables.block_table)
    × ((file_update site longer leader).1.tables.chunk_table ≡ leader.tables.chunk_table)
append_records_nothing_example = append_records_nothing site longer leader there refl

request-update_example :
    file_request site ask (file_update site longer leader).1
    ≡ request_table site ask (file_update site longer leader).1
request-update_example = request-update site longer ask leader there refl

started : AllStarted (rows_of (block_table_select (text "f") leader.tables) leader.tables)
unfolding block_table_select chunk_table_select
started = (omega arith, tt)

file_request-total_example :
    (fd : FileDescription) × (file_request site ask leader ≡ arranged_answer site ask fd leader)
file_request-total_example = file_request-total site ask leader started
