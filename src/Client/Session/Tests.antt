-- ===== src/Client/Session/Tests.antt =====
-- A client that uploads a file of five bytes, in blocks of two or in one block, and removes it.
use velox_dfs.Base.{◌≡◌, refl, true, false, [], ◌∷◌, some, text, text_eq, arith}
use velox_dfs.Messages.{FileInfo, FileDescription}
use velox_dfs.Directory.{create_tables, filter, named, empty_file_info, file_table_exists}
use velox_dfs.Disk.{file}
use velox_dfs.FileLeader.Server.{Site, empty_description, file_exist, file_request}
use velox_dfs.Client.Upload as Upload
use velox_dfs.Client.Upload.Pass.{IsUploadable}
use velox_dfs.Client.Upload.Tests.{boundaries, job, disks, uploadable, owns, free}
use velox_dfs.Client.Session.{World, exists, with_arguments, request, upload, remove, download}
use velox_dfs.Client.Session.Removed.{AreGone, remove_lem}
use velox_dfs.Client.Session.Short.{upload-one_block}

abbrev site : Site
site = record {
  id = 1;
  network_size = 3;
  ip = text "n1";
  boundaries = boundaries;
  database = λ t. [];
  arrange = λ fd. some fd;
  garbage = 7;
}

abbrev world : World
world = record {
  leader = record { tables = create_tables; arrangements = []; disk = [] };
  disks = disks;
}

new : filter (named (text "f")) (world.leader).tables.file_table ≡ []
unfolding create_tables
new = refl

unlisted : filter (λ row. text_eq row.file_name (text "f")) (world.leader).tables.block_table ≡ []
unfolding create_tables
unlisted = refl

one_block : IsUploadable (with_arguments job false 8) disks
unfolding Upload.primary_name
one_block = record {
  equal = refl;
  nonempty = omega arith;
  some_block = omega arith;
  small = omega arith;
  narrow = omega arith;
  zero_free = uploadable.zero_free;
  rest = [];
  terminated = refl;
  some_nodes = omega arith;
  same_length = refl;
  owns = owns;
  free = free;
}

upload-one_block_example :
    (w' : World) × (upload site job false 8 true world ≡ some (true, w'))
    × (download site (text "f") w' ≡ some (some []))
    × (w'' : World) × (remove site (text "f") w' ≡ some (true, w''))
    × (w''.disks ≡ w'.disks)
upload-one_block_example =
    upload-one_block site job false 8 world one_block (omega arith) new unlisted refl

-- A file of two chunks in one primary file on the second node.
abbrev info : FileInfo
info = record empty_file_info {
  name = text "f";
  uploading = 0;
  num_block = 1;
  num_primary_file = 1;
}

abbrev stored : FileDescription
stored = record empty_description {
  info = info;
  primary_files = text "p" ∷ text "p" ∷ [];
  hash_keys = 15 ∷ 15 ∷ [];
}

abbrev kept : World
kept = record {
  leader = record {
    tables = record { file_table = info ∷ []; block_table = []; chunk_table = [] };
    arrangements = (text "f", stored) ∷ [];
    disk = [];
  };
  disks = [] ∷ ((text "p" ∷ [], file (text "abcde")) ∷ []) ∷ [] ∷ [];
}

there : file_exist (text "f") kept.leader ≡ true
unfolding file_exist file_table_exists
there = refl

requested : file_request site (request (text "f")) kept.leader ≡ some (stored, kept.leader)
unfolding file_request
requested = refl

remove_lem_example :
    (w' : World) × (remove site (text "f") kept ≡ some (true, w'))
    × (exists site (text "f") w' ≡ some false)
    × (filter (named (text "f")) (w'.leader).tables.file_table ≡ [])
    × AreGone boundaries stored 3 (text "p" ∷ text "p" ∷ []) 0 w'.disks
remove_lem_example =
    remove_lem site (text "f") kept stored kept.leader (λ e. absurd (omega arith)) there requested
      (omega arith)
