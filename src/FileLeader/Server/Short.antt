-- ===== src/FileLeader/Server/Short.antt =====
-- A file that is confirmed as having no chunk after its first: the answer lists no chunk.
use velox_dfs.Base.{
  ℕ, ◌+◌, ◌<◌, ◌≡◌, refl, ap, sym, ◌∙◌, true, false, not, ◌&&◌, List, [], ◌∷◌, ◌++◌, map, none,
  some, Text, text_eq, text_eq_refl, length, length-map, length-append, arith, ◌==◌, ◌>>=◌, subst,
}
use velox_dfs.Messages.{FileInfo, FileDescription, FileRequest, BlockMetadata, ChunkMetadata}
use velox_dfs.Histogram.{Histogram}
use velox_dfs.Directory.{
  Tables, filter, named, file_table_select, empty_file_info, block_table_select, chunk_table_select,
  file_callback, block_list_callback, file_table_insert, file_table_confirm_upload,
  block_table_insert, block_table_insert_all, chunk_table_insert, chunk_table_insert_all,
}
use velox_dfs.Directory.Select.{filter-append, filter-filter_empty}
use velox_dfs.FileLeader.{Row, describe}
use velox_dfs.FileLeader.Server.{
  Site, Leader, file_request, request_table, finish_request, find_arrangement, rows_of,
  described_file, file_insert, file_insert_confirm, insert_chunks,
}
use velox_dfs.FileLeader.Server.Totality.{AllStarted, find_start-total}
use velox_dfs.FileLeader.Server.Lifecycle.{
  confirmed_row, announced-rows, confirmed-rows, request-no_arrangement,
}

-- A description without chunks.
abbrev pub IsBlank : FileDescription → Type 0
IsBlank fd = (fd.blocks ≡ []) × (fd.primary_files ≡ [])

describe_short :
    (fuel : ℕ) (hist : Histogram) (rows : List Row) (fd : FileDescription)
    → AllStarted rows
    → fd.num_block ≡ 0
    → fd.blocks ≡ []
    → fd.primary_files ≡ []
    → (fd' : FileDescription) × (describe fuel hist rows fd ≡ some fd') × IsBlank fd'
unfolding describe
describe_short fuel hist rows fd started none_after empty bare =
    let (s, found) = find_start-total hist rows rows 0 started in
    (
      record fd { info = record (fd.info) { num_primary_file = length rows } },
      rw (found, ◌>>=◌, none_after) refl,
      (empty, bare),
    )

file_table_select-known :
    (name : Text) (t : Tables) (row : FileInfo)
    → filter (named name) t.file_table ≡ row ∷ []
    → file_table_select name empty_file_info t ≡ file_callback row empty_file_info
unfolding file_table_select
file_table_select-known name t row e = rw (file_table_select, e) refl

-- The file is known, its first chunk is the last, and each primary file has a chunk.
pub record IsShort (name : Text) (l : Leader) : Type 0 where
  pub row : FileInfo
  pub known : filter (named name) l.tables.file_table ≡ row ∷ []
  pub done : row.uploading ≡ 0
  pub single : row.num_block ≡ 0
  pub started : AllStarted (rows_of (block_table_select name l.tables) l.tables)
  pub unarranged : find_arrangement name l.arrangements ≡ none

finish_old :
    (site : Site) (m : FileRequest) (fd : FileDescription) (l : Leader)
    → m.generate ≡ false
    → finish_request site m fd l ≡ some (fd, l)
unfolding finish_request
finish_old site m fd l old =
    let off : (fd.is_input && m.generate) ≡ false = ground (arith, old) in rw off refl

request_table-IsShort :
    (site : Site) (m : FileRequest) (l : Leader)
    → m.generate ≡ false
    → IsShort m.name l
    → (fd : FileDescription) × (request_table site m l ≡ some (fd, l)) × IsBlank fd
unfolding request_table file_callback
request_table-IsShort site m l old s =
    let fi : FileInfo = file_table_select m.name empty_file_info l.tables in
    let selected = file_table_select-known m.name l.tables s.row s.known in
    let up : (fi.uploading == 1) ≡ false =
      ap (λ r. FileInfo.uploading r == 1) selected ∙ ap (λ n. n == 1) s.done in
    let none_after : fi.num_block ≡ 0 = ap FileInfo.num_block selected ∙ s.single in
    let rows = rows_of (block_table_select m.name l.tables) l.tables in
    let (fd, described, empty) =
      describe_short (length l.tables.chunk_table + 2) site.boundaries rows
        (described_file m.name fi) s.started none_after refl refl in
    (fd, rw (request_table, up, described, ◌>>=◌) (finish_old site m fd l old), empty)

pub request-IsShort :
    (site : Site) (m : FileRequest) (l : Leader)
    → m.generate ≡ false
    → IsShort m.name l
    → (fd : FileDescription) × (file_request site m l ≡ some (fd, l)) × IsBlank fd
request-IsShort site m l old s =
    let (fd, answer, empty) = request_table-IsShort site m l old s in
    (fd, request-no_arrangement site m l s.unarranged ∙ answer, empty)

inserted-block_table :
    (f : FileInfo) (t : Tables)
    → filter (named f.name) t.file_table ≡ []
    → (file_table_insert f t).block_table ≡ t.block_table
unfolding file_table_insert
inserted-block_table f t new = rw (new, file_table_insert) refl

confirmed_tables :
    (c : FileInfo) (block : BlockMetadata) (chunk : ChunkMetadata) (l : Leader)
    → c.blocks_metadata ≡ block ∷ []
    → block.chunks ≡ chunk ∷ []
    → (file_insert_confirm c l).1.tables
      ≡ chunk_table_insert chunk c.name (
          block_table_insert block
            (file_table_confirm_upload c.name c.num_block c.num_primary_file l.tables))
unfolding file_insert_confirm insert_chunks block_table_insert_all chunk_table_insert_all
confirmed_tables c block chunk l blocks chunks =
    rw (blocks, insert_chunks, block_table_insert_all, chunks, chunk_table_insert_all) refl

-- An inserted chunk is found under its primary file.
chunk_found :
    (name : Text) (chunk : ChunkMetadata) (file : Text) (t : Tables)
    → chunk.primary_file ≡ name
    → 0 < length (chunk_table_select name (chunk_table_insert chunk file t))
unfolding chunk_table_select chunk_table_insert
chunk_found name chunk file t same =
    let P = λ (row : Text × ChunkMetadata). text_eq (row.1).primary_file name in
    let others =
      filter (λ (row : Text × ChunkMetadata). not (text_eq (row.1).name chunk.name))
        t.chunk_table in
    let hit : text_eq chunk.primary_file name ≡ true = rw same (text_eq_refl name) in
    let last : filter P ((file, chunk) ∷ []) ≡ (file, chunk) ∷ [] = rw hit refl in
    let found = filter-append P others ((file, chunk) ∷ []) ∙ ap (λ z. filter P others ++ z) last in
    let snd = λ (row : Text × ChunkMetadata). row.1 in
    omega (
      arith,
      ap (λ z. length (map snd z)) found,
      length-map snd (filter P others ++ ((file, chunk) ∷ [])),
      length-append (filter P others) ((file, chunk) ∷ []),
    )

block_found :
    (name : Text) (block : BlockMetadata) (chunk : ChunkMetadata) (file : Text) (t : Tables)
    → filter (λ row. text_eq row.file_name name) t.block_table ≡ []
    → block.file_name ≡ name
    → block_table_select name (chunk_table_insert chunk file (block_table_insert block t))
      ≡ block_list_callback block ∷ []
unfolding block_table_select chunk_table_insert block_table_insert
block_found name block chunk file t unlisted same =
    let P = λ (row : BlockMetadata). text_eq row.file_name name in
    let kept = λ (row : BlockMetadata). not (text_eq row.name block.name) in
    let hit : text_eq block.file_name name ≡ true = rw same (text_eq_refl name) in
    let last : filter P (block ∷ []) ≡ block ∷ [] = rw hit refl in
    let found : filter P (filter kept t.block_table ++ (block ∷ [])) ≡ block ∷ [] =
      filter-append P (filter kept t.block_table) (block ∷ [])
      ∙ rw (filter-filter_empty P kept t.block_table unlisted, last) refl in
    ap (map block_list_callback) found

-- What the confirmation of a file of one chunk leaves.
pub confirm-IsShort :
    (f c : FileInfo) (block : BlockMetadata) (chunk : ChunkMetadata) (l : Leader)
    → filter (named f.name) l.tables.file_table ≡ []
    → filter (λ row. text_eq row.file_name f.name) l.tables.block_table ≡ []
    → find_arrangement f.name l.arrangements ≡ none
    → c.name ≡ f.name
    → c.num_block ≡ 0
    → c.blocks_metadata ≡ block ∷ []
    → block.chunks ≡ chunk ∷ []
    → block.file_name ≡ f.name
    → chunk.primary_file ≡ block.name
    → IsShort f.name (file_insert_confirm c (file_insert f l).1).1
unfolding file_insert file_insert_confirm file_table_confirm_upload block_list_callback
confirm-IsShort f c block chunk l new unlisted unarranged same single blocks chunks file primary =
    let announced : Leader = (file_insert f l).1 in
    let after : Leader = (file_insert_confirm c announced).1 in
    let t = file_table_confirm_upload c.name c.num_block c.num_primary_file announced.tables in
    let tables = confirmed_tables c block chunk announced blocks chunks in
    let unlisted' =
      ap (filter (λ (row : BlockMetadata). text_eq row.file_name f.name))
        (inserted-block_table f l.tables new)
      ∙ unlisted in
    let listed : block_table_select f.name after.tables ≡ block_list_callback block ∷ [] =
      ap (block_table_select f.name) tables
      ∙ block_found f.name block chunk c.name t unlisted' file in
    let found : 0 < length (chunk_table_select block.name after.tables) =
      subst (λ x. 0 < length (chunk_table_select block.name x)) (sym tables)
        (chunk_found block.name chunk c.name (block_table_insert block t) primary) in
    let rows =
      subst (λ n. filter (named n) announced.tables.file_table ≡ f ∷ []) (sym same)
        (announced-rows f l new) in
    let hit : text_eq f.name c.name ≡ true = rw same (text_eq_refl f.name) in
    record {
      row = confirmed_row c f;
      known =
          subst (λ n. filter (named n) after.tables.file_table ≡ confirmed_row c f ∷ []) same
            (confirmed-rows c f announced rows hit);
      done = refl;
      single = single;
      started = subst (λ x. AllStarted (rows_of x after.tables)) (sym listed) (found, tt);
      unarranged = unarranged;
    }
