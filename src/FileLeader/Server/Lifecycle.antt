-- ===== src/FileLeader/Server/Lifecycle.antt =====
-- Files that come and go.
use velox_dfs.Base.{
  true, false, not, ◌≡◌, refl, ap, sym, ◌∙◌, List, [], ◌∷◌, map, none, some, Text, text_eq,
  text_eq_refl, Bool-cases, inl, inr, arith, subst, ◌==◌,
}
use velox_dfs.Messages.{FileInfo, BlockMetadata, FileDescription, FileRequest}
use velox_dfs.Directory.{
  Tables, filter, named, file_table_select, file_table_delete, file_table_confirm_upload,
  block_table_insert_all, chunk_table_insert_all, block_table_select, block_table_delete_all,
  chunk_table_delete_all, block_list_callback, empty_file_info,
}
use velox_dfs.Directory.Select.{
  filter-filter_none, exists-delete, exists-delete_other, rows-insert, exists-rows, exists-no_rows,
  rows-update, exists-same, block_table_insert_all-file_table, chunk_table_insert_all-file_table,
}
use velox_dfs.FileLeader.Server.{
  Site, Leader, file_exist, file_insert, file_insert_confirm, file_delete, file_request,
  request_table, find_arrangement, erase_arrangement, insert_chunks, empty_description,
}

pub find-erase :
    (name : Text) (kept : List (Text × FileDescription))
    → find_arrangement name (erase_arrangement name kept) ≡ none
find-erase name [] = refl
find-erase name ((key, fd) ∷ kept) = elim (Bool-cases (text_eq key name)) [
  | inl hit ↦ rw hit (find-erase name kept)
  | inr miss ↦ rw (miss, miss) (find-erase name kept)
]

-- Without an arrangement a request looks into the tables.
pub request-no_arrangement :
    (site : Site) (m : FileRequest) (l : Leader)
    → find_arrangement m.name l.arrangements ≡ none
    → file_request site m l ≡ request_table site m l
unfolding file_request
request-no_arrangement site m l e = rw (e, file_request) refl

-- The answer on a file that the tables do not know: the name, marked as being uploaded, no blocks.
abbrev pub unknown : Text → FileDescription
unknown name = record empty_description { info = record empty_file_info { name = name } }

request-unknown :
    (site : Site) (m : FileRequest) (l : Leader)
    → find_arrangement m.name l.arrangements ≡ none
    → filter (named m.name) l.tables.file_table ≡ []
    → file_request site m l ≡ some (unknown m.name, l)
unfolding request_table file_table_select
request-unknown site m l e gone =
    request-no_arrangement site m l e ∙ rw (request_table, gone, file_table_select) refl

no_rows :
    (name : Text) (t : Tables) → filter (named name) (file_table_delete name t).file_table ≡ []
unfolding file_table_delete
no_rows name t =
    filter-filter_none (named name) (λ row. not (text_eq row.name name)) t.file_table
      (λ row h. ground arith)

no_blocks :
    (name : Text) (t : Tables) → block_table_select name (block_table_delete_all name t) ≡ []
unfolding block_table_select block_table_delete_all
no_blocks name t =
    let none_left =
      filter-filter_none (λ row. text_eq row.file_name name)
        (λ row. not (text_eq row.file_name name)) t.block_table (λ row h. ground arith) in
    ap (map block_list_callback) none_left

-- What is left of a file leader after a deletion.
abbrev deleted : Text → Leader → Leader
deleted name l = record l {
  tables =
      chunk_table_delete_all name (block_table_delete_all name (file_table_delete name l.tables));
  arrangements = erase_arrangement name l.arrangements;
}

file_delete_lem :
    (site : Site) (name : Text) (l : Leader)
    → file_exist name l ≡ true
    → ((file_delete site name l).0 ≡ true) × ((file_delete site name l).1 ≡ deleted name l)
unfolding file_delete
file_delete_lem site name l there = (rw (there, file_delete) refl, rw (there, file_delete) refl)

unknown_after :
    (site : Site) (name : Text) (l : Leader) (m : FileRequest)
    → m.name ≡ name
    → file_request site m (deleted name l) ≡ some (unknown name, deleted name l)
unfolding chunk_table_delete_all block_table_delete_all
unknown_after site name l m same =
    subst (λ n. file_request site m (deleted n l) ≡ some (unknown n, deleted n l)) same
      (request-unknown site m (deleted m.name l) (find-erase m.name l.arrangements)
        (no_rows m.name l.tables))

exists_after :
    (name : Text) (l : Leader)
    → (file_exist name (deleted name l) ≡ false)
      × ((other : Text)
          → text_eq other name ≡ false
          → file_exist other (deleted name l) ≡ file_exist other l)
unfolding file_exist chunk_table_delete_all block_table_delete_all
exists_after name l = (
  exists-same name (deleted name l).tables (file_table_delete name l.tables) refl
      ∙ exists-delete name l.tables,
  λ other apart.
      exists-same other (deleted name l).tables (file_table_delete name l.tables) refl
      ∙ exists-delete_other name other l.tables apart,
)

no_blocks_after : (name : Text) (l : Leader) → block_table_select name (deleted name l).tables ≡ []
unfolding block_table_select block_table_delete_all chunk_table_delete_all file_table_delete
no_blocks_after name l = no_blocks name l.tables

-- The deletion of a file that exists succeeds. Afterwards the file does not exist and no block of it is
-- found; every request of it, for a new arrangement or not, is answered with a description without
-- blocks that is marked as being uploaded; and of any other name it is known as before whether the
-- file exists.
pub delete_lem :
    (site : Site) (name : Text) (l : Leader)
    → file_exist name l ≡ true
    → let result = file_delete site name l in
      (result.0 ≡ true)
      × (file_exist name result.1 ≡ false)
      × (block_table_select name result.1.tables ≡ [])
      × ((m : FileRequest)
          → m.name ≡ name
          → file_request site m result.1 ≡ some (unknown name, result.1))
      × ((other : Text)
          → text_eq other name ≡ false
          → file_exist other result.1 ≡ file_exist other l)
delete_lem site name l there =
    let (done, left) = file_delete_lem site name l there in
    let (gone, others) = exists_after name l in
    (
      done,
      ap (file_exist name) left ∙ gone,
      ap (λ x. block_table_select name (Leader.tables x)) left ∙ no_blocks_after name l,
      λ m same.
          subst (λ x. file_request site m x ≡ some (unknown name, x)) (sym left)
            (unknown_after site name l m same),
      λ other apart. ap (file_exist other) left ∙ others other apart,
    )

-- Of a deleted file no row is left.
pub delete-rows :
    (site : Site) (name : Text) (l : Leader)
    → file_exist name l ≡ true
    → filter (named name) (file_delete site name l).1.tables.file_table ≡ []
unfolding chunk_table_delete_all block_table_delete_all
delete-rows site name l there =
    let (done, left) = file_delete_lem site name l there in
    ap (λ x. filter (named name) (Leader.tables x).file_table) left ∙ no_rows name l.tables

insert_chunks-file_table :
    (blocks : List BlockMetadata) (name : Text) (t : Tables)
    → (insert_chunks blocks name t).file_table ≡ t.file_table
unfolding insert_chunks
insert_chunks-file_table [] name t = refl
insert_chunks-file_table (b ∷ blocks) name t =
    insert_chunks-file_table blocks name (chunk_table_insert_all b.chunks name t)
    ∙ chunk_table_insert_all-file_table b.chunks name t

-- A confirmation changes the file table as its first statement does.
confirm-rows :
    (c : FileInfo) (l : Leader)
    → (file_insert_confirm c l).1.tables.file_table
      ≡ (file_table_confirm_upload c.name c.num_block c.num_primary_file l.tables).file_table
unfolding file_insert_confirm
confirm-rows c l =
    let confirmed = file_table_confirm_upload c.name c.num_block c.num_primary_file l.tables in
    insert_chunks-file_table c.blocks_metadata c.name
      (block_table_insert_all c.blocks_metadata confirmed)
    ∙ block_table_insert_all-file_table c.blocks_metadata confirmed

-- The row of a file as its confirmation leaves it.
abbrev pub confirmed_row : FileInfo → FileInfo → FileInfo
confirmed_row c row = record row {
  uploading = 0;
  num_block = c.num_block;
  num_primary_file = c.num_primary_file;
}

pub confirmed-rows :
    (c row : FileInfo) (l : Leader)
    → filter (named c.name) l.tables.file_table ≡ row ∷ []
    → text_eq row.name c.name ≡ true
    → filter (named c.name) (file_insert_confirm c l).1.tables.file_table ≡ confirmed_row c row ∷ []
unfolding file_table_confirm_upload
confirmed-rows c row l e hit =
    ap (filter (named c.name)) (confirm-rows c l)
    ∙ rows-update c.name (confirmed_row c) l.tables row (λ r. refl) e hit

confirmed-exists :
    (c row : FileInfo) (l : Leader)
    → filter (named c.name) l.tables.file_table ≡ row ∷ []
    → text_eq row.name c.name ≡ true
    → file_exist c.name (file_insert_confirm c l).1 ≡ true
unfolding file_exist
confirmed-exists c row l e hit =
    exists-rows c.name _ (file_insert_confirm c l).1.tables (confirmed-rows c row l e hit)

pub announced-rows :
    (f : FileInfo) (l : Leader)
    → filter (named f.name) l.tables.file_table ≡ []
    → filter (named f.name) (file_insert f l).1.tables.file_table ≡ f ∷ []
unfolding file_insert
announced-rows f l new = rows-insert f l.tables new

-- An upload in two steps. Once a new file is announced, with `uploading` set, it does not exist, and a
-- request of it is answered without blocks; once it is confirmed, it exists.
pub upload_lem :
    (site : Site) (f c : FileInfo) (l : Leader)
    → filter (named f.name) l.tables.file_table ≡ []
    → f.uploading ≡ 1
    → c.name ≡ f.name
    → let announced = (file_insert f l).1 in
      (file_exist f.name l ≡ false)
      × (file_exist f.name announced ≡ false)
      × (file_exist f.name (file_insert_confirm c announced).1 ≡ true)
unfolding file_exist
upload_lem site f c l new up same =
    let rows = announced-rows f l new in
    let rows' =
      subst (λ n. filter (named n) (file_insert f l).1.tables.file_table ≡ f ∷ []) (sym same)
        rows in
    let hit : text_eq f.name c.name ≡ true = rw same (text_eq_refl f.name) in
    (
      exists-no_rows f.name l.tables new,
      exists-rows f.name f (file_insert f l).1.tables rows ∙ ap (λ n. n == 0) up,
      subst (λ n. file_exist n (file_insert_confirm c (file_insert f l).1).1 ≡ true) same
          (confirmed-exists c f (file_insert f l).1 rows' hit),
    )
