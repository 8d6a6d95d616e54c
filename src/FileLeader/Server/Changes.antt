-- ===== src/FileLeader/Server/Changes.antt =====
-- Files that change, and the arrangements that are kept of them.
use velox_dfs.Base.{ℕ, true, false, ◌≡◌, refl, ap, ◌∙◌, [], some, Text}
use velox_dfs.Messages.{FileDescription, FileUpdate, FileRequest}
use velox_dfs.Directory.{
  Tables, create_tables, file_table_exists, select_last_block_metadata, file_table_update,
}
use velox_dfs.Directory.Select.{select_last-chunks}
use velox_dfs.FileLeader.Server.{
  Site, Leader, file_exist, file_update, file_request, request_table, find_arrangement,
  erase_arrangement, format, update_append, append_chunks, unset_block,
}
use velox_dfs.FileLeader.Server.Lifecycle.{find-erase, request-no_arrangement}

-- A format of the file system empties the tables, but keeps the arrangements: a request that does not
-- ask for a new one is still answered with the arrangement of a file that does not exist any more.
pub format_keeps_arrangements :
    (site : Site) (m : FileRequest) (fd : FileDescription) (l : Leader)
    → find_arrangement m.name l.arrangements ≡ some fd
    → m.generate ≡ false
    → (file_exist m.name (format l).1 ≡ false)
      × (file_request site m (format l).1 ≡ some (fd, (format l).1))
unfolding format file_request file_exist file_table_exists create_tables
format_keeps_arrangements site m fd l found old = (refl, rw (file_request, found, old) refl)

updated-tables :
    (site : Site) (f : FileUpdate) (l : Leader)
    → file_exist f.name l ≡ true
    → f.is_append ≡ true
    → ((file_update site f l).0 ≡ true)
      × ((file_update site f l).1.tables ≡ update_append site.garbage f l.tables)
unfolding file_update
updated-tables site f l there appends =
    (rw (file_update, there) refl, rw (file_update, there, appends) refl)

-- The block that an append selects has no chunks to append.
no_new_chunks :
    (name : Text) (garbage : ℕ) (t : Tables)
    → (select_last_block_metadata name (unset_block garbage) t).chunks ≡ []
no_new_chunks name garbage t = select_last-chunks name (unset_block garbage) t

append_tables :
    (garbage : ℕ) (f : FileUpdate) (t : Tables)
    → ((update_append garbage f t).block_table ≡ t.block_table)
      × ((update_append garbage f t).chunk_table ≡ t.chunk_table)
unfolding update_append append_chunks file_table_update
append_tables garbage f t =
    let nothing = no_new_chunks f.name garbage t in
    (
      rw (update_append, nothing, append_chunks) refl,
      rw (update_append, nothing, append_chunks) refl,
    )

-- An appending update of a file that exists succeeds and records no block and no chunk, whatever it
-- says of them.
pub append_records_nothing :
    (site : Site) (f : FileUpdate) (l : Leader)
    → file_exist f.name l ≡ true
    → f.is_append ≡ true
    → ((file_update site f l).0 ≡ true)
      × ((file_update site f l).1.tables.block_table ≡ l.tables.block_table)
      × ((file_update site f l).1.tables.chunk_table ≡ l.tables.chunk_table)
append_records_nothing site f l there appends =
    let (done, tables) = updated-tables site f l there appends in
    let (blocks, chunks) = append_tables site.garbage f l.tables in
    (done, ap Tables.block_table tables ∙ blocks, ap Tables.chunk_table tables ∙ chunks)

-- After an update of a file that exists, no request of it is answered with an arrangement made before:
-- it is answered from the tables.
pub request-update :
    (site : Site) (f : FileUpdate) (m : FileRequest) (l : Leader)
    → file_exist f.name l ≡ true
    → m.name ≡ f.name
    → file_request site m (file_update site f l).1 ≡ request_table site m (file_update site f l).1
unfolding file_update
request-update site f m l there same =
    let kept : (file_update site f l).1.arrangements ≡ erase_arrangement f.name l.arrangements =
      rw (file_update, there) refl in
    request-no_arrangement site m (file_update site f l).1
      (ap (find_arrangement m.name) kept ∙ rw same (find-erase f.name l.arrangements))
