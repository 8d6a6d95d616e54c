-- ===== src/Client/Session/Short.antt =====
-- What a client gets of a file that is uploaded as one chunk: `num_block` is the number of the last
-- chunk, which is 0, and the file leader lists no chunk of a file whose `num_block` is 0.
use velox_dfs.Base.{
  ◌≤◌, ◌≡◌, ap, ◌∙◌, refl, true, Bool, List, [], none, some, Text, text_eq, length, ◌>>=◌, ℕ, map,
}
use velox_dfs.Messages.{FileDescription}
use velox_dfs.Histogram.{Histogram}
use velox_dfs.Directory.{filter, named, empty_file_info}
use velox_dfs.Disk.{Disk}
use velox_dfs.FileLeader.Server.{
  Site, Leader, file_exist, file_request, file_delete, find_arrangement,
}
use velox_dfs.FileLeader.Server.Router.{handle}
use velox_dfs.FileLeader.Server.Lifecycle.{upload_lem}
use velox_dfs.FileLeader.Server.Short.{IsShort, request-IsShort, confirm-IsShort}
use velox_dfs.Client.Upload.{Job, State, upload_blocks, download_from}
use velox_dfs.Client.Upload.Pass.{IsUploadable}
use velox_dfs.Client.Upload.First.{IsFirst, upload_blocks-IsFirst}
use velox_dfs.Client.Upload.RoundTrip.{upload-download}
use velox_dfs.Client.Session.{
  World, with_arguments, announcement, confirmation, request, upload, download, remove,
  remove_blocks,
}
use velox_dfs.Client.Session.Removed.{remove_file_lem}
use velox_dfs.Client.Session.Sent.{confirmed, send_file_lem, upload_new}
use velox_dfs.Client.Upload as Upload

fetch_nothing :
    (boundaries : Histogram) (disks : List Disk) (fd : FileDescription)
    → fd.blocks ≡ []
    → Upload.download boundaries disks fd ≡ some []
unfolding Upload.download download_from
fetch_nothing boundaries disks fd empty =
    ap (λ (blocks : List Text). download_from boundaries disks fd (length blocks) 0) empty

-- A description without blocks: the local file is made and nothing is written.
download_nothing :
    (site : Site) (name : Text) (w : World) (fd : FileDescription) (l : Leader)
    → file_exist name w.leader ≡ true
    → file_request site (request name) w.leader ≡ some (fd, l)
    → fd.blocks ≡ []
    → download site name w ≡ some (some [])
unfolding download handle
download_nothing site name w fd l there answer empty =
    rw (there, answer, ◌>>=◌, fetch_nothing site.boundaries w.disks fd empty) refl

-- A description without primary files: a removal deletes nothing from the nodes.
remove_nothing :
    (site : Site) (name : Text) (w : World) (fd : FileDescription)
    → file_exist name w.leader ≡ true
    → file_request site (request name) w.leader ≡ some (fd, w.leader)
    → fd.primary_files ≡ []
    → (w' : World) × (remove site name w ≡ some (true, w')) × (w'.disks ≡ w.disks)
unfolding remove remove_blocks handle
remove_nothing site name w fd there answer bare = (
  record { leader = (file_delete site name w.leader).1; disks = w.disks },
  rw (answer, ◌>>=◌, bare) (remove_file_lem site name w w.disks there),
  refl,
)

confirmed-IsShort :
    (job : Job) (u : State) (l : Leader)
    → IsFirst job u
    → filter (named job.name) l.tables.file_table ≡ []
    → filter (λ row. text_eq row.file_name job.name) l.tables.block_table ≡ []
    → find_arrangement job.name l.arrangements ≡ none
    → IsShort job.name (confirmed job u l)
confirmed-IsShort job u l first new unlisted unarranged =
    confirm-IsShort (announcement job) (confirmation job u) first.block first.chunk l new unlisted
      unarranged refl first.seq (ap (map (λ entry. entry.1)) first.only) first.chunks first.file
      first.primary

-- An upload of a local file of at most one block, under a name that the file leader knows no row, block
-- or arrangement of, succeeds, when it is
-- in equal-sized blocks of 1 to 2^32 - 1 bytes, of a file that is not empty, has no zero byte and with
-- one block more is shorter than 2^63 bytes, where the memory behind the vector of the chunk begins with
-- a zero and the key drawn for each server is owned by that server, to one node or more, on each of
-- which the primary file can be written under its name, which does not end in a slash; but a
-- download of it, which succeeds, writes an empty file, and a removal of it, which succeeds, changes
-- nothing on the nodes.
pub upload-one_block :
    (site : Site) (job : Job) (is_binary : Bool) (block_size : ℕ) (w : World)
    → IsUploadable (with_arguments job is_binary block_size) w.disks
    → length job.bytes ≤ (with_arguments job is_binary block_size).block_size
    → filter (named job.name) w.leader.tables.file_table ≡ []
    → filter (λ row. text_eq row.file_name job.name) w.leader.tables.block_table ≡ []
    → find_arrangement job.name w.leader.arrangements ≡ none
    → (w' : World) × (upload site job is_binary block_size true w ≡ some (true, w'))
      × (download site job.name w' ≡ some (some []))
      × (w'' : World) × (remove site job.name w' ≡ some (true, w''))
      × (w''.disks ≡ w'.disks)
upload-one_block site job is_binary block_size w ok one new unlisted unarranged =
    let given = with_arguments job is_binary block_size in
    let (u, picks, disks, ended, performed, tiled, listed, fetched) =
      upload-download given w.disks ok empty_file_info in
    let w' : World = record { leader = confirmed given u w.leader; disks = disks } in
    let (absent, hidden, there) =
      upload_lem site (announcement given) (confirmation given u) w.leader new refl refl in
    let first = upload_blocks-IsFirst given ok.equal ok.small one u ended in
    let (fd, answer, blank) =
      request-IsShort site (request job.name) w'.leader refl
        (confirmed-IsShort given u w.leader first new unlisted unarranged) in
    let removed = remove_nothing site job.name w' fd there answer blank.1 in
    (
      w',
      upload_new site job is_binary block_size w absent
          ∙ send_file_lem site given w u disks ended performed,
      download_nothing site job.name w' fd w'.leader there answer blank.0,
      removed.0,
      removed.1,
      removed.2,
    )
