-- ===== src/Client/Session/Sent.antt =====
-- What a client finds after an upload.
use velox_dfs.Base.{ℕ, ◌≡◌, refl, true, false, List, some, Text, ◌>>=◌, Bool, Bool-cases, inl, inr}
use velox_dfs.Disk.{Disk}
use velox_dfs.FileLeader.Server.{Site, Leader, file_exist, file_insert, file_insert_confirm}
use velox_dfs.FileLeader.Server.Router.{handle}
use velox_dfs.Client.Upload.{Job, State, upload_blocks, perform}
use velox_dfs.Client.Session.{
  World, exists, with_arguments, announcement, confirmation, send_file, upload,
}
use velox_dfs.Client.Upload as Upload

-- `exists` tells what the file leader knows.
pub exists_lem :
    (site : Site) (name : Text) (w : World) → exists site name w ≡ some (file_exist name w.leader)
unfolding exists handle
exists_lem site name w = elim (Bool-cases (file_exist name w.leader)) [
  | inl there ↦ rw (there, ◌>>=◌) refl
  | inr absent ↦ rw (absent, ◌>>=◌) refl
]

-- The leader once the upload is confirmed.
abbrev pub confirmed : Job → State → Leader → Leader
confirmed job u l =
    (file_insert_confirm (confirmation job u) (file_insert (announcement job) l).1).1

pub send_file_lem :
    (site : Site) (job : Job) (w : World) (u : State) (disks : List Disk)
    → upload_blocks job ≡ some u
    → perform u.sent w.disks ≡ some disks
    → send_file site job w
      ≡ some (true, record { leader = confirmed job u w.leader; disks = disks })
unfolding send_file handle file_insert_confirm
send_file_lem site job w u disks ended performed = rw (ended, ◌>>=◌, performed) refl

-- An upload of a file that is there, of a new name, is sent; of a name that exists it is refused.
pub upload_new :
    (site : Site) (job : Job) (is_binary : Bool) (block_size : ℕ) (w : World)
    → file_exist job.name w.leader ≡ false
    → upload site job is_binary block_size true w
      ≡ send_file site (with_arguments job is_binary block_size) w
unfolding upload
upload_new site job is_binary block_size w absent = rw (absent, ◌>>=◌) refl

pub upload_refused :
    (site : Site) (job : Job) (is_binary : Bool) (block_size : ℕ) (is_local : Bool) (w : World)
    → file_exist job.name w.leader ≡ true
    → upload site job is_binary block_size is_local w ≡ some (false, w)
unfolding upload
upload_refused site job is_binary block_size false w there = refl
upload_refused site job is_binary block_size true w there = rw (there, ◌>>=◌) refl
