-- ===== src/FileLeader/Server/Router.antt =====
-- src/fileleader/file_leader_router.cc: what the file leader answers to a message.
use velox_dfs.Base.{Bool, List, [], Option, some, Text, text, ◌==◌, if◌then◌else◌, ◌>>=◌}
use velox_dfs.Messages.{FileInfo, FileDescription, FileUpdate, FileRequest, MetaData}
use velox_dfs.FileLeader.Server.{
  Site, Leader, file_insert, file_insert_confirm, file_update, file_delete, file_request, list,
  file_exist, metadata_save, format,
}

-- The messages that the router handles, and what it writes to the peer.
pub data Request : Type 0 where
  file_info : FileInfo → Request
  file_update_of : FileUpdate → Request
  file_request_of : FileRequest → Request
  file_list : List FileInfo → Request
  file_del : Text → Request
  file_exists : Text → Request
  metadata : MetaData → Request
  format_request : Request

pub data Response : Type 0 where
  description : FileDescription → Response
  listing : List FileInfo → Response
  reply : Text → Text → Response
  silent : Response

abbrev pub said : Bool → Text → Text → Text → Response
said ok yes_text no_text details = if ok then reply yes_text [] else reply no_text details

-- `FileLeaderRouter`: the handlers of the routing table.
unfoldable pub handle : Site → Request → Leader → Option (Response × Leader)
unfolding file_insert file_insert_confirm file_update file_delete file_request list file_exist
    metadata_save format
handle site (file_info f) l =
    let inserted = file_insert f l in
    let confirmed = file_insert_confirm f l in
    some (
      if f.uploading == 1
      then (description inserted.0, inserted.1)
      else (if f.uploading == 0
          then (said confirmed.0 (text "TRUE") (text "FALSE") [], confirmed.1)
          else (silent, l)))
handle site (file_update_of f) l =
    let updated = file_update site f l in
    some (said updated.0 (text "OK") (text "FAIL") (text "File doesn't exist"), updated.1)
handle site (file_request_of m) l = do
  answered ← file_request site m l
  some (description answered.0, answered.1)
handle site (file_list files) l = some (listing (list files l), l)
handle site (file_del name) l =
    let deleted = file_delete site name l in
    some (said deleted.0 (text "OK") (text "FAIL") (text "File doesn't exist"), deleted.1)
handle site (file_exists name) l =
    some (said (file_exist name l) (text "TRUE") (text "FALSE") [], l)
handle site (metadata m) l = some (silent, metadata_save m l)
handle site format_request l =
    let formatted = format l in some (said formatted.0 (text "OK") (text "FAIL") [], formatted.1)
