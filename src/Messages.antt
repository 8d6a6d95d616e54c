-- ===== src/Messages.antt =====
-- The records that the components exchange: src/common/blockmetadata.hh,
-- src/common/logical_block_metadata.hh and src/messages. Texts are byte lists; numbers are naturals.
-- A field that C++ leaves uninitialised until a component sets it is an `Option` (none: not set).
use velox_dfs.Base.{ℕ, Bool, List, [], Option, none, Text}

-- `size` is a `uint32_t`.
pub record ChunkMetadata : Type 0 where
  pub size : ℕ
  pub offset : ℕ
  pub foffset : ℕ
  pub chunk_seq : ℕ
  pub name : Text
  pub primary_file : Text
  pub primary_seq : ℕ

pub record BlockMetadata : Type 0 where
  pub name : Text
  pub file_name : Text
  pub seq : ℕ
  pub hash_key : ℕ
  pub size : ℕ
  pub type : ℕ
  pub replica : ℕ
  pub node : Text
  pub l_node : Text
  pub r_node : Text
  pub is_committed : ℕ
  pub chunks : List ChunkMetadata

-- `type`, `replica` and `is_committed` are set by no scheduler, and nothing reads them.
pub record BlockInfo : Type 0 where
  pub name : Text
  pub primary_file : Text
  pub file_name : Text
  pub seq : Option ℕ
  pub hash_key : ℕ
  pub size : ℕ
  pub primary_seq : Option ℕ
  pub offset : Option ℕ
  pub foffset : Option ℕ
  pub node : Text
  pub l_node : Text
  pub r_node : Text
  pub content : Text

-- `replica_chunk_num` is the two-element array, entry by entry.
pub record LogicalBlock : Type 0 where
  pub file_name : Text
  pub name : Text
  pub host_name : Text
  pub size : ℕ
  pub hash_key : ℕ
  pub seq : ℕ
  pub replica_chunk_num_0 : Option ℕ
  pub replica_chunk_num_1 : Option ℕ
  pub primary_chunk_num : ℕ
  pub physical_blocks : List BlockInfo

-- A default-constructed `logical_block_metadata`.
abbrev pub empty_logical_block : LogicalBlock
empty_logical_block = record {
  file_name = [];
  name = [];
  host_name = [];
  size = 0;
  hash_key = 0;
  seq = 0;
  replica_chunk_num_0 = none;
  replica_chunk_num_1 = none;
  primary_chunk_num = 0;
  physical_blocks = [];
}

pub record FileInfo : Type 0 where
  pub name : Text
  pub hash_key : ℕ
  pub size : ℕ
  pub num_block : ℕ
  pub num_primary_file : ℕ
  pub n_lblock : ℕ
  pub type : ℕ
  pub replica : ℕ
  pub reducer_output : Bool
  pub job_id : ℕ
  pub uploading : ℕ
  pub is_input : Bool
  pub intended_block_size : ℕ
  pub blocks_metadata : List BlockMetadata

pub record FileDescription : Type 0 where
  pub info : FileInfo
  pub open info use *
  pub primary_files : List Text
  pub blocks : List Text
  pub hash_keys : List ℕ
  pub block_size : List ℕ
  pub offsets : List ℕ
  pub offsets_in_file : List ℕ
  pub chunk_sequences : List ℕ
  pub primary_sequences : List ℕ
  pub block_hosts : List Text
  pub logical_blocks : List LogicalBlock
  pub num_static_blocks : ℕ

-- `IOoperation::OpType`.
pub data OpType : Type 0 where
  block_insert block_insert_replica block_delete block_delete_replica : OpType
  block_request block_transfer block_update block_update_replica : OpType
  logical_block_request lblock_manager_init lblock_manager_read : OpType
  lblock_stop lblock_manager_destroy : OpType

-- `Block` is a pair of a name and its content.
pub record IoOperation : Type 0 where
  pub operation : OpType
  pub pos : ℕ
  pub length : ℕ
  pub block_name : Text
  pub block_content : Text

pub record FileUpdate : Type 0 where
  pub name : Text
  pub size : ℕ
  pub num_block : ℕ
  pub num_primary_file : ℕ
  pub is_append : Bool
  pub blocks_metadata : List BlockMetadata

-- The field `type`, which nothing reads, is left out.
pub record FileRequest : Type 0 where
  pub name : Text
  pub generate : Bool

-- Of `MetaData` the field `name` is never set.
pub record MetaData : Type 0 where
  pub content : Text
  pub node : Text
