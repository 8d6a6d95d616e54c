-- ===== src/Scheduler/Simple.antt =====
-- src/stats/scheduler_simple.cc: one logical block for each host of a chunk, with the chunks of that host.
pub mod Hosts
pub mod Conserve
use velox_dfs.Base.{
  ℕ, zero, suc, ◌+◌, ◌&&◌, ◌||◌, Bool, true, false, List, [], ◌∷◌, ◌++◌, Option, none, some, Text,
  text, text_eq, to_string, get_elem?, length, ltb, ◌==◌, if◌then◌else◌, ◌>>=◌,
}
use velox_dfs.Messages.{BlockInfo, LogicalBlock, FileDescription, FileInfo, empty_logical_block}
use velox_dfs.Histogram.{Histogram, random_within_boundaries}
use velox_dfs.Scheduler.{index_of}

-- `operator<` of strings, by bytes.
abbrev pub text_lt : Text → Text → Bool
text_lt [] [] = false
text_lt [] (b ∷ t) = true
text_lt (a ∷ s) [] = false
text_lt (a ∷ s) (b ∷ t) = ltb a b || (a == b && text_lt s t)

-- `set<string>`, as the sorted list of its elements.
abbrev pub insert_host : Text → List Text → List Text
insert_host host [] = host ∷ []
insert_host host (x ∷ xs) =
    let rest = insert_host host xs in
    if text_eq x host then x ∷ xs else (if text_lt host x then host ∷ x ∷ xs else x ∷ rest)

abbrev pub hosts_of : List Text → List Text
hosts_of [] = []
hosts_of (host ∷ hosts) = insert_host host (hosts_of hosts)

-- The `BlockInfo` of chunk j; the loop leaves the other fields unset.
abbrev pub simple_block : Text → Text → Text → ℕ → ℕ → BlockInfo
simple_block file_name host name hash_key size = record {
  name = name;
  primary_file = [];
  file_name = file_name;
  seq = none;
  hash_key = hash_key;
  size = size;
  primary_seq = none;
  offset = none;
  foffset = none;
  node = host;
  l_node = [];
  r_node = [];
  content = [];
}

-- The body of the inner loop for a chunk of the host.
abbrev pub block_at : FileDescription → Text → ℕ → Option BlockInfo
block_at fd host j = do
  name ← get_elem? fd.blocks j
  hash_key ← get_elem? fd.hash_keys j
  size ← get_elem? fd.block_size j
  some (simple_block fd.name host name hash_key size)

-- The inner loop over j, over the hosts that are left: the chunks of one host.
unfoldable pub chunks_of : FileDescription → Text → ℕ → List Text → Option (List BlockInfo)
chunks_of fd host j [] = some []
chunks_of fd host j (x ∷ xs) =
    let rest = chunks_of fd host (j + 1) xs in
    if text_eq x host
    then (block_at fd host j >>= (λ block. rest >>= (λ blocks. some (block ∷ blocks))))
    else rest

abbrev pub size_of_chunks : List BlockInfo → ℕ
size_of_chunks [] = 0
size_of_chunks (b ∷ bs) = b.size + size_of_chunks bs

-- The block of a host. The name has the number i, and the sequence number is one more.
abbrev pub simple_lblock : Text → ℕ → Text → ℕ → List BlockInfo → LogicalBlock
simple_lblock file_name i host key chunks = record empty_logical_block {
  name = text "logical_" ++ (file_name ++ (text "_" ++ to_string i));
  file_name = file_name;
  seq = i + 1;
  hash_key = key;
  host_name = host;
  size = size_of_chunks chunks;
  physical_blocks = chunks;
}

-- The loop over the hosts, with i blocks made before. `draws i` is what `rand()` returns then.
unfoldable pub simple_blocks :
    Histogram → (ℕ → ℕ) → FileDescription → List Text → ℕ → List Text → Option (List LogicalBlock)
unfolding chunks_of
simple_blocks hist draws fd nodes i [] = some []
simple_blocks hist draws fd nodes i (host ∷ hosts) = do
  key ← random_within_boundaries hist (draws i) (index_of host nodes)
  chunks ← chunks_of fd host 0 fd.block_hosts
  rest ← simple_blocks hist draws fd nodes (i + 1) hosts
  some (simple_lblock fd.name i host key chunks ∷ rest)

-- The end of the loop. Without hosts `n_lblock` is not set.
abbrev pub with_blocks : FileDescription → List Text → List LogicalBlock → FileDescription
with_blocks fd hosts new = record fd {
  logical_blocks = fd.logical_blocks ++ new;
  info = if length hosts == 0 then fd.info else record (fd.info) { n_lblock = length hosts };
}

-- `scheduler_simple::generate`.
pub generate : Histogram → (ℕ → ℕ) → FileDescription → List Text → Option FileDescription
unfolding simple_blocks
generate hist draws fd nodes = do
  let hosts = hosts_of fd.block_hosts
  new ← simple_blocks hist draws fd nodes 0 hosts
  some (with_blocks fd hosts new)
