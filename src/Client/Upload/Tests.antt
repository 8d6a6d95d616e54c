-- ===== src/Client/Upload/Tests.antt =====
-- Runs of an upload to three empty nodes.
use velox_dfs.Base.{
  ℕ, zero, suc, ◌<◌, ◌≤◌, ◌≡◌, ◌≢◌, ◌⊎◌, refl, inl, true, false, List, [], ◌∷◌, none, some, text,
  to_string, get_or, arith,
}
use velox_dfs.Histogram.{Histogram, get_index, random_within_boundaries}
use velox_dfs.Histogram.Lookup.{get_index_iff}
use velox_dfs.Disk.{Disk, lookup, path_tokens, ends_in_slash}
use velox_dfs.Disk.Write.{IsStorable}
use velox_dfs.Client.Upload.{Job, State, back_up, block_end, primary_name, upload_loop}
use velox_dfs.Client.Upload.Store.{IsFree}
use velox_dfs.Client.Upload.Pass.{IsUploadable}
use velox_dfs.Client.Upload.Endless.{upload-long_line}

abbrev pub boundaries : Histogram
boundaries = record { numserver = 3; boundaries = 10 ∷ 20 ∷ 30 ∷ [] }

-- Five bytes in blocks of two, with the second node first.
abbrev pub job : Job
job = record {
  name = text "f";
  bytes = text "abcde";
  block_size = 2;
  replica = 3;
  is_equal_sized = true;
  hash_key = 4;
  nodes = text "n0" ∷ text "n1" ∷ text "n2" ∷ [];
  boundaries = boundaries;
  draw = λ k. 5;
  behind = 0 ∷ [];
  garbage = 7;
}

abbrev pub disks : List Disk
disks = [] ∷ [] ∷ [] ∷ []

storable : (k : ℕ) → k < 3 → IsStorable (primary_name job k) []
unfolding primary_name path_tokens ends_in_slash lookup to_string
storable zero h = record { writable = record { last_once = refl; open_way = λ e. cc }; bare = refl }
storable (suc zero) h = record {
  writable = record { last_once = refl; open_way = λ e. cc };
  bare = refl;
}
storable (suc (suc zero)) h = record {
  writable = record { last_once = refl; open_way = λ e. cc };
  bare = refl;
}
storable (suc (suc (suc k))) h = absurd (omega arith)

pub free : (k : ℕ) → k < 3 → IsFree job disks k
free zero h = ([], refl, storable 0 h)
free (suc zero) h = ([], refl, storable 1 h)
free (suc (suc zero)) h = ([], refl, storable 2 h)
free (suc (suc (suc k))) h = absurd (omega arith)

pub owns :
    (k : ℕ)
    → k < 3
    → (key : ℕ) × (random_within_boundaries boundaries 5 k ≡ some key)
      × (get_index boundaries key ≡ some k)
unfolding random_within_boundaries
owns zero h = (5, refl, (get_index_iff boundaries 5 0).1 (omega arith))
owns (suc zero) h = (15, refl, (get_index_iff boundaries 15 1).1 (omega arith, omega arith))
owns (suc (suc zero)) h =
    (25, refl, (get_index_iff boundaries 25 2).1 (omega arith, (omega arith, omega arith)))
owns (suc (suc (suc k))) h = absurd (omega arith)

pub uploadable : IsUploadable job disks
uploadable = record {
  equal = refl;
  nonempty = omega arith;
  some_block = omega arith;
  small = omega arith;
  narrow = omega arith;
  zero_free = (omega arith, (omega arith, (omega arith, (omega arith, (omega arith, tt)))));
  rest = [];
  terminated = refl;
  some_nodes = omega arith;
  same_length = refl;
  owns = owns;
  free = free;
}

-- Lines of five bytes do not fit blocks of three.
abbrev lined : Job
lined = record job { bytes = text "abcdefgh"; block_size = 3; is_equal_sized = false }

abbrev initial : State
initial = record { block_seq = 0; blocks_metadata = []; primary_seq = 0; sent = [] }

no_newline : (p : ℕ) → 0 < p → p ≤ 3 → get_or (text "abcdefgh") p 0 ≢ 10
no_newline zero a b e = absurd (omega arith)
no_newline (suc zero) a b e = absurd (omega arith)
no_newline (suc (suc zero)) a b e = absurd (omega arith)
no_newline (suc (suc (suc zero))) a b e = absurd (omega arith)
no_newline (suc (suc (suc (suc p)))) a b e = absurd (omega arith)

upload-long_line_example :
    ((back_up (text "abcdefgh") 3 ≡ none) ⊎ (block_end lined 0 ≡ some 0))
    × (upload_loop 100 lined 0 0 initial ≡ none)
upload-long_line_example =
    upload-long_line lined 100 0 0 initial refl (omega arith) (omega arith) (inl refl) no_newline
