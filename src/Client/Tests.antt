-- ===== src/Client/Tests.antt =====
-- A run of a client on the first of four nodes: a file of two blocks, one on its own disk and one on
-- that of the third node.
use velox_dfs.Base.{
  ℕ, zero, suc, ◌+◌, ◌<◌, ◌≡◌, ◌≢◌, refl, ap, List, [], ◌∷◌, ◌++◌, some, Text, text, take, drop,
  length, get_elem?, arith, some-injective,
}
use velox_dfs.Messages.{FileDescription}
use velox_dfs.Histogram.{get_index}
use velox_dfs.Histogram.Lookup.{get_index_iff}
use velox_dfs.Disk.{Disk, content_of, entry_at, ends_in_slash, lookup, path_tokens, file}
use velox_dfs.FileLeader.Server.{empty_description}
use velox_dfs.Directory.{empty_file_info}
use velox_dfs.Client.{Cluster, fetch, read_physical}
use velox_dfs.Client.Range.{start}
use velox_dfs.Client.Loop.{IsServed}
use velox_dfs.Client.Fetch.{fetch_lem}
use velox_dfs.Client.Blocks.{read_physical_lem}

abbrev first_disk : Disk
first_disk = (text "x" ∷ [], file (text "abc")) ∷ []

abbrev third_disk : Disk
third_disk = (text "y" ∷ [], file (text "de")) ∷ []

abbrev cluster : Cluster
cluster = record {
  id = 0;
  boundaries = record { numserver = 4; boundaries = 10 ∷ 20 ∷ 30 ∷ 40 ∷ [] };
  disks = first_disk ∷ [] ∷ third_disk ∷ [] ∷ [];
}

abbrev fd : FileDescription
fd = record empty_description {
  info = record empty_file_info { name = text "f"; size = 5 };
  blocks = text "x" ∷ text "y" ∷ [];
  hash_keys = 5 ∷ 25 ∷ [];
  block_size = 3 ∷ 2 ∷ [];
}

abbrev contents : List Text
contents = text "abc" ∷ text "de" ∷ []

owner_0 : get_index cluster.boundaries 5 ≡ some 0
owner_0 = (get_index_iff cluster.boundaries 5 0).1 (omega arith)

owner_2 : get_index cluster.boundaries 25 ≡ some 2
owner_2 = (get_index_iff cluster.boundaries 25 2).1 (omega arith, (omega arith, omega arith))

holds_x : content_of (text "x") first_disk ≡ some (text "abc")
unfolding content_of entry_at lookup path_tokens ends_in_slash
holds_x = refl

holds_y : content_of (text "y") third_disk ≡ some (text "de")
unfolding content_of entry_at lookup path_tokens ends_in_slash
holds_y = refl

fetch_lem_example : fetch cluster 25 (text "y") 1 1 ≡ some (some (text "e"))
fetch_lem_example =
    fetch_lem cluster 25 2 1 1 (text "y") (text "de") third_disk owner_2 (omega arith) (omega arith)
      refl holds_y (omega arith) (omega arith) (omega arith)

served : IsServed cluster fd contents
served zero b e =
    let same : text "abc" ≡ b = some-injective _ _ e in
    (
      5,
      text "x",
      refl,
      ap (λ x. some (length x)) same,
      refl,
      λ cursor len some_len inside.
          fetch_lem cluster 5 0 cursor len (text "x") b first_disk owner_0 (omega arith)
            (omega arith) refl (rw (← same) holds_x) (rw (← same) (omega arith)) some_len inside,
    )
served (suc zero) b e =
    let same : text "de" ≡ b = some-injective _ _ e in
    (
      25,
      text "y",
      refl,
      ap (λ x. some (length x)) same,
      refl,
      λ cursor len some_len inside.
          fetch_lem cluster 25 2 cursor len (text "y") b third_disk owner_2 (omega arith)
            (omega arith) refl (rw (← same) holds_y) (rw (← same) (omega arith)) some_len inside,
    )
served (suc (suc i)) b e = absurd (cc)

solid : (j : ℕ) (b : Text) → get_elem? contents j ≡ some b → 0 < length b
solid zero b e = let same : text "abc" ≡ b = some-injective _ _ e in rw (← same) (omega arith)
solid (suc zero) b e = let same : text "de" ≡ b = some-injective _ _ e in rw (← same) (omega arith)
solid (suc (suc j)) b e = absurd (cc)

read_physical_lem_example :
    (n : ℕ) × (read_physical cluster fd 1 4 (text "?????")
      ≡ some (n, take n (text "bcde") ++ drop n (text "?????")))
    × (((k : ℕ) → start (suc k) contents ≢ 4) → n ≡ 4)
    × ((k : ℕ) → start (suc k) contents ≡ 4 → n + 1 ≡ 4)
read_physical_lem_example =
    read_physical_lem cluster fd contents 1 4 (text "?????") served refl refl (omega arith) solid
      (omega arith) (omega arith) (omega arith)
