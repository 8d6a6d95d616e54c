-- ===== src/Disk/Tests.antt =====
-- Runs of the file operations.
use velox_dfs.Base.{
  ◌≡◌, refl, inl, true, false, [], ◌∷◌, none, some, Text, FilePath, text, path_eq, take, drop,
  arith,
}
use velox_dfs.Disk.{
  Disk, Entry, file, lookup, write, read, update, content_of, entry_at, ends_in_slash, path_tokens,
}
use velox_dfs.Disk.Write.{IsWritable, IsStorable, write_lem, write_repeated}
use velox_dfs.Disk.Slice.{read_within, read_past, read-write, update_lem}

-- A disk with a file `x` of five bytes.
abbrev small : Disk
small = (text "x" ∷ [], file (text "abcde")) ∷ []

in_directory : IsWritable (text "d/y") small
unfolding lookup path_tokens
in_directory = record { last_once = (refl, refl); open_way = (inl refl, λ e. cc) }

storable : IsStorable (text "d/y") small
unfolding ends_in_slash
storable = record { writable = in_directory; bare = refl }

write_lem_example :
    (lookup (path_tokens (text "d/y")) (write (text "d/y") (text "hi") small)
      ≡ some (file (text "hi")))
    × ((q : FilePath) (e : Entry)
        → lookup q small ≡ some e
        → path_eq (path_tokens (text "d/y")) q ≡ false
        → lookup q (write (text "d/y") (text "hi") small) ≡ some e)
write_lem_example = write_lem (text "d/y") (text "hi") small in_directory

write_repeated_example :
    (write (text "a/b/a") (text "hi") [] ≡ (text "a" ∷ [], file (text "hi")) ∷ [])
    × (content_of (text "a/b/a") (write (text "a/b/a") (text "hi") []) ≡ none)
unfolding path_tokens
write_repeated_example =
    write_repeated (text "a/b/a") (text "hi") (text "a") (text "b") (text "a" ∷ []) refl refl

found : content_of (text "x") small ≡ some (text "abcde")
unfolding content_of entry_at
found = refl

read_within_example : read (text "x") 1 3 false small ≡ some (text "bcd")
read_within_example =
    read_within (text "x") (text "abcde") 1 3 small found (omega arith) (omega arith)

read_past_example : read (text "x") 7 2 false small ≡ some (0 ∷ 0 ∷ [])
read_past_example =
    read_past (text "x") (text "abcde") 7 2 small found (omega arith) (omega arith) (omega arith)

read-write_example :
    read (text "d/y") 0 0 true (write (text "d/y") (text "hi") small) ≡ some (text "hi")
read-write_example = read-write (text "d/y") (text "hi") 0 small storable (omega arith)

update_lem_example :
    (d' : Disk) × (new : Text) × (update (text "x") (text "XY") 2 2 small ≡ some d')
    × (content_of (text "x") d' ≡ some new)
    × (take 2 new ≡ text "ab")
    × (take 2 (drop 2 new) ≡ text "XY")
    × (drop 4 new ≡ text "e")
update_lem_example = update_lem (text "x") (text "abcde") (text "XY") 2 small found (omega arith)
