-- ===== src/Disk.antt =====
-- src/blocknode/local_io.cc: the files below the scratch directory of one node. The directory's tree
-- is a list of entries under their paths (the root itself is not listed). Text is bytes, and a name
-- has no `.` or `..` component. A failing stream operation does nothing, as in the source; `none` is
-- an exception or undefined behaviour. `read_metadata` reads another directory and is not here.
pub mod Lookup
pub mod Write
pub mod Slice
pub mod Removal
pub mod Tests
use velox_dfs.Base.{
  ℕ, zero, suc, ◌+◌, ◌-◌, ◌%◌, ◌^◌, min, Bool, true, false, ◌&&◌, ◌||◌, List, [], ◌∷◌, ◌++◌, Option,
  none, some, Text, FilePath, path_eq, text_eq, take, drop, length, replicate, leb, ltb, ◌==◌,
  if◌then◌else◌, ◌>>=◌, not,
}

pub data Entry : Type 0 where
  dir : Entry
  file : Text → Entry

abbrev pub Disk : Type 0
Disk = List (FilePath × Entry)

unfoldable pub lookup : FilePath → Disk → Option Entry
lookup p [] = none
lookup p ((q, e) ∷ d) = if path_eq q p then some e else lookup p d

unfoldable pub erase : FilePath → Disk → Disk
erase p [] = []
erase p ((q, e) ∷ d) = if path_eq q p then erase p d else (q, e) ∷ erase p d

unfoldable pub put : FilePath → Entry → Disk → Disk
unfolding erase
put p e d = (p, e) ∷ erase p d

-- All but the last component.
abbrev pub parent : FilePath → FilePath
parent [] = []
parent (t ∷ []) = []
parent (t ∷ u ∷ p) = t ∷ parent (u ∷ p)

abbrev pub is_dir : FilePath → Disk → Bool
is_dir [] d = true
is_dir (t ∷ p) d = elim (lookup (t ∷ p) d) [ some dir ↦ true | _ ↦ false ]

-- `mkdir` of a path that `stat` did not find.
pub make_dir : FilePath → Disk → Disk
unfolding lookup put
make_dir p d = if is_dir (parent p) d then put p dir d else d

-- Open for writing with truncation, write all, close.
pub write_file : FilePath → Text → Disk → Disk
unfolding lookup put
write_file p v d = if is_dir (parent p) d && not (is_dir p d) then put p (file v) d else d

-- The components of a name: the loop that collects `path_tokens`, with the component read so far.
-- Empty components are skipped.
unfoldable pub tokens_from : Text → Text → List Text
tokens_from [] [] = []
tokens_from (a ∷ cur) [] = (a ∷ cur) ∷ []
tokens_from [] (c ∷ s) =
    let slash = tokens_from [] s in
    let other = tokens_from (c ∷ []) s in if c == b'/' then slash else other
tokens_from (a ∷ cur) (c ∷ s) =
    let slash = (a ∷ cur) ∷ tokens_from [] s in
    let other = tokens_from ((a ∷ cur) ++ (c ∷ [])) s in if c == b'/' then slash else other

unfoldable pub path_tokens : Text → List Text
unfolding tokens_from
path_tokens name = tokens_from [] name

abbrev pub last_token : List Text → Text
last_token [] = []
last_token (t ∷ []) = t
last_token (t ∷ u ∷ ts) = last_token (u ∷ ts)

-- The branch for a directory on the way: `stat`, and `mkdir` if there is nothing.
pub enter : FilePath → Disk → Disk
unfolding make_dir
enter p d = elim (lookup p d) [ none ↦ make_dir p d | some e ↦ d ]

-- The loop over the tokens: `last` is `path_tokens.back()`, `cur` is `curPath`. A token is compared
-- with the last one by its text.
pub write_tokens : Text → FilePath → List Text → Text → Disk → Disk
unfolding enter write_file
write_tokens last cur [] v d = d
write_tokens last cur (t ∷ ts) v d =
    write_tokens last (cur ++ (t ∷ [])) ts v
      (if text_eq t last then write_file (cur ++ (t ∷ [])) v d else enter (cur ++ (t ∷ [])) d)

-- `Local_io::write`.
pub write : Text → Text → Disk → Disk
unfolding write_tokens
write name v d = write_tokens (last_token (path_tokens name)) [] (path_tokens name) v d

-- A path that ends in a slash denotes no file.
unfoldable pub ends_in_slash : Text → Bool
ends_in_slash [] = false
ends_in_slash (c ∷ []) = c == b'/'
ends_in_slash (c ∷ b ∷ s) = ends_in_slash (b ∷ s)

abbrev pub denoted : Bool → Option Entry → Option Entry
denoted true (some (file v)) = none
denoted _ e = e

-- What the path `disk_path + "/" + name` denotes.
unfoldable pub entry_at : Text → Disk → Option Entry
unfolding lookup path_tokens ends_in_slash
entry_at name d = denoted (ends_in_slash name) (lookup (path_tokens name) d)

-- The content of the file that a name denotes.
unfoldable pub content_of : Text → Disk → Option Text
unfolding entry_at
content_of name d = elim (entry_at name d) [ some (file v) ↦ some v | _ ↦ none ]

-- n bytes from a text, with zeros where it is too short: what a read into a zeroed buffer leaves.
unfoldable pub padded : ℕ → Text → Text
padded zero s = []
padded (suc n) [] = 0 ∷ padded n []
padded (suc n) (c ∷ s) = c ∷ padded n s

-- `(uint64_t)in.tellg()`, which is -1 on a stream that did not open.
pub file_size : Option Text → ℕ
file_size none = 2 ^ 64 - 1
file_size (some v) = length v

pub bytes_of : Option Text → Text
bytes_of none = []
bytes_of (some v) = v

-- `Local_io::read` with four arguments. `file_size - off` is unsigned. A vector of 2^63 bytes or more
-- cannot be made (`none`).
pub read : Text → ℕ → ℕ → Bool → Disk → Option Text
unfolding content_of file_size bytes_of padded
read name off len is_whole d =
    let c = content_of name d in
    let len' = if is_whole then file_size c else len in
    let readable_len = min len' ((file_size c + 2 ^ 64 - off) % 2 ^ 64) in
    if ltb readable_len (2 ^ 63) then some (padded readable_len (drop off (bytes_of c))) else none

-- The bytes of a file after a write of `v` at `pos`; a gap is filled with zeros, and a write of nothing
-- makes none.
pub overwrite : Text → ℕ → Text → Text
unfolding padded
overwrite old pos [] = old
overwrite old pos (c ∷ v) = padded pos old ++ ((c ∷ v) ++ drop (pos + length (c ∷ v)) old)

-- The first `len` bytes behind `v.c_str()`, which ends in a zero byte.
pub c_str_bytes : Text → ℕ → Option Text
c_str_bytes v len = if ltb (length v + 1) len then none else some (take len (v ++ (0 ∷ [])))

-- `Local_io::update`. It does not make a file. `none`: `len` is more than the text holds.
pub update : Text → Text → ℕ → ℕ → Disk → Option Disk
unfolding content_of overwrite put c_str_bytes
update name v pos len d = elim (content_of name d) [
  | none ↦ some d
  | some old ↦
      c_str_bytes v len
      >>= (λ bytes. some (put (path_tokens name) (file (overwrite old pos bytes)) d))
]

-- Whether a file can be made at the path that a name denotes, where nothing is.
abbrev pub can_make : Text → Disk → Bool
can_make name d =
    not (ends_in_slash name)
    && not (is_dir (path_tokens name) d)
    && is_dir (parent (path_tokens name)) d

-- `Local_io::append`. A file that is not there is made. Where that fails, and on a directory, the process
-- exits (`none`).
pub append : Text → Text → ℕ → Disk → Option Disk
unfolding entry_at put c_str_bytes
append name v len d = do
  bytes ← c_str_bytes v len
  elim (entry_at name d) [
    | some (file old) ↦ some (put (path_tokens name) (file (old ++ bytes)) d)
    | some dir ↦ none
    | none ↦ if can_make name d then some (put (path_tokens name) (file bytes) d) else none
  ]

-- Whether a directory has an entry.
pub has_child : FilePath → Disk → Bool
has_child p [] = false
has_child p ((q, e) ∷ d) = (path_eq (parent q) p && not (path_eq q [])) || has_child p d

-- `Local_io::remove`: a file, or a directory that is empty.
pub remove : Text → Disk → Disk
unfolding entry_at erase has_child path_tokens
remove name d = elim (entry_at name d) [
  | none ↦ d
  | some dir ↦ if has_child (path_tokens name) d then d else erase (path_tokens name) d
  | some (file v) ↦ erase (path_tokens name) d
]

-- `Local_io::format` removes every entry below the scratch directory.
pub format : Disk → Disk
format d = []
