-- ===== src/Disk/Write.antt =====
-- `Local_io::write`: where the bytes go.
use velox_dfs.Base.{
  ◌<◌, ◌≤◌, ◌≡◌, ◌≢◌, ◌⊎◌, inl, inr, refl, ap, ◌∙◌, true, false, List, [], ◌∷◌, ◌++◌, none, some,
  Text, FilePath, path_eq, path_eq→eq, path_eq_refl, text_eq, text_eq_refl, length, length-append,
  arith, if◌then◌else◌, Bool-cases,
}
use mathlib.Core.List.{append_assoc}
use native.Mathlib.Nat.{le_refl}
use velox_dfs.Disk.{
  Disk, Entry, dir, file, lookup, put, parent, is_dir, make_dir, write_file, enter, write_tokens,
  write, path_tokens, last_token, content_of, entry_at, ends_in_slash,
}
use velox_dfs.Disk.Lookup.{lookup-put}

abbrev snoc : FilePath → Text → FilePath
snoc cur t = cur ++ (t ∷ [])

-- Every directory on the way is there or can be made, and the last component is no directory.
abbrev pub IsOpen : FilePath → List Text → Disk → Type 0
IsOpen cur [] d = ⊥
IsOpen cur (t ∷ []) d = lookup (snoc cur t) d ≢ some dir
IsOpen cur (t ∷ u ∷ ts) d =
    ((lookup (snoc cur t) d ≡ none) ⊎ (lookup (snoc cur t) d ≡ some dir))
    × IsOpen (snoc cur t) (u ∷ ts) d

-- The last component differs from all before it.
abbrev pub IsLastOnce : Text → List Text → Type 0
IsLastOnce last [] = Unit {0}
IsLastOnce last (t ∷ []) = t ≡ last
IsLastOnce last (t ∷ u ∷ ts) = (text_eq t last ≡ false) × IsLastOnce last (u ∷ ts)

parent-snoc : (cur : FilePath) (t : Text) → parent (snoc cur t) ≡ cur
parent-snoc [] t = refl
parent-snoc (c ∷ []) t = refl
parent-snoc (c ∷ c' ∷ cur) t = ap (◌∷◌ c) (parent-snoc (c' ∷ cur) t)

is_dir-lookup : (p : FilePath) (d : Disk) → lookup p d ≡ some dir → is_dir p d ≡ true
is_dir-lookup [] d e = refl
is_dir-lookup (t ∷ p) d e = rw (e, is_dir)

not-is_dir :
    (p : FilePath) (t : Text) (d : Disk)
    → lookup (snoc p t) d ≢ some dir
    → is_dir (snoc p t) d ≡ false
not-is_dir [] t d h = ground arith
not-is_dir (c ∷ p) t d h = ground arith

longer_ne : (p q : FilePath) → length p < length q → path_eq p q ≡ false
longer_ne p q h = elim (Bool-cases (path_eq p q)) [
  | inl e ↦ absurd (omega (arith, ap length (path_eq→eq p q e)))
  | inr e ↦ e
]

lookup-longer :
    (p cur : FilePath) (t : Text) (e : Entry) (d : Disk)
    → length p ≤ length cur
    → lookup (snoc cur t) (put p e d) ≡ lookup (snoc cur t) d
lookup-longer p cur t e d h =
    let longer = longer_ne p (snoc cur t) (omega (arith, length-append cur (t ∷ []))) in
    lookup-put p (snoc cur t) e d ∙ rw longer refl

make_dir_lem :
    (cur : FilePath) (t : Text) (d : Disk)
    → is_dir cur d ≡ true
    → make_dir (snoc cur t) d ≡ put (snoc cur t) dir d
unfolding make_dir
make_dir_lem cur t d h =
    let up : is_dir (parent (snoc cur t)) d ≡ true = rw (parent-snoc cur t) h in rw up refl

write_file_lem :
    (cur : FilePath) (t v : Text) (d : Disk)
    → is_dir cur d ≡ true
    → lookup (snoc cur t) d ≢ some dir
    → write_file (snoc cur t) v d ≡ put (snoc cur t) (file v) d
unfolding write_file
write_file_lem cur t v d h n =
    let up : is_dir (parent (snoc cur t)) d ≡ true = rw (parent-snoc cur t) h in
    let down = not-is_dir cur t d n in rw (up, down) refl

-- A change at a path leaves the way below it open.
IsOpen-put :
    (p cur : FilePath) (e : Entry) (ts : List Text) (d : Disk)
    → length p ≤ length cur
    → IsOpen cur ts d
    → IsOpen cur ts (put p e d)
IsOpen-put p cur e [] d h o = o
IsOpen-put p cur e (t ∷ []) d h o = rw (lookup-longer p cur t e d h) o
IsOpen-put p cur e (t ∷ u ∷ ts) d h o = (
  rw (lookup-longer p cur t e d h) o.0,
  IsOpen-put p (snoc cur t) e (u ∷ ts) d (omega (arith, length-append cur (t ∷ []))) o.1,
)

-- A directory on the way: it is there afterwards, the rest of the way stays open, and no entry
-- changes.
enter_lem :
    (cur : FilePath) (t : Text) (ts : List Text) (d : Disk)
    → is_dir cur d ≡ true
    → (lookup (snoc cur t) d ≡ none) ⊎ (lookup (snoc cur t) d ≡ some dir)
    → IsOpen (snoc cur t) ts d
    → (lookup (snoc cur t) (enter (snoc cur t) d) ≡ some dir)
      × IsOpen (snoc cur t) ts (enter (snoc cur t) d)
      × ((q : FilePath) (e : Entry)
          → lookup q d ≡ some e
          → lookup q (enter (snoc cur t) d) ≡ some e)
unfolding enter
enter_lem cur t ts d here (inr there) o = rw (there, enter) (there, o, λ q e h. h)
enter_lem cur t ts d here (inl absent) o =
    let made : make_dir (snoc cur t) d ≡ put (snoc cur t) dir d = make_dir_lem cur t d here in
    let self = path_eq_refl (snoc cur t) in
    rw (absent, enter, made)
      (
        lookup-put (snoc cur t) (snoc cur t) dir d ∙ rw self refl,
        IsOpen-put (snoc cur t) (snoc cur t) dir ts d (le_refl _) o,
        λ q e h. lookup-put (snoc cur t) q dir d ∙ kept q e h,
      )
  where
    kept :
        (q : FilePath) (e : Entry)
        → lookup q d ≡ some e
        → (if path_eq (snoc cur t) q then some dir else lookup q d) ≡ some e
    kept q e h = elim (Bool-cases (path_eq (snoc cur t) q)) [
      | inl same ↦ absurd (cc (path_eq→eq (snoc cur t) q same))
      | inr other ↦ rw other h
    ]

-- The loop writes the bytes at the last component, and changes no other entry.
write_tokens_lem :
    (last : Text) (cur : FilePath) (ts : List Text) (v : Text) (d : Disk)
    → IsLastOnce last ts
    → is_dir cur d ≡ true
    → IsOpen cur ts d
    → (lookup (cur ++ ts) (write_tokens last cur ts v d) ≡ some (file v))
      × ((q : FilePath) (e : Entry)
          → lookup q d ≡ some e
          → path_eq (cur ++ ts) q ≡ false
          → lookup q (write_tokens last cur ts v d) ≡ some e)
unfolding write_tokens
write_tokens_lem last cur [] v d l here o = absurd o
write_tokens_lem last cur (t ∷ []) v d l here o =
    let it_is : text_eq t last ≡ true = rw l (text_eq_refl last) in
    let p = snoc cur t in
    let wrote : write_file p v d ≡ put p (file v) d = write_file_lem cur t v d here o in
    rw (it_is, wrote)
      (
        lookup-put p p (file v) d ∙ rw (path_eq_refl p) refl,
        λ q e h other. lookup-put p q (file v) d ∙ rw other h,
      )
write_tokens_lem last cur (t ∷ u ∷ ts) v d l here o =
    let p = snoc cur t in
    let (made, way, keep) = enter_lem cur t (u ∷ ts) d here o.0 o.1 in
    let (found, frame) =
      write_tokens_lem last p (u ∷ ts) v (enter p d) l.1 (is_dir-lookup p (enter p d) made) way in
    let joined : p ++ (u ∷ ts) ≡ cur ++ (t ∷ u ∷ ts) = append_assoc cur (t ∷ []) (u ∷ ts) in
    rw (l.0, ← joined) (found, λ q e h other. frame q e (keep q e h) other)

pub content_of-file :
    (name v : Text) (d : Disk)
    → ends_in_slash name ≡ false
    → lookup (path_tokens name) d ≡ some (file v)
    → content_of name d ≡ some v
unfolding content_of entry_at
content_of-file name v d bare found = rw (bare, content_of, entry_at, found) refl

pub content_of-absent :
    (name : Text) (d : Disk) → lookup (path_tokens name) d ≡ none → content_of name d ≡ none
unfolding content_of entry_at
content_of-absent name d missing = elim (Bool-cases (ends_in_slash name)) [
  | inl slash ↦ rw (slash, content_of, entry_at, missing) refl
  | inr bare ↦ rw (bare, content_of, entry_at, missing) refl
]

-- A name that denotes a file which can be written, and whose last component is not also an earlier
-- one.
pub record IsWritable (name : Text) (d : Disk) : Type 0 where
  pub last_once : IsLastOnce (last_token (path_tokens name)) (path_tokens name)
  pub open_way : IsOpen [] (path_tokens name) d

-- A name that can be written, and that does not end in a slash: a file under it is found again.
pub record IsStorable (name : Text) (d : Disk) : Type 0 where
  pub writable : IsWritable name d
  pub bare : ends_in_slash name ≡ false

-- After a write to a name that can be written the file at the path of its components holds exactly the
-- bytes written, and every entry that was there before, at another path, is still there.
pub write_lem :
    (name v : Text) (d : Disk)
    → IsWritable name d
    → (lookup (path_tokens name) (write name v d) ≡ some (file v))
      × ((q : FilePath) (e : Entry)
          → lookup q d ≡ some e
          → path_eq (path_tokens name) q ≡ false
          → lookup q (write name v d) ≡ some e)
unfolding write
write_lem name v d w =
    write_tokens_lem (last_token (path_tokens name)) [] (path_tokens name) v d w.last_once refl
      w.open_way

-- The file is found under a name that does not end in a slash.
pub write-content_of :
    (name v : Text) (d : Disk) → IsStorable name d → content_of name (write name v d) ≡ some v
write-content_of name v d w =
    content_of-file name v (write name v d) w.bare (write_lem name v d w.writable).0

abbrev only_file : Text → Text → Disk
only_file t v = (t ∷ [], file v) ∷ []

no_dir : (t v : Text) (p : FilePath) → is_dir (t ∷ p) (only_file t v) ≡ false
unfolding lookup
no_dir t v [] = rw (is_dir, text_eq_refl t) refl
no_dir t v (u ∷ p) = rw (is_dir, text_eq_refl t) refl

missing_below : (t v u : Text) (p : FilePath) → lookup (t ∷ (p ++ (u ∷ []))) (only_file t v) ≡ none
unfolding lookup
missing_below t v u [] = rw (text_eq_refl t) refl
missing_below t v u (c ∷ p) = rw (text_eq_refl t) refl

enter-absent : (p : FilePath) (d : Disk) → lookup p d ≡ none → enter p d ≡ make_dir p d
unfolding enter
enter-absent p d missing = rw (missing, enter) refl

make_dir_below :
    (t v u : Text) (cur : FilePath) → make_dir (snoc (t ∷ cur) u) (only_file t v) ≡ only_file t v
unfolding make_dir
make_dir_below t v u cur = rw (parent-snoc (t ∷ cur) u, no_dir t v cur) refl

enter_below :
    (t v u : Text) (cur : FilePath) → enter (snoc (t ∷ cur) u) (only_file t v) ≡ only_file t v
enter_below t v u cur =
    enter-absent (snoc (t ∷ cur) u) (only_file t v) (missing_below t v u cur)
    ∙ make_dir_below t v u cur

write_below :
    (t v u : Text) (cur : FilePath)
    → write_file (snoc (t ∷ cur) u) v (only_file t v) ≡ only_file t v
unfolding write_file
write_below t v u cur = rw (parent-snoc (t ∷ cur) u, no_dir t v cur) refl

-- Below a file the loop does nothing.
below_file :
    (last t v : Text) (cur : FilePath) (ts : List Text)
    → write_tokens last (t ∷ cur) ts v (only_file t v) ≡ only_file t v
unfolding write_tokens
below_file last t v cur [] = refl
below_file last t v cur (u ∷ ts) =
    let written = write_below t v u cur in
    let entered = enter_below t v u cur in
    let rest = below_file last t v (snoc cur u) ts in
    elim (Bool-cases (text_eq u last)) [
      | inl same ↦ rw (same, written) rest
      | inr other ↦ rw (other, entered) rest
    ]

first_write : (t v : Text) → write_file (t ∷ []) v [] ≡ only_file t v
unfolding write_file
first_write t v = refl

write_tokens_repeated :
    (t v u : Text) (ts : List Text) → write_tokens t [] (t ∷ u ∷ ts) v [] ≡ only_file t v
unfolding write_tokens
write_tokens_repeated t v u ts = rw (text_eq_refl t, first_write t v) (below_file t t v [] (u ∷ ts))

missing_longer : (t v u : Text) (ts : List Text) → lookup (t ∷ u ∷ ts) (only_file t v) ≡ none
unfolding lookup
missing_longer t v u ts = rw (text_eq_refl t) refl

-- The bug: on an empty disk, a name of two components or more whose first and last are the same text.
-- The bytes go to a file at the first component, nothing else is made, and the name denotes no file.
pub write_repeated :
    (name v t u : Text) (ts : List Text)
    → path_tokens name ≡ t ∷ u ∷ ts
    → last_token (u ∷ ts) ≡ t
    → (write name v [] ≡ (t ∷ [], file v) ∷ []) × (content_of name (write name v []) ≡ none)
unfolding write
write_repeated name v t u ts e l =
    let stored : write name v [] ≡ only_file t v =
      rw e (ap (λ x. write_tokens x [] (t ∷ u ∷ ts) v []) l ∙ write_tokens_repeated t v u ts) in
    (stored, content_of-absent name (write name v []) (rw (stored, e) (missing_longer t v u ts)))
