-- ===== src/Disk/Slice.antt =====
-- `Local_io::read` and `Local_io::update`: which bytes are read, and which change.
use velox_dfs.Base.{
  ℕ, zero, suc, ◌+◌, ◌-◌, ◌<◌, ◌≤◌, ◌^◌, ◌%◌, min, ◌≡◌, refl, ap, sym, ◌∙◌, true, false, [], ◌∷◌,
  ◌++◌, drop_all, take_all, some, Text, length, take, drop, replicate, length-drop, drop-append,
  drop-drop, take-append_le, arith, ltb, lt→ltb, ◌>>=◌, path_eq_refl, Bool-cases, Option-cases, inl,
  inr, none,
}
use velox_dfs.Disk.{
  Disk, file, put, lookup, content_of, entry_at, ends_in_slash, dir, path_tokens, padded, file_size,
  bytes_of, read, write, overwrite, update, c_str_bytes,
}
use velox_dfs.Disk.Lookup.{lookup-put}
use velox_dfs.Disk.Write.{IsStorable, write-content_of, content_of-file}

padded-take : (n : ℕ) (s : Text) → n ≤ length s → padded n s ≡ take n s
unfolding padded
padded-take zero s h = refl
padded-take (suc n) [] h = absurd (omega arith)
padded-take (suc n) (c ∷ s) h = ap (◌∷◌ c) (padded-take n s (omega arith))

padded-nil : (n : ℕ) → padded n [] ≡ replicate n 0
unfolding padded
padded-nil zero = refl
padded-nil (suc n) = ap (◌∷◌ 0) (padded-nil n)

length-padded : (n : ℕ) (s : Text) → length (padded n s) ≡ n
unfolding padded
length-padded zero s = refl
length-padded (suc n) [] = ap suc (length-padded n [])
length-padded (suc n) (c ∷ s) = ap suc (length-padded n s)

-- A read, when the amount that it computes is n.
read_amount :
    (name v : Text) (off len n : ℕ) (d : Disk)
    → content_of name d ≡ some v
    → min len ((length v + 2 ^ 64 - off) % 2 ^ 64) ≡ n
    → n < 2 ^ 63
    → read name off len false d ≡ some (padded n (drop off v))
unfolding read file_size bytes_of
read_amount name v off len n d found amount fits =
    let small : ltb n (2 ^ 63) ≡ true = lt→ltb n (2 ^ 63) fits in rw (found, amount, small) refl

in_range_amount :
    (size off len : ℕ)
    → off + len ≤ size
    → size < 2 ^ 63
    → min len ((size + 2 ^ 64 - off) % 2 ^ 64) ≡ len
in_range_amount size off len h fits = omega arith

past_end_amount :
    (size off len : ℕ)
    → size < off
    → off < 2 ^ 63
    → len ≤ 2 ^ 63
    → min len ((size + 2 ^ 64 - off) % 2 ^ 64) ≡ len
past_end_amount size off len h fits l = omega arith

-- A read within a file of less than 2^63 bytes returns exactly the bytes asked for.
pub read_within :
    (name v : Text) (off len : ℕ) (d : Disk)
    → content_of name d ≡ some v
    → off + len ≤ length v
    → length v < 2 ^ 63
    → read name off len false d ≡ some (take len (drop off v))
read_within name v off len d found inside fits =
    read_amount name v off len len d found (in_range_amount (length v) off len inside fits)
      (omega arith)
    ∙ ap some (padded-take len (drop off v) (omega (arith, length-drop off v)))

-- A read that starts past the end of the file, with an offset and a length below 2^63, returns as many
-- zeros as were asked for: the remaining size is computed unsigned and wraps around.
pub read_past :
    (name v : Text) (off len : ℕ) (d : Disk)
    → content_of name d ≡ some v
    → length v < off
    → off < 2 ^ 63
    → len < 2 ^ 63
    → read name off len false d ≡ some (replicate len 0)
read_past name v off len d found past fits l =
    let nothing : drop off v ≡ [] = drop_all off v (omega arith) in
    read_amount name v off len len d found
      (past_end_amount (length v) off len past fits (omega arith)) l
    ∙ rw nothing (ap some (padded-nil len))

pub read_all :
    (name v : Text) (len : ℕ) (d : Disk)
    → content_of name d ≡ some v
    → length v < 2 ^ 63
    → read name 0 len true d ≡ some v
unfolding read file_size bytes_of
read_all name v len d found fits =
    let amount : min (length v) ((length v + 2 ^ 64 - 0) % 2 ^ 64) ≡ length v = omega arith in
    let small = lt→ltb (length v) (2 ^ 63) fits in
    rw (found, amount, small) (ap some (padded-take (length v) v (omega arith) ∙ take_all v))

-- A block of less than 2^63 bytes that is written to a name that can be written and does not end in a
-- slash, and then read as a whole, comes back unchanged.
pub read-write :
    (name v : Text) (len : ℕ) (d : Disk)
    → IsStorable name d
    → length v < 2 ^ 63
    → read name 0 len true (write name v d) ≡ some v
read-write name v len d w fits =
    read_all name v len (write name v d) (write-content_of name v d w) fits

take-append_exact : (n : ℕ) (xs ys : Text) → n ≡ length xs → take n (xs ++ ys) ≡ xs
take-append_exact n xs ys h =
    take-append_le n xs ys (omega arith) ∙ ap (λ m. take m xs) h ∙ take_all xs

-- The bytes after an overwrite inside the old ones or at their end.
overwrite_lem :
    (old : Text) (pos : ℕ) (v : Text)
    → pos ≤ length old
    → (take pos (overwrite old pos v) ≡ take pos old)
      × (take (length v) (drop pos (overwrite old pos v)) ≡ v)
      × (drop (pos + length v) (overwrite old pos v) ≡ drop (pos + length v) old)
unfolding overwrite
overwrite_lem old pos [] h = (refl, refl, refl)
overwrite_lem old pos (c ∷ v) h =
    let new = c ∷ v in
    let rest = drop (pos + length new) old in
    let head = padded pos old in
    let long : pos ≡ length head = sym (length-padded pos old) in
    let after : drop pos (head ++ (new ++ rest)) ≡ new ++ rest =
      drop-append head (new ++ rest) pos long in
    (
      take-append_exact pos head (new ++ rest) long ∙ padded-take pos old h,
      ap (take (length new)) after ∙ take-append_exact (length new) new rest refl,
      sym (drop-drop (length new) pos (head ++ (new ++ rest)))
          ∙ ap (drop (length new)) after
          ∙ drop-append new rest (length new) refl,
    )

c_str_bytes_all : (v : Text) → c_str_bytes v (length v) ≡ some v
unfolding c_str_bytes
c_str_bytes_all v =
    let small : ltb (length v + 1) (length v) ≡ false = ground arith in
    rw small (ap some (take-append_exact (length v) v (0 ∷ []) refl))

-- A name with a file does not end in a slash.
content_of-bare :
    (name v : Text) (d : Disk) → content_of name d ≡ some v → ends_in_slash name ≡ false
unfolding content_of entry_at
content_of-bare name v d found = elim (Bool-cases (ends_in_slash name)) [
  | inr bare ↦ bare
  | inl slash ↦ elim (Option-cases (lookup (path_tokens name) d)) [
    | inl e ↦
        let nothing : content_of name d ≡ none = rw (content_of, entry_at, slash, e) refl in
        absurd (cc)
    | inr (dir, e) ↦
        let nothing : content_of name d ≡ none = rw (content_of, entry_at, slash, e) refl in
        absurd (cc)
    | inr (file w, e) ↦
        let nothing : content_of name d ≡ none = rw (content_of, entry_at, slash, e) refl in
        absurd (cc)
  ]
]

update_found :
    (name old v : Text) (pos : ℕ) (d : Disk)
    → content_of name d ≡ some old
    → update name v pos (length v) d ≡ some (put (path_tokens name) (file (overwrite old pos v)) d)
unfolding update put
update_found name old v pos d found = rw (update, found, c_str_bytes_all v, ◌>>=◌) refl

content_of-put :
    (name old v : Text) (d : Disk)
    → content_of name d ≡ some old
    → content_of name (put (path_tokens name) (file v) d) ≡ some v
content_of-put name old v d found =
    content_of-file name v (put (path_tokens name) (file v) d) (content_of-bare name old d found) (
      lookup-put (path_tokens name) (path_tokens name) (file v) d
      ∙ rw (path_eq_refl (path_tokens name)) refl)

-- An update inside a file, or at its end, gives a disk where the file differs in exactly the updated
-- range: what is before and after it is as it was, and the range holds the new bytes.
pub update_lem :
    (name old v : Text) (pos : ℕ) (d : Disk)
    → content_of name d ≡ some old
    → pos ≤ length old
    → (d' : Disk) × (new : Text) × (update name v pos (length v) d ≡ some d')
      × (content_of name d' ≡ some new)
      × (take pos new ≡ take pos old)
      × (take (length v) (drop pos new) ≡ v)
      × (drop (pos + length v) new ≡ drop (pos + length v) old)
update_lem name old v pos d found h =
    let new = overwrite old pos v in
    let (before, written, after) = overwrite_lem old pos v h in
    (
      put (path_tokens name) (file new) d,
      new,
      update_found name old v pos d found,
      content_of-put name old new d found,
      before,
      written,
      after,
    )
