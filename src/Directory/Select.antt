-- ===== src/Directory/Select.antt =====
-- What the statements on the tables find after a change.
use velox_dfs.Base.{
  Bool, true, false, not, ◌≡◌, refl, ap, sym, ◌∙◌, List, [], ◌∷◌, ◌++◌, map, none, Text, text_eq,
  text_eq_refl, text_eq→eq, Bool-cases, Option-cases, inl, inr, arith, if◌then◌else◌, ◌==◌,
}
use velox_dfs.Messages.{FileInfo, BlockMetadata, ChunkMetadata}
use velox_dfs.Directory.{
  Tables, filter, named, file_table_insert, file_table_delete, file_table_exists, update_rows,
  block_table_insert, block_table_insert_all, chunk_table_insert, chunk_table_insert_all,
  select_last_block_metadata, block_callback, last_block,
}

module _ {ℓ} {A : Type ℓ} where
  -- Rows that a deletion leaves out are not found.
  pub filter-filter_none :
      (p q : A → Bool) (xs : List A)
      → ((x : A) → q x ≡ true → p x ≡ false)
      → filter p (filter q xs) ≡ []
  filter-filter_none p q [] h = refl
  filter-filter_none p q (x ∷ xs) h = elim (Bool-cases (q x)) [
    | inl kept ↦ rw (kept, h x kept) (filter-filter_none p q xs h)
    | inr gone ↦ rw gone (filter-filter_none p q xs h)
  ]

  -- Rows that it keeps are found as before.
  pub filter-filter_same :
      (p q : A → Bool) (xs : List A)
      → ((x : A) → p x ≡ true → q x ≡ true)
      → filter p (filter q xs) ≡ filter p xs
  filter-filter_same p q [] h = refl
  filter-filter_same p q (x ∷ xs) h = elim (Bool-cases (p x)) [
    | inl found ↦
        let kept = h x found in rw (kept, found) (ap (◌∷◌ x) (filter-filter_same p q xs h))
    | inr other ↦ elim (Bool-cases (q x)) [
      | inl kept ↦ rw (kept, other) (filter-filter_same p q xs h)
      | inr gone ↦ rw (gone, other) (filter-filter_same p q xs h)
    ]
  ]

  -- What is not found is not found among fewer rows.
  pub filter-filter_empty :
      (p q : A → Bool) (xs : List A) → filter p xs ≡ [] → filter p (filter q xs) ≡ []
  filter-filter_empty p q [] h = refl
  filter-filter_empty p q (x ∷ xs) h = elim (Bool-cases (p x)) [
    | inl found ↦ let e : filter p (x ∷ xs) ≡ x ∷ filter p xs = rw found refl in absurd (cc)
    | inr other ↦
        let e : filter p (x ∷ xs) ≡ filter p xs = rw other refl in
        let rest : filter p xs ≡ [] = sym e ∙ h in
        elim (Bool-cases (q x)) [
          | inl kept ↦ rw (kept, other) (filter-filter_empty p q xs rest)
          | inr gone ↦ rw gone (filter-filter_empty p q xs rest)
        ]
  ]

  pub filter-append :
      (p : A → Bool) (xs ys : List A) → filter p (xs ++ ys) ≡ filter p xs ++ filter p ys
  filter-append p [] ys = refl
  filter-append p (x ∷ xs) ys = elim (Bool-cases (p x)) [
    | inl found ↦ rw found (ap (◌∷◌ x) (filter-append p xs ys))
    | inr other ↦ rw other (filter-append p xs ys)
  ]

  pub filter-map :
      (p : A → Bool) (f : A → A) (xs : List A)
      → ((x : A) → p (f x) ≡ p x)
      → filter p (map f xs) ≡ map f (filter p xs)
  filter-map p f [] h = refl
  filter-map p f (x ∷ xs) h = elim (Bool-cases (p x)) [
    | inl found ↦ let same = h x ∙ found in rw (found, same) (ap (◌∷◌ (f x)) (filter-map p f xs h))
    | inr other ↦ let same = h x ∙ other in rw (other, same) (filter-map p f xs h)
  ]

pub block_table_insert_all-file_table :
    (blocks : List BlockMetadata) (t : Tables)
    → (block_table_insert_all blocks t).file_table ≡ t.file_table
unfolding block_table_insert_all block_table_insert
block_table_insert_all-file_table [] t = refl
block_table_insert_all-file_table (b ∷ blocks) t =
    block_table_insert_all-file_table blocks (block_table_insert b t)

pub chunk_table_insert_all-file_table :
    (chunks : List ChunkMetadata) (name : Text) (t : Tables)
    → (chunk_table_insert_all chunks name t).file_table ≡ t.file_table
unfolding chunk_table_insert_all chunk_table_insert
chunk_table_insert_all-file_table [] name t = refl
chunk_table_insert_all-file_table (c ∷ chunks) name t =
    chunk_table_insert_all-file_table chunks name (chunk_table_insert c name t)

-- Of the rows under a name a deletion under that name leaves none, and keeps those of any other.
pub gone :
    (name : Text) (row : FileInfo)
    → not (text_eq row.name name) ≡ true
    → text_eq row.name name ≡ false
gone name row h = ground arith

pub exists-delete :
    (name : Text) (t : Tables) → file_table_exists name (file_table_delete name t) ≡ false
unfolding file_table_exists file_table_delete
exists-delete name t =
    let none_left =
      filter-filter_none (named name) (λ row. not (text_eq row.name name)) t.file_table
        (gone name) in
    rw (none_left, file_table_exists) refl

kept_other :
    (name other : Text) (row : FileInfo)
    → text_eq other name ≡ false
    → text_eq row.name other ≡ true
    → not (text_eq row.name name) ≡ true
kept_other name other row apart found =
    let same : row.name ≡ other = text_eq→eq row.name other found in rw (same, apart) refl

pub exists-same :
    (name : Text) (s t : Tables)
    → filter (named name) s.file_table ≡ filter (named name) t.file_table
    → file_table_exists name s ≡ file_table_exists name t
unfolding file_table_exists
exists-same name s t e = rw (e, file_table_exists) refl

pub exists-delete_other :
    (name other : Text) (t : Tables)
    → text_eq other name ≡ false
    → file_table_exists other (file_table_delete name t) ≡ file_table_exists other t
unfolding file_table_delete
exists-delete_other name other t apart = exists-same other (file_table_delete name t) t (
    filter-filter_same (named other) (λ row. not (text_eq row.name name)) t.file_table
      (λ row. kept_other name other row apart))

-- A new name is found after its insertion, as the row inserted.
pub rows-insert :
    (info : FileInfo) (t : Tables)
    → filter (named info.name) t.file_table ≡ []
    → filter (named info.name) (file_table_insert info t).file_table ≡ info ∷ []
unfolding file_table_insert
rows-insert info t new =
    let last : filter (named info.name) (info ∷ []) ≡ info ∷ [] =
      rw (text_eq_refl info.name) refl in
    let inserted : file_table_insert info t
        ≡ record t { file_table = t.file_table ++ (info ∷ []) } =
      rw (new, file_table_insert) refl in
    ap (λ x. filter (named info.name) (Tables.file_table x)) inserted
    ∙ filter-append (named info.name) t.file_table (info ∷ [])
    ∙ rw (new, last) refl

pub exists-rows :
    (name : Text) (row : FileInfo) (t : Tables)
    → filter (named name) t.file_table ≡ row ∷ []
    → file_table_exists name t ≡ (row.uploading == 0)
unfolding file_table_exists
exists-rows name row t e = rw (e, file_table_exists) refl

pub exists-no_rows :
    (name : Text) (t : Tables)
    → filter (named name) t.file_table ≡ []
    → file_table_exists name t ≡ false
unfolding file_table_exists
exists-no_rows name t e = rw (e, file_table_exists) refl

-- A change of the rows under a name that keeps their names changes what is found under it.
pub rows-update :
    (name : Text) (change : FileInfo → FileInfo) (t : Tables) (row : FileInfo)
    → ((r : FileInfo) → (change r).name ≡ r.name)
    → filter (named name) t.file_table ≡ row ∷ []
    → text_eq row.name name ≡ true
    → filter (named name) (update_rows name change t).file_table ≡ change row ∷ []
rows-update name change t row same e found =
    filter-map (named name) marked t.file_table (λ r. ap (λ x. text_eq x name) (keeps r))
    ∙ ap (map marked) e
    ∙ rw found refl
  where
    marked : FileInfo → FileInfo
    marked r = if text_eq r.name name then change r else r

    keeps : (r : FileInfo) → (marked r).name ≡ r.name
    keeps r = elim (Bool-cases (text_eq r.name name)) [
      | inl hit ↦ rw hit (same r)
      | inr miss ↦ rw miss refl
    ]

-- The selection of the last block sets no chunks.
pub select_last-chunks :
    (name : Text) (block : BlockMetadata) (t : Tables)
    → (select_last_block_metadata name block t).chunks ≡ block.chunks
unfolding select_last_block_metadata block_callback
select_last-chunks name block t =
    let best = last_block none (filter (λ row. text_eq row.file_name name) t.block_table) in
    elim (Option-cases best) [
      | inl e ↦ rw (e, select_last_block_metadata) refl
      | inr (row, e) ↦ rw (e, select_last_block_metadata) refl
    ]
