-- ===== src/FileLeader/Server/Totality.antt =====
-- A request always gets an answer.
use velox_dfs.Base.{
  ◌∙◌, ℕ, suc, ◌+◌, ◌<◌, ◌≤◌, Bool, true, false, ◌&&◌, ◌≡◌, refl, List, [], ◌∷◌, Option, some, Text,
  text_eq, Bool-cases, Option-cases, inl, inr, arith, length, length-map, if◌then◌else◌, ◌==◌,
  ◌>>=◌, All,
}
use velox_dfs.Messages.{BlockMetadata, ChunkMetadata, FileDescription, FileRequest}
use velox_dfs.Histogram.{Histogram}
use velox_dfs.Directory.{
  Tables, filter, file_table_select, chunk_table_select, block_table_select, empty_file_info,
}
use velox_dfs.FileLeader.{Row, Pick, find_start, rounds, describe}
use velox_dfs.FileLeader.Ending.{AllShort, rounds-total}
use velox_dfs.FileLeader.Server.{
  Site, Leader, file_request, request_table, finish_request, find_arrangement, rows_of,
  described_file, erase_arrangement, empty_description,
}
use velox_dfs.FileLeader.Server.Lifecycle.{request-no_arrangement}

abbrev pub Returns {ℓ} : {A : Type ℓ} → Option A → Type ℓ
Returns {A = A} o = (a : A) × (o ≡ some a)

if-Returns {ℓ} :
    {A : Type ℓ} (b : Bool) (x y : Option A) → Returns x → Returns y → Returns (if b then x else y)
if-Returns true x y p q = p
if-Returns false x y p q = q

>>=-Returns {ℓ κ} :
    {A : Type ℓ} {B : Type κ} (x : Option A) (f : A → Option B)
    → Returns x
    → ((a : A) → Returns (f a))
    → Returns (x >>= f)
>>=-Returns x f (a, e) h = let (b, p) = h a in (b, rw (e, ◌>>=◌) p)

-- Every primary file has a first chunk.
abbrev pub AllStarted : List Row → Type 0
AllStarted = All λ row. 0 < length row.1

pub find_start-total :
    (hist : Histogram) (rows left : List Row) (start : ℕ)
    → AllStarted left
    → (s : ℕ) × (find_start hist rows left start ≡ some s)
unfolding find_start
find_start-total hist rows [] start h = (start, refl)
find_start-total hist rows ((block, []) ∷ left) start h = absurd (omega (arith, h.0))
find_start-total hist rows ((block, c ∷ cs) ∷ left) start h = find_start-total hist rows left _ h.1

rounds_any :
    (rows : List Row) (start top : ℕ)
    → AllShort top rows
    → (out : List Pick) × (rounds (top + 2) rows start 0 0 ≡ some out)
unfolding rounds
rounds_any [] start top h = let fuel : top + 2 ≡ suc (top + 1) = omega arith in ([], rw fuel refl)
rounds_any (row ∷ rows) start top h = rounds-total (row ∷ rows) start top (omega arith) h

describe-total :
    (top : ℕ) (hist : Histogram) (rows : List Row) (fd : FileDescription)
    → AllStarted rows
    → AllShort top rows
    → Returns (describe (top + 2) hist rows fd)
unfolding describe
describe-total top hist rows fd started short =
    >>=-Returns (find_start hist rows rows 0) _ (find_start-total hist rows rows 0 started)
      (λ start.
        if-Returns (fd.num_block == 0) _ _ (_, refl)
          (>>=-Returns (rounds (top + 2) rows start 0 0) _ (rounds_any rows start top short)
            (λ picks. (_, refl))))

length-filter {ℓ} : {A : Type ℓ} (p : A → Bool) (xs : List A) → length (filter p xs) ≤ length xs
length-filter p [] = omega arith
length-filter p (x ∷ xs) = elim (Bool-cases (p x)) [
  | inl found ↦ rw found (omega (arith, length-filter p xs))
  | inr other ↦ rw other (omega (arith, length-filter p xs))
]

length-chunk_table_select :
    (name : Text) (t : Tables) → length (chunk_table_select name t) ≤ length t.chunk_table
unfolding chunk_table_select
length-chunk_table_select name t =
    let found = filter (λ row. text_eq (row.1).primary_file name) t.chunk_table in
    omega (
      arith,
      length-map (λ (row : Text × ChunkMetadata). row.1) found,
      length-filter (λ (row : Text × ChunkMetadata). text_eq (row.1).primary_file name)
          t.chunk_table,
    )

rows_of-AllShort :
    (blocks : List BlockMetadata) (t : Tables) → AllShort (length t.chunk_table) (rows_of blocks t)
rows_of-AllShort [] t = tt
rows_of-AllShort (b ∷ blocks) t = (length-chunk_table_select b.name t, rows_of-AllShort blocks t)

-- What `finish_request` does, written out: the scheduler is called only on an input file, for a request
-- that asks for a new arrangement, and its result is kept.
abbrev pub arranged_answer :
    Site → FileRequest → FileDescription → Leader → Option (FileDescription × Leader)
arranged_answer site m fd l =
    if fd.is_input && m.generate
    then (site.arrange fd >>= (λ arranged. some (
      arranged,
      record l { arrangements = (m.name, arranged) ∷ erase_arrangement m.name l.arrangements },
    )))
    else some (fd, l)

request_table-total :
    (site : Site) (m : FileRequest) (l : Leader)
    → AllStarted (rows_of (block_table_select m.name l.tables) l.tables)
    → (fd : FileDescription) × (request_table site m l ≡ arranged_answer site m fd l)
unfolding request_table finish_request
request_table-total site m l started =
    let blocks = block_table_select m.name l.tables in
    let fi = file_table_select m.name empty_file_info l.tables in
    let (fd, described) =
      describe-total (length l.tables.chunk_table) site.boundaries (rows_of blocks l.tables)
        (described_file m.name fi) started (rows_of-AllShort blocks l.tables) in
    elim (Bool-cases (fi.uploading == 1)) [
      | inl uploading ↦ (
        record empty_description {
          info = record empty_file_info { name = m.name; uploading = fi.uploading };
        },
        rw (request_table, uploading) refl,
      )
      | inr finished ↦ (fd, rw (request_table, finished, described, ◌>>=◌) refl)
    ]

kept_request :
    (site : Site) (m : FileRequest) (fd : FileDescription) (l : Leader)
    → find_arrangement m.name l.arrangements ≡ some fd
    → file_request site m l ≡ (if m.generate then request_table site m l else some (fd, l))
unfolding file_request
kept_request site m fd l kept = rw (kept, file_request) refl

if-true {ℓ} : {A : Type ℓ} (b : Bool) (x y : A) → b ≡ true → (if b then x else y) ≡ x
if-true b x y e = rw e refl

if-false {ℓ} : {A : Type ℓ} (b : Bool) (x y : A) → b ≡ false → (if b then x else y) ≡ y
if-false b x y e = rw e refl

old_answer :
    (site : Site) (m : FileRequest) (fd : FileDescription) (l : Leader)
    → m.generate ≡ false
    → some (fd, l) ≡ arranged_answer site m fd l
old_answer site m fd l old =
    let off : (fd.is_input && m.generate) ≡ false = ground (arith, old) in rw off refl

-- If every primary file of the file has a first chunk, the loop of a request ends: its fuel, two more rounds
-- than the table has chunks, is enough. There is a description that is the answer, with the state as it
-- was, unless the file is an input file and the request asks for a new arrangement: then the answer is
-- what the scheduler makes of that description, which is kept.
pub file_request-total :
    (site : Site) (m : FileRequest) (l : Leader)
    → AllStarted (rows_of (block_table_select m.name l.tables) l.tables)
    → (fd : FileDescription) × (file_request site m l ≡ arranged_answer site m fd l)
file_request-total site m l started =
    let table = request_table-total site m l started in
    elim (Option-cases (find_arrangement m.name l.arrangements)) [
      | inl none_kept ↦ (table.0, request-no_arrangement site m l none_kept ∙ table.1)
      | inr (fd, kept) ↦ elim (Bool-cases m.generate) [
        | inl new ↦ (table.0, kept_request site m fd l kept ∙ if-true m.generate _ _ new ∙ table.1)
        | inr old ↦ (
          fd,
          kept_request site m fd l kept ∙ if-false m.generate _ _ old ∙ old_answer site m fd l old,
        )
      ]
    ]
