-- ===== src/Client/Upload/RoundTrip.antt =====
-- `download` of what `upload` sent.
use velox_dfs.Base.{
  ℕ, zero, suc, ◌+◌, ◌<◌, ◌≡◌, refl, ap, sym, ◌∙◌, List, [], ◌∷◌, map, some, Text, All, get_elem?,
  length, length-map, ◌>>=◌, arith,
}
use mathlib.Core.Option
use velox_dfs.Messages.{FileInfo, FileDescription, block_request}
use velox_dfs.Histogram.{get_index}
use velox_dfs.Disk.{Disk}
use velox_dfs.Disk.Slice.{read_within}
use velox_dfs.BlockNode.{transfer, message, io_operation}
use velox_dfs.BlockNode.Spread.{request_part}
use velox_dfs.FileLeader.{Pick, list_chunks}
use velox_dfs.FileLeader.Server.{empty_description}
use velox_dfs.Client.Upload.{
  Job, State, find_block, primary_name, perform, target, upload_blocks, answer_text, download_from,
  download,
}
use velox_dfs.Client.Upload.Invariant.{IsServed, IsSent, fresh}
use velox_dfs.Client.Upload.Pass.{IsUploadable, IsTiled, AreServed}
use velox_dfs.Client.Upload.Loop.{Ends, loop_lem}

-- The chunk is listed in the metadata that the upload confirms.
abbrev pub IsListed : State → Pick → Type 0
IsListed u p =
    (k : ℕ) × (j : ℕ) × (find_block k u.blocks_metadata ≡ some p.0)
    × (get_elem? (p.0).chunks j ≡ some p.1)

AreServed-IsListed :
    (job : Job) (u : State) (disks : List Disk) (picks : List Pick) (s : Text)
    → AreServed job u disks picks s
    → All (IsListed u) picks
AreServed-IsListed job u disks [] s h = tt
AreServed-IsListed job u disks (p ∷ picks) s (content, rest, e, served, others) = (
  (served.server, served.index, served.found, served.listed),
  AreServed-IsListed job u disks picks rest others,
)

-- The lists of a description from position i on.
abbrev AreAt : FileDescription → ℕ → List Pick → Type 0
AreAt fd i picks =
    (j : ℕ) (p : Pick)
    → get_elem? picks j ≡ some p
    → (get_elem? fd.primary_files (i + j) ≡ some (p.0).name)
      × (get_elem? fd.offsets (i + j) ≡ some (p.1).offset)
      × (get_elem? fd.block_size (i + j) ≡ some (p.1).size)
      × (get_elem? fd.hash_keys (i + j) ≡ some (p.0).hash_key)

get_elem?-map {ℓ κ} :
    {A : Type ℓ} {B : Type κ} (f : A → B) (xs : List A) (i : ℕ) (a : A)
    → get_elem? xs i ≡ some a
    → get_elem? (map f xs) i ≡ some (f a)
get_elem?-map f [] i a e = absurd (cc)
get_elem?-map f (x ∷ xs) zero a e = ap (λ o. Option.map f o) e
get_elem?-map f (x ∷ xs) (suc i) a e = get_elem?-map f xs i a e

target_owner : (n k : ℕ) (o : Option.Option ℕ) → o ≡ some k → k < n → target n o ≡ k
unfolding target
target_owner n k o e h = rw e (grind arith)

module _ (job : Job) (u : State) (disks : List Disk) (fd : FileDescription) where
  request_chunk :
      (p : Pick) (content : Text) (s : IsServed job u disks p content)
      → io_operation
          (length disks)
          s.server
          (message block_request (p.0).name [] (p.1).offset (p.1).size)
          (s.holds).0
        ≡ some
            (record { disk = (s.holds).0; sent = []; answer = some (transfer (p.0).name content) })
  request_chunk p content s =
      request_part (length disks) s.server (p.1).offset (p.1).size (p.0).name [] content (s.holds).0
        s.nonempty
        (rw s.named (
          read_within (primary_name job s.server) s.stored (p.1).offset (p.1).size (s.holds).0
            (s.holds).2 s.inside s.short
          ∙ ap some s.slice))

  download_from_lem :
      (picks : List Pick) (i : ℕ) (s : Text)
      → AreServed job u disks picks s
      → AreAt fd i picks
      → download_from job.boundaries disks fd (length picks) i ≡ some s
  unfolding download_from answer_text
  download_from_lem [] i s h at = ap some (sym h)
  download_from_lem (p ∷ picks) i s (content, rest, e, served, others) at =
      let (named, offset, size, key) = at 0 p refl in
      let here : i + 0 ≡ i = omega arith in
      let goes =
        target_owner (length disks) served.server (get_index job.boundaries (p.0).hash_key)
          served.owned served.below in
      let shifted : AreAt fd (i + 1) picks =
        λ j q at_j. let up : i + suc j ≡ i + 1 + j = omega arith in rw (← up) (at (suc j) q at_j) in
      let later = download_from_lem picks (i + 1) rest others shifted in
      rw e (
        rw
          (
            ap (λ m. get_elem? fd.primary_files m) (sym here) ∙ named,
            ◌>>=◌,
            ap (λ m. get_elem? fd.offsets m) (sym here) ∙ offset,
            ap (λ m. get_elem? fd.block_size m) (sym here) ∙ size,
            ap (λ m. get_elem? fd.hash_keys m) (sym here) ∙ key,
            goes,
            (served.holds).1,
            request_chunk p content served,
            later,
          )
          refl)

list_chunks-AreAt :
    (info : FileInfo) (picks : List Pick)
    → AreAt (list_chunks (record empty_description { info = info }) picks) 0 picks
list_chunks-AreAt info picks j p e =
    let here : 0 + j ≡ j = omega arith in
    rw here (
      get_elem?-map (λ q. (q.0).name) picks j p e,
      get_elem?-map (λ q. (q.1).offset) picks j p e,
      get_elem?-map (λ q. (q.1).size) picks j p e,
      get_elem?-map (λ q. (q.0).hash_key) picks j p e,
    )

module _ (job : Job) (before : List Disk) (ok : IsUploadable job before) where
  abbrev initial : State
  initial = record { block_seq = 0; blocks_metadata = []; primary_seq = 0; sent = [] }

  initial-IsSent : IsSent job before initial before 0
  unfolding perform find_block
  initial-IsSent = record {
    performed = refl;
    same_length = ok.same_length;
    slots = λ k below. fresh refl (ok.free k below);
  }

  upload-Ends : Ends job before ok (length job.bytes + 1) 0 0 initial before
  upload-Ends =
      loop_lem job before ok (length job.bytes + 1) 0 0 initial before initial-IsSent ok.nonempty
        (omega arith)

  pub upload-download :
      (info : FileInfo)
      → (u : State) × (picks : List Pick) × (disks : List Disk) × (upload_blocks job ≡ some u)
        × (perform u.sent before ≡ some disks)
        × IsTiled (length job.bytes) 0 0 picks
        × All (IsListed u) picks
        × (download job.boundaries disks
              (list_chunks (record empty_description { info = info }) picks)
            ≡ some job.bytes)
  unfolding upload_blocks Ends download
  upload-download info =
      let (u, ended, done) = upload-Ends in
      let fd = list_chunks (record empty_description { info = info }) done.picks in
      let count : length fd.blocks ≡ length done.picks = length-map (λ p. (p.1).name) done.picks in
      (
        u,
        done.picks,
        done.disks',
        ended,
        (done.sent).performed,
        done.tiled,
        AreServed-IsListed job u done.disks' done.picks job.bytes done.served,
        rw count (
            download_from_lem job u done.disks' fd done.picks 0 job.bytes done.served
              (list_chunks-AreAt info done.picks)),
      )
