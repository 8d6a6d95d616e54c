-- ===== src/Client/Upload/First.antt =====
-- An upload of one chunk.
use velox_dfs.Base.{
  ℕ, suc, ◌≤◌, ◌+◌, ◌^◌, ◌<◌, ◌≡◌, refl, ap, subst, ◌∙◌, true, [], ◌∷◌, some, Text, length, leb,
  get_elem?, ◌-◌, ◌%◌, Option-cases, Bool-cases, ◌==◌, inl, inr, Always, some-Always, none-Always,
  arith, ◌>>=◌,
}
use velox_dfs.Messages.{BlockMetadata, ChunkMetadata}
use velox_dfs.Histogram.{random_within_boundaries}
use velox_dfs.Client.Upload.{
  Job, State, find_block, put_block, first_chunk, store_chunk, upload_chunk, upload_loop,
  upload_blocks, block_end, block_content, chunk_bytes,
}
use velox_dfs.Client.Upload.Cut.{equal_end}

-- The state after one pass: one primary file of one chunk.
pub record IsFirst (job : Job) (u : State) : Type 0 where
  pub server : ℕ
  pub block : BlockMetadata
  pub chunk : ChunkMetadata
  pub only : u.blocks_metadata ≡ (server, block) ∷ []
  pub chunks : block.chunks ≡ chunk ∷ []
  pub file : block.file_name ≡ job.name
  pub primary : chunk.primary_file ≡ block.name
  pub seq : u.block_seq ≡ 0

abbrev initial : State
initial = record { block_seq = 0; blocks_metadata = []; primary_seq = 0; sent = [] }

first_chunk-IsFirst :
    (job : Job) (k start size : ℕ) (content : Text)
    → Always (IsFirst job) (first_chunk job k 0 start size content initial)
unfolding first_chunk put_block
first_chunk-IsFirst job k start size content =
    let n = length job.nodes in
    let P = IsFirst job in
    elim (Option-cases (random_within_boundaries job.boundaries (job.draw k) k)) [
      | inl e ↦ rw (e, first_chunk) (none-Always P)
      | inr (key, drawn) ↦ elim (Option-cases (get_elem? job.nodes k)) [
        | inl e ↦ rw (drawn, first_chunk, e) (none-Always P)
        | inr (node, at) ↦ elim (Option-cases (get_elem? job.nodes ((k + n - 1) % n))) [
          | inl e ↦ rw (drawn, first_chunk, at, e) (none-Always P)
          | inr (left, at_left) ↦ elim (Option-cases (get_elem? job.nodes ((k + 1 + n) % n))) [
            | inl e ↦ rw (drawn, first_chunk, at, at_left, e) (none-Always P)
            | inr (right, at_right) ↦
                rw (drawn, first_chunk, at, at_left, at_right)
                  (some-Always P _ (record {
                    server = k;
                    block = _;
                    chunk = _;
                    only = refl;
                    chunks = refl;
                    file = refl;
                    primary = refl;
                    seq = refl;
                  }))
          ]
        ]
      ]
    ]

upload_chunk-IsFirst :
    (job : Job) (start end : ℕ) → Always (IsFirst job) (upload_chunk job 0 start end initial)
unfolding upload_chunk store_chunk find_block
upload_chunk-IsFirst job start end =
    let P = IsFirst job in
    elim (Bool-cases (length job.nodes == 0)) [
      | inl nobody ↦ rw (nobody, upload_chunk) (none-Always P)
      | inr there ↦ elim (Option-cases (block_content job (chunk_bytes job 0 start end))) [
        | inl e ↦ rw (there, upload_chunk, e) (none-Always P)
        | inr (content, e) ↦ rw (there, upload_chunk, e) (first_chunk-IsFirst job _ start _ content)
      ]
    ]

upload_loop-IsFirst :
    (job : Job) (fuel : ℕ)
    → block_end job 0 ≡ some (length job.bytes)
    → Always (IsFirst job) (upload_loop (suc fuel) job 0 0 initial)
unfolding upload_loop
upload_loop-IsFirst job fuel ends =
    let stops : leb (length job.bytes) (length job.bytes) ≡ true = ground arith in
    elim (Option-cases (upload_chunk job 0 0 (length job.bytes) initial)) [
      | inl e ↦ rw (ends, ◌>>=◌, e) (none-Always (IsFirst job))
      | inr (u, e) ↦
          rw (ends, ◌>>=◌, e, stops)
            (some-Always (IsFirst job) u (upload_chunk-IsFirst job 0 (length job.bytes) u e))
    ]

-- An upload of a file of at most one block ends with one chunk.
pub upload_blocks-IsFirst :
    (job : Job)
    → job.is_equal_sized ≡ true
    → length job.bytes + job.block_size < 2 ^ 63
    → length job.bytes ≤ job.block_size
    → Always (IsFirst job) (upload_blocks job)
unfolding upload_blocks
upload_blocks-IsFirst job equal small one =
    let fuel : suc (length job.bytes) ≡ length job.bytes + 1 = omega arith in
    subst (λ f. Always (IsFirst job) (upload_loop f job 0 0 initial)) fuel
      (upload_loop-IsFirst job (length job.bytes)
        (equal_end job 0 equal small (omega arith) ∙ ap some (omega arith)))
