-- ===== src/Client/Upload/Pass.antt =====
-- One pass of the loop of `upload` with equal-sized blocks, and what it leaves as it was.
use velox_dfs.Base.{
  ℕ, ◌+◌, ◌-◌, ◌%◌, ◌^◌, ◌≤◌, ◌<◌, ◌≡◌, refl, ap, ◌∙◌, subst, true, false, List, [], ◌∷◌, ◌++◌,
  some, Text, IsZeroFree, take-All, drop-All, length, take, drop, length-append, length-take,
  length-drop, ◌==◌, ◌>>=◌, arith,
}
use mathlib.Core.List.{append_assoc}
use velox_dfs.Messages.{BlockMetadata}
use velox_dfs.Histogram.{get_index, random_within_boundaries}
use velox_dfs.Disk.{Disk}
use velox_dfs.FileLeader.{Pick}
use velox_dfs.Client.Upload.{
  Job, State, find_block, chunk_bytes, block_content, first_newline, next_chunk, store_chunk,
  upload_chunk,
}
use velox_dfs.Client.Upload.Cut.{block_content_lem, equal_newline}
use velox_dfs.Client.Upload.Store.{Holds, Holds-unique, IsFree}
use velox_dfs.Client.Upload.Invariant.{slice_before, IsServed, fresh, used, IsLater, IsSent}
use velox_dfs.Client.Upload.Step.{IsStepped, first_chunk_lem, next_chunk_lem}

-- An upload in equal-sized blocks of less than 2^32 bytes of a file that is not empty and has no zero
-- byte, to nodes where the primary files can be written and found. The memory behind the vector begins
-- with a zero, and the key drawn for a server is its own.
pub record IsUploadable (job : Job) (before : List Disk) : Type 0 where
  pub equal : job.is_equal_sized ≡ true
  pub nonempty : 0 < length job.bytes
  pub some_block : 0 < job.block_size
  pub small : length job.bytes + job.block_size < 2 ^ 63
  pub narrow : job.block_size < 2 ^ 32
  pub zero_free : IsZeroFree job.bytes
  pub rest : Text
  pub terminated : job.behind ≡ 0 ∷ rest
  pub some_nodes : 0 < length job.nodes
  pub same_length : length before ≡ length job.nodes
  pub owns :
      (k : ℕ)
      → k < length job.nodes
      → (key : ℕ) × (random_within_boundaries job.boundaries (job.draw k) k ≡ some key)
        × (get_index job.boundaries key ≡ some k)
  pub free : (k : ℕ) → k < length job.nodes → IsFree job before k

-- The chunks follow each other in the file, from number i and position `at` on, up to its end.
abbrev pub IsTiled : ℕ → ℕ → ℕ → List Pick → Type 0
IsTiled end i at [] = at ≡ end
IsTiled end i at (p ∷ picks) =
    ((p.1).chunk_seq ≡ i)
    × ((p.1).foffset ≡ at)
    × IsTiled end ((i + 1) % 2 ^ 32) (at + (p.1).size) picks

-- The chunks are on the nodes, and hold the text one after another.
abbrev pub AreServed : Job → State → List Disk → List Pick → Text → Type 0
AreServed job u disks [] s = s ≡ []
AreServed job u disks (p ∷ picks) s =
    (content : Text) × (rest : Text) × (s ≡ content ++ rest)
    × IsServed job u disks p content
    × AreServed job u disks picks rest

pub IsLater-trans :
    (job : Job) (u v w : State) (a b c : List Disk)
    → IsLater job u a v b
    → IsLater job v b w c
    → IsLater job u a w c
unfolding IsLater
IsLater-trans job u v w a b c f g k block s found holds =
    let (block', t, found', named, keyed, kept, holds') = f k block s found holds in
    let (block'', t', found'', named', keyed', kept', holds'') =
      g k block' (s ++ t) found' holds' in
    (
      block'',
      t ++ t',
      found'',
      named' ∙ named,
      keyed' ∙ keyed,
      λ j chunk e. kept' j chunk (kept j chunk e),
      subst (Holds job c k) (append_assoc s t t') holds'',
    )

module _ (job : Job) (before : List Disk) (ok : IsUploadable job before) where
  -- The bytes of a primary file are some bytes of the file.
  stored_short :
      (u : State) (disks : List Disk) (k : ℕ) (b : BlockMetadata) (v : Text)
      → IsSent job before u disks (length job.bytes)
      → k < length job.nodes
      → find_block k u.blocks_metadata ≡ some b
      → Holds job disks k v
      → length v < 2 ^ 63
  stored_short u disks k b v sent below found holds = elim (sent.slots k below) [
    | fresh absent free ↦ absurd (cc)
    | used b' v' found' named owned counts held short ↦
        omega (arith, ap length (Holds-unique job disks k v v' holds held), ok.small)
  ]

  -- What is served stays served.
  pub IsServed-later :
      (u u' : State) (disks disks' : List Disk) (p : Pick) (content : Text)
      → IsServed job u disks p content
      → IsLater job u disks u' disks'
      → length disks ≡ length job.nodes
      → IsSent job before u' disks' (length job.bytes)
      → (b : BlockMetadata) × IsServed job u' disks' (b, p.1) content
  unfolding IsLater
  IsServed-later u u' disks disks' p content s later same sent =
      let (b', w, found', named', keyed', kept, holds') =
        later s.server p.0 s.stored s.found s.holds in
      (
        b',
        record {
          server = s.server;
          index = s.index;
          stored = s.stored ++ w;
          below = omega (arith, s.below, same, sent.same_length);
          found = found';
          named = named' ∙ s.named;
          owned = ap (get_index job.boundaries) keyed' ∙ s.owned;
          listed = kept s.index p.1 s.listed;
          holds = holds';
          short =
              stored_short u' disks' s.server b' (s.stored ++ w) sent (omega (arith, s.below, same))
                found' holds';
          nonempty = s.nonempty;
          inside = omega (arith, length-append s.stored w, s.inside);
          slice = slice_before s.stored w (p.1).offset (p.1).size s.inside ∙ s.slice;
        },
      )

  chunk_content :
      (i start end : ℕ)
      → start < end
      → end ≤ length job.bytes
      → end - start ≤ job.block_size
      → (block_content job (chunk_bytes job i start end)
          ≡ some (take (end - start) (drop start job.bytes)))
        × (length (take (end - start) (drop start job.bytes)) ≡ end - start)
  unfolding chunk_bytes
  chunk_content i start end below inside fits =
      let size = end - start in
      let bytes = take size (drop start job.bytes) in
      let measured : length bytes ≡ size =
        omega (arith, length-take size (drop start job.bytes), length-drop start job.bytes) in
      let zero_free =
        take-All size (drop start job.bytes) (drop-All start job.bytes ok.zero_free) in
      (
        rw (equal_newline job i ok.equal)
            (block_content_lem job bytes ok.rest zero_free (omega arith) ok.terminated),
        measured,
      )

  store_chunk_lem :
      (u : State) (disks : List Disk) (k i start end : ℕ) (content : Text)
      → IsSent job before u disks start
      → k < length job.nodes
      → start < end
      → length content ≡ end - start
      → end ≤ length job.bytes
      → end - start < 2 ^ 32
      → (u' : State) × (store_chunk job k i start (end - start) content u ≡ some u')
        × IsStepped job before u disks u' i start (end - start) content
  unfolding store_chunk
  store_chunk_lem u disks k i start end content sent k_in below measured inside narrow =
      let fits : start + (end - start) < 2 ^ 63 = omega (arith, ok.small) in
      elim (sent.slots k k_in) [
        | fresh absent free ↦
            let (key, drawn, owned) = ok.owns k k_in in
            let (u', made, step) =
              first_chunk_lem job before u disks k i start (end - start) content sent k_in measured
                (omega arith) fits narrow key drawn owned absent free in
            (u', rw (absent, store_chunk) made, step)
        | used b v found named owned counts holds short ↦ (
          next_chunk job k b i start (end - start) content u,
          rw (found, store_chunk) refl,
          next_chunk_lem job before u disks k i start (end - start) content sent k_in measured
              (omega arith) fits narrow b v found named owned counts holds short,
        )
      ]

  pub upload_chunk_lem :
      (u : State) (disks : List Disk) (i start end : ℕ)
      → IsSent job before u disks start
      → start < end
      → end ≤ length job.bytes
      → end - start ≤ job.block_size
      → (u' : State) × (upload_chunk job i start end u ≡ some u')
        × IsStepped job before u disks u' i start
            (end - start)
            (take (end - start) (drop start job.bytes))
  unfolding upload_chunk
  upload_chunk_lem u disks i start end sent below inside fits =
      let n = length job.nodes in
      let k = (job.hash_key % n + i) % n in
      let size = end - start in
      let bytes = take size (drop start job.bytes) in
      let (content, measured) = chunk_content i start end below inside fits in
      let there : (n == 0) ≡ false = ground (arith, ok.some_nodes) in
      let k_in : k < n = omega (arith, ok.some_nodes) in
      let computed : (end + 2 ^ 64 - start + length (first_newline job i)) % 2 ^ 64 ≡ size =
        omega (arith, ok.small, ap length (equal_newline job i ok.equal)) in
      let (u', stored, step) =
        store_chunk_lem u disks k i start end bytes sent k_in below measured inside
          (omega (arith, ok.narrow)) in
      (
        u',
        rw (there, content, ◌>>=◌)
            (ap (λ s. store_chunk job k i start s bytes u) computed ∙ stored),
        step,
      )
