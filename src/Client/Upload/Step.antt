-- ===== src/Client/Upload/Step.antt =====
-- One pass of the loop of `upload`.
use velox_dfs.Base.{
  ℕ, ◌+◌, ◌-◌, ◌%◌, ◌^◌, ◌≤◌, ◌<◌, ◌≡◌, ◌≢◌, refl, ap, sym, ◌∙◌, subst, List, [], ◌∷◌, ◌++◌, none,
  some, Text, get_elem?, length, take, set, length-append, drop-append, take_all, get_elem?-lt,
  length-set, Option, ◌>>=◌, arith, some-injective,
}
use velox_dfs.Messages.{BlockMetadata, block_insert, block_update}
use velox_dfs.Histogram.{get_index, random_within_boundaries}
use velox_dfs.Disk.{Disk}
use velox_dfs.FileLeader.{Pick}
use velox_dfs.BlockNode.{message}
use velox_dfs.Client.Upload.{
  Job, State, find_block, put_block, primary_name, target, perform, chunk_metadata, first_chunk,
  next_chunk,
}
use velox_dfs.Client.Upload.Store.{Holds, Holds-unique, IsFree, perform-insert, perform-update}
use velox_dfs.Client.Upload.Invariant.{
  get_elem?-append_left, get_elem?-last, IsServed, IsLater, IsSent, found_self, step-IsSent,
  step-IsLater,
}

-- What a pass leaves: a chunk that is served, and what was there.
pub record IsStepped (job : Job) (before : List Disk) (u : State) (disks : List Disk) (u' : State)
    (i start size : ℕ) (content : Text) : Type 0 where
  pub disks' : List Disk
  pub pick : Pick
  pub sent : IsSent job before u' disks' (start + size)
  pub later : IsLater job u disks u' disks'
  pub served : IsServed job u' disks' pick content
  pub at : (pick.1).foffset ≡ start
  pub sized : (pick.1).size ≡ size
  pub numbered : (pick.1).chunk_seq ≡ i

target_self : (n k : ℕ) (o : Option ℕ) → o ≡ some k → k < n → target n o ≡ k
unfolding target
target_self n k o e h = rw e (grind arith)

module _ (job : Job) (before : List Disk) (u : State) (disks : List Disk) (k i start size : ℕ)
    (content : Text) (sent : IsSent job before u disks start) (below : k < length job.nodes)
    (sized : length content ≡ size) (some_bytes : 0 < size) (fits : start + size < 2 ^ 63)
    (narrow : size < 2 ^ 32) where
  narrowed : size % 2 ^ 32 ≡ size
  narrowed = omega arith

  in_range : k < length disks
  in_range = omega (arith, sent.same_length)

  pub first_chunk_lem :
      (hash_key : ℕ)
      → random_within_boundaries job.boundaries (job.draw k) k ≡ some hash_key
      → get_index job.boundaries hash_key ≡ some k
      → find_block k u.blocks_metadata ≡ none
      → IsFree job disks k
      → (u' : State) × (first_chunk job k i start size content u ≡ some u')
        × IsStepped job before u disks u' i start size content
  unfolding first_chunk
  first_chunk_lem hash_key drawn owned absent free =
      let n = length job.nodes in
      let nonzero : n ≢ 0 = λ z. absurd (omega arith) in
      let (node, at_node) = get_elem?-lt job.nodes k below in
      let (left, at_left) = get_elem?-lt job.nodes ((k + n - 1) % n) (omega arith) in
      let (right, at_right) = get_elem?-lt job.nodes ((k + 1 + n) % n) (omega arith) in
      let empty : BlockMetadata = record {
        name = primary_name job k;
        file_name = job.name;
        seq = u.primary_seq;
        hash_key = hash_key;
        size = size;
        type = job.garbage;
        replica = job.replica;
        node = node;
        l_node = left;
        r_node = right;
        is_committed = 1;
        chunks = [];
      } in
      let chunk = chunk_metadata job i start size 0 empty in
      let block : BlockMetadata = record empty { chunks = chunk ∷ [] } in
      let goes = target_self n k (get_index job.boundaries hash_key) owned below in
      let u' : State = record {
        block_seq = i;
        blocks_metadata = put_block k block u.blocks_metadata;
        primary_seq = (u.primary_seq + 1) % 2 ^ 32;
        sent =
            u.sent
            ++ ((
              target n (get_index job.boundaries hash_key),
              message block_insert (primary_name job k) content 0 0,
            )
                ∷ []);
      } in
      let (d, performed, holds) =
        perform-insert job u.sent k content before disks sent.performed in_range free in
      (
        u',
        rw (drawn, ◌>>=◌, at_node, at_left, at_right) refl,
        record {
          disks' = set disks k d;
          pick = (block, chunk);
          sent =
              step-IsSent job before u u' disks k block d content start size refl sent
                (rw goes performed) refl owned (sym sized) holds (omega arith);
          later =
              step-IsLater job before u u' disks k block d content start size refl sent
                (λ b0 v0 found held. absurd (cc));
          served = record {
            server = k;
            index = 0;
            stored = content;
            below = omega (arith, length-set disks k d, in_range);
            found = found_self job before u u' disks k block d content start size refl sent;
            named = refl;
            owned = owned;
            listed = refl;
            holds = holds;
            short = omega arith;
            nonempty = omega (arith, narrowed);
            inside = omega (arith, narrowed);
            slice = ap (λ m. take m content) (narrowed ∙ sym sized) ∙ take_all content;
          };
          at = refl;
          sized = narrowed;
          numbered = refl;
        },
      )

  pub next_chunk_lem :
      (b : BlockMetadata) (v : Text)
      → find_block k u.blocks_metadata ≡ some b
      → b.name ≡ primary_name job k
      → get_index job.boundaries b.hash_key ≡ some k
      → b.size ≡ length v
      → Holds job disks k v
      → length v ≤ start
      → IsStepped job before u disks
          (next_chunk job k b i start size content u)
          i
          start
          size
          content
  unfolding next_chunk
  next_chunk_lem b v found named owned counts held short =
      let resized =
        λ (d : Disk)
            (e : perform
                (u.sent
                  ++ ((
                    k,
                    message block_update (primary_name job k) content (length v) (length content),
                  )
                      ∷ []))
                before
              ≡ some (set disks k d)).
          subst
            (λ z.
              perform
                (u.sent
                  ++ ((k, message block_update (primary_name job k) content (length v) z) ∷ []))
                before
              ≡ some (set disks k d))
            sized e in
      let n = length job.nodes in
      let chunk = chunk_metadata job i start size b.size b in
      let grown : (b.size + size) % 2 ^ 64 ≡ length (v ++ content) =
        omega (arith, length-append v content) in
      let block : BlockMetadata = record b {
        chunks = b.chunks ++ (chunk ∷ []);
        size = (b.size + size) % 2 ^ 64;
      } in
      let u' = next_chunk job k b i start size content u in
      let goes = target_self n k (get_index job.boundaries b.hash_key) owned below in
      let (d, performed, holds) =
        perform-update job u.sent k v content before disks sent.performed in_range held in
      record {
        disks' = set disks k d;
        pick = (block, chunk);
        sent =
            step-IsSent job before u u' disks k block d (v ++ content) start size refl sent
              (rw (goes, named, counts) (resized d performed)) named owned grown holds
              (omega (arith, length-append v content));
        later =
            step-IsLater job before u u' disks k block d (v ++ content) start size refl sent
              (λ b0 v0 found0 held0.
                let same_b : b ≡ b0 = some-injective _ _ (sym found ∙ found0) in
                (
                  content,
                  ap BlockMetadata.name same_b,
                  ap BlockMetadata.hash_key same_b,
                  λ j c e.
                      get_elem?-append_left b.chunks (chunk ∷ []) j c
                        (ap (λ x. get_elem? (BlockMetadata.chunks x) j) same_b ∙ e),
                  subst (λ x. Holds job (set disks k d) k (x ++ content))
                      (Holds-unique job disks k v v0 held held0) holds,
                ));
        served = record {
          server = k;
          index = length b.chunks;
          stored = v ++ content;
          below = omega (arith, length-set disks k d, in_range);
          found = found_self job before u u' disks k block d (v ++ content) start size refl sent;
          named = named;
          owned = owned;
          listed = get_elem?-last b.chunks chunk;
          holds = holds;
          short = omega (arith, length-append v content);
          nonempty = omega (arith, narrowed);
          inside = omega (arith, narrowed, length-append v content);
          slice =
              ap (take (size % 2 ^ 32)) (drop-append v content b.size counts)
              ∙ ap (λ m. take m content) (narrowed ∙ sym sized)
              ∙ take_all content;
        };
        at = refl;
        sized = narrowed;
        numbered = refl;
      }
