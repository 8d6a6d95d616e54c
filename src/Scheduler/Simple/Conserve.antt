-- ===== src/Scheduler/Simple/Conserve.antt =====
-- The blocks of scheduler_simple together hold what the file holds.
use velox_dfs.Base.{
  ℕ, suc, ◌+◌, ◌<◌, ◌≡◌, refl, ap, sym, ◌∙◌, List, [], ◌∷◌, map, some, Text, text_eq, length, sum,
  drop, get_elem?-lt, drop-get_elem?, drop-append, if◌then◌else◌, ◌>>=◌, Bool-cases, inl, inr,
  arith, All,
}
use velox_dfs.Messages.{BlockInfo, LogicalBlock, FileDescription}
use velox_dfs.Histogram.{Histogram}
use velox_dfs.Histogram.Random.{IsRising, random_total}
use velox_dfs.Scheduler.{index_of}
use velox_dfs.Scheduler.Simple.{
  hosts_of, simple_block, chunks_of, size_of_chunks, simple_blocks, generate, simple_lblock,
  with_blocks,
}
use velox_dfs.Scheduler.Simple.Hosts.{occurrences, hosts_of-once}

-- What the chunks of a host weigh.
weight : Text → List Text → List ℕ → ℕ
weight host [] ss = 0
weight host (x ∷ xs) [] = 0
weight host (x ∷ xs) (s ∷ ss) = (if text_eq x host then s else 0) + weight host xs ss

total : List Text → List Text → List ℕ → ℕ
unfolding weight
total [] xs ss = 0
total (host ∷ hosts) xs ss = weight host xs ss + total hosts xs ss

hits : Text → ℕ → List Text → ℕ
hits x s [] = 0
hits x s (host ∷ hosts) = (if text_eq x host then s else 0) + hits x s hosts

total-cons :
    (hosts : List Text) (x : Text) (xs : List Text) (s : ℕ) (ss : List ℕ)
    → total hosts (x ∷ xs) (s ∷ ss) ≡ hits x s hosts + total hosts xs ss
unfolding total hits
total-cons [] x xs s ss = omega arith
total-cons (host ∷ hosts) x xs s ss = omega (arith, total-cons hosts x xs s ss)

hits-none : (x : Text) (s : ℕ) (hosts : List Text) → occurrences x hosts ≡ 0 → hits x s hosts ≡ 0
unfolding hits
hits-none x s [] e = refl
hits-none x s (host ∷ hosts) e = ground (arith, hits-none x s hosts)

hits-once : (x : Text) (s : ℕ) (hosts : List Text) → occurrences x hosts ≡ 1 → hits x s hosts ≡ s
unfolding hits
hits-once x s [] e = absurd (omega (arith, e))
hits-once x s (host ∷ hosts) e = ground (arith, hits-once x s hosts, hits-none x s hosts)

total-nil : (hosts : List Text) (ss : List ℕ) → total hosts [] ss ≡ 0
unfolding total
total-nil [] ss = refl
total-nil (host ∷ hosts) ss = omega (arith, total-nil hosts ss)

total-once :
    (hosts xs : List Text) (ss : List ℕ)
    → All (λ t. occurrences t hosts ≡ 1) xs
    → length ss ≡ length xs
    → total hosts xs ss ≡ sum ss
total-once hosts [] [] a e = total-nil hosts []
total-once hosts [] (s ∷ ss) a e = absurd (omega (arith, e))
total-once hosts (x ∷ xs) [] a e = absurd (omega (arith, e))
total-once hosts (x ∷ xs) (s ∷ ss) a e = omega (
  arith,
  total-cons hosts x xs s ss,
  hits-once x s hosts a.0,
  total-once hosts xs ss a.1 (omega (arith, e)),
)

-- The lists of the description that the scheduler reads are as long as the list of hosts.
pub record IsEven (fd : FileDescription) : Type 0 where
  pub blocks_length : length fd.blocks ≡ length fd.block_hosts
  pub hash_keys_length : length fd.hash_keys ≡ length fd.block_hosts
  pub block_size_length : length fd.block_size ≡ length fd.block_hosts

chunks_of-total :
    (fd : FileDescription) (host : Text) (j : ℕ) (xs : List Text)
    → IsEven fd
    → j + length xs ≡ length fd.block_hosts
    → (bs : List BlockInfo) × (chunks_of fd host j xs ≡ some bs)
      × (size_of_chunks bs ≡ weight host xs (drop j fd.block_size))
unfolding chunks_of weight
chunks_of-total fd host j [] even e = ([], refl, refl)
chunks_of-total fd host j (x ∷ xs) even e =
    let (bs, p, q) = chunks_of-total fd host (j + 1) xs even (omega (arith, e)) in
    let (name, name_at) = get_elem?-lt fd.blocks j (omega (arith, e, even.blocks_length)) in
    let (key, key_at) = get_elem?-lt fd.hash_keys j (omega (arith, e, even.hash_keys_length)) in
    let (size, size_at) = get_elem?-lt fd.block_size j (omega (arith, e, even.block_size_length)) in
    let next : j + 1 ≡ suc j = omega arith in
    let split : drop j fd.block_size ≡ size ∷ drop (j + 1) fd.block_size =
      drop-get_elem? fd.block_size j size size_at
      ∙ ap (λ n. size ∷ drop n fd.block_size) (sym next) in
    elim (Bool-cases (text_eq x host)) [
      | inl same ↦ (
        simple_block fd.name host name key size ∷ bs,
        rw (same, name_at, ◌>>=◌, key_at, ◌>>=◌, size_at, ◌>>=◌, p, ◌>>=◌) refl,
        rw (split, same) (omega (arith, q)),
      )
      | inr other ↦ (bs, rw other p, rw (split, other) (omega (arith, q)))
    ]

module _ (hist : Histogram) (draws : ℕ → ℕ) (fd : FileDescription) (nodes : List Text)
    (even : IsEven fd) (rising : IsRising 0 hist.boundaries) where
  simple_blocks-total :
      (i : ℕ) (hosts : List Text)
      → All (λ host. index_of host nodes < length hist.boundaries) hosts
      → (new : List LogicalBlock) × (simple_blocks hist draws fd nodes i hosts ≡ some new)
        × (map (λ l. l.host_name) new ≡ hosts)
        × (sum (map (λ l. l.size) new) ≡ total hosts fd.block_hosts fd.block_size)
  unfolding simple_blocks total
  simple_blocks-total i [] known = ([], refl, refl, refl)
  simple_blocks-total i (host ∷ hosts) known =
      let (key, drawn) = random_total hist (draws i) (index_of host nodes) rising known.0 in
      let (bs, p, q) = chunks_of-total fd host 0 fd.block_hosts even (omega arith) in
      let (rest, e, names, sizes) = simple_blocks-total (i + 1) hosts known.1 in
      (
        simple_lblock fd.name i host key bs ∷ rest,
        rw (drawn, ◌>>=◌, p, ◌>>=◌, e, ◌>>=◌) refl,
        ap (◌∷◌ host) names,
        omega (arith, q, sizes),
      )

-- When every host of a chunk is a node with a boundary, and the boundaries rise strictly, the scheduler
-- goes through and appends one block for each host of the set, in its order; and the sizes of the new
-- blocks add up to the sizes of the chunks.
pub simple_conserves :
    (hist : Histogram) (draws : ℕ → ℕ) (fd : FileDescription) (nodes : List Text)
    → IsEven fd
    → IsRising 0 hist.boundaries
    → All (λ host. index_of host nodes < length hist.boundaries) (hosts_of fd.block_hosts)
    → (fd' : FileDescription) × (generate hist draws fd nodes ≡ some fd')
      × (map (λ l. l.host_name) (drop (length fd.logical_blocks) fd'.logical_blocks)
          ≡ hosts_of fd.block_hosts)
      × (sum (map (λ l. l.size) (drop (length fd.logical_blocks) fd'.logical_blocks))
          ≡ sum fd.block_size)
unfolding generate
simple_conserves hist draws fd nodes even rising known =
    let hosts = hosts_of fd.block_hosts in
    let (new, e, names, sizes) =
      simple_blocks-total hist draws fd nodes even rising 0 hosts known in
    let back = drop-append fd.logical_blocks new (length fd.logical_blocks) refl in
    let all =
      total-once hosts fd.block_hosts fd.block_size (hosts_of-once fd.block_hosts)
        even.block_size_length in
    (
      with_blocks fd hosts new,
      rw (e, ◌>>=◌) refl,
      ap (map (λ (l : LogicalBlock). l.host_name)) back ∙ names,
      ap (λ ls. sum (map (λ (l : LogicalBlock). l.size) ls)) back ∙ sizes ∙ all,
    )
