-- ===== src/Scheduler/Base/Conserve.antt =====
-- `scheduler_base::generate` neither loses nor doubles a chunk, by count and by size.
use velox_dfs.Base.{
  ℕ, zero, suc, ◌+◌, ◌≤◌, ◌<◌, ◌≡◌, refl, ap, sym, ◌∙◌, List, [], ◌∷◌, map, some, Text, get_elem?,
  length, range_from, >>=-eq-some, arith, drop, subst, sum, some-injective, length-drop, length-map,
  leb, ltb, ◌&&◌, get_elem?-drop, drop_all, drop-get_elem?, ◌==◌, if◌then◌else◌,
}
use velox_dfs.Messages.{BlockInfo, LogicalBlock, FileDescription}
use velox_dfs.Histogram.{Histogram}
use velox_dfs.Histogram.Random.{IsRising}
use velox_dfs.Scheduler.{chunk_at}
use velox_dfs.Scheduler.Replicas.{AllDistinct}
use velox_dfs.Scheduler.Base.{generate}
use velox_dfs.Scheduler.Base.Route.{Routed, route, routed_to, AllBelow}
use velox_dfs.Scheduler.Base.Placement.{IsWellFormed, sizes, route_total, chunk_at_total}
use velox_dfs.Scheduler.Base.Generate.{IsScheduled, generate_lem}

abbrev sum_range : (ℕ → ℕ) → ℕ → ℕ → ℕ
sum_range g i zero = 0
sum_range g i (suc n) = g i + sum_range g (i + 1) n

sum_range_congr :
    (g f : ℕ → ℕ) → ((k : ℕ) → g k ≡ f k) → (i n : ℕ) → sum_range g i n ≡ sum_range f i n
sum_range_congr g f h i zero = refl
sum_range_congr g f h i (suc n) = omega (arith, h i, sum_range_congr g f h (i + 1) n)

sum_range_zero : (i n : ℕ) → sum_range (λ _. 0) i n ≡ 0
sum_range_zero i zero = refl
sum_range_zero i (suc n) = omega (arith, sum_range_zero (i + 1) n)

sum_range-add_at :
    (g : ℕ → ℕ) (c j i n : ℕ)
    → sum_range (λ k. if j == k then c + g k else g k) i n
      ≡ sum_range g i n + (if leb i j && ltb j (i + n) then c else 0)
sum_range-add_at g c j i zero = ground arith
sum_range-add_at g c j i (suc n) = ground (arith, sum_range-add_at g c j (i + 1) n)

-- Weigh each chunk: what the nodes hold together is what there is.
module _ (w : BlockInfo → ℕ) where
  abbrev weight : List BlockInfo → ℕ
  weight bs = sum (map w bs)

  weight_split :
      (n : ℕ) (r : List Routed)
      → AllBelow n r
      → sum_range (λ k. weight (routed_to k r)) 0 n ≡ weight (map (λ x. x.1) r)
  weight_split n [] h = sum_range_zero 0 n
  weight_split n ((j, b) ∷ r) h =
      let g = λ (k : ℕ). weight (routed_to k r) in
      sum_range_congr (λ k. weight (routed_to k ((j, b) ∷ r)))
        (λ k. if j == k then w b + g k else g k) (λ k. ground arith) 0 n
      ∙ (sum_range-add_at g (w b) j 0 n ∙ ground (arith, weight_split n r h.1))

sum-map-range :
    (f : LogicalBlock → ℕ) (g : ℕ → ℕ) (ls : List LogicalBlock) (i : ℕ)
    → ((k : ℕ) → k < length ls → (l : LogicalBlock) × (get_elem? ls k ≡ some l) × (f l ≡ g (i + k)))
    → sum (map f ls) ≡ sum_range g i (length ls)
sum-map-range f g [] i h = refl
sum-map-range f g (l ∷ ls) i h =
    let (x, e, v) = h 0 (omega arith) in
    let first : f l ≡ g i = ap f (some-injective _ _ e) ∙ (v ∙ ap g (omega arith)) in
    let rest : sum (map f ls) ≡ sum_range g (i + 1) (length ls) =
      sum-map-range f g ls (i + 1) (λ k p.
        let (y, q, u) = h (suc k) (omega arith) in
        let at : i + suc k ≡ (i + 1) + k = omega arith in (y, q, u ∙ ap g at)) in
    omega arith

-- What a routed chunk weighs in the description.
sizes-route :
    (fd : FileDescription) (nodes : List Text) (i n : ℕ) (r : List Routed)
    → IsWellFormed fd nodes
    → i + n ≡ length fd.blocks
    → route fd nodes (range_from i n) ≡ some r
    → sizes (map (λ x. x.1) r) ≡ sum (drop i fd.block_size)
unfolding route
sizes-route fd nodes i zero r w h e =
    let none_left = drop_all i fd.block_size (omega (arith, w.block_size_length)) in
    subst (λ x. sizes (map (λ y. y.1) x) ≡ sum (drop i fd.block_size)) (some-injective _ _ e)
      (rw none_left refl)
sizes-route fd nodes i (suc n) r w h e =
    let (host, p, e₁) = >>=-eq-some (get_elem? fd.block_hosts i) _ e in
    let (block, q, e₂) = >>=-eq-some (chunk_at fd i) _ e₁ in
    let (rest, s, e₃) = >>=-eq-some (route fd nodes (range_from (i + 1) n)) _ e₂ in
    let (b, q', size, _) = chunk_at_total fd nodes i w (omega arith) in
    let same : b ≡ block = some-injective _ _ (sym q' ∙ q) in
    let tail = drop-get_elem? fd.block_size i block.size (rw same at size) in
    let next : i + 1 ≡ suc i = omega arith in
    let ih = sizes-route fd nodes (i + 1) n rest w (omega arith) s in
    let all = ih ∙ ap (λ j. sum (drop j fd.block_size)) next in
    subst (λ x. sizes (map (λ y. y.1) x) ≡ sum (drop i fd.block_size)) (some-injective _ _ e₃)
      (ap (λ t. block.size + t) all ∙ sym (ap sum tail))

-- A figure that each block gives as the weight of its own chunks adds up to the weight of all.
new_total :
    (nodes : List Text) (f : LogicalBlock → ℕ) (w : BlockInfo → ℕ) (r : List Routed)
    (ls : List LogicalBlock)
    → ((k : ℕ) (l : LogicalBlock) → IsScheduled nodes r k l → f l ≡ weight w (routed_to k r))
    → length ls ≡ length nodes
    → AllBelow (length nodes) r
    → ((k : ℕ)
        → k < length nodes
        → (l : LogicalBlock) × (get_elem? ls k ≡ some l) × IsScheduled nodes r k l)
    → sum (map f ls) ≡ weight w (map (λ x. x.1) r)
new_total nodes f w r ls agree long below spec =
    sum-map-range f (λ k. weight w (routed_to k r)) ls 0
      (λ k p.
        let (l, at, s) = spec k (omega arith) in
        let same : k ≡ 0 + k = omega arith in
        (l, at, agree k l s ∙ ap (λ j. weight w (routed_to j r)) same))
    ∙ (ap (sum_range (λ k. weight w (routed_to k r)) 0) long
        ∙ weight_split w (length nodes) r below)

weight-one : (bs : List BlockInfo) → length bs ≡ weight (λ _. 1) bs
weight-one [] = refl
weight-one (b ∷ bs) = omega (arith, weight-one bs)

module _ (hist : Histogram) (draws : ℕ → ℕ) (fd : FileDescription) (nodes : List Text)
    (well : IsWellFormed fd nodes) (distinct : AllDistinct nodes) (three : 3 ≤ length nodes)
    (few : length nodes < 4294967296) (rising : IsRising 0 hist.boundaries)
    (servers : length hist.boundaries ≡ length nodes) where
  -- For a well-formed description, distinct nodes (three or more, fewer than 2^32) and strictly rising
  -- boundaries, one for each node, the scheduler goes through, the new blocks together have as many
  -- chunks of their own as the file, and their sizes add up to the sizes of the chunks.
  pub generate_conserves :
      (fd' : FileDescription) × (generate hist draws fd nodes ≡ some fd')
      × (sum (map (λ l. l.primary_chunk_num) (drop (length fd.logical_blocks) fd'.logical_blocks))
          ≡ length fd.blocks)
      × (sum (map (λ l. l.size) (drop (length fd.logical_blocks) fd'.logical_blocks))
          ≡ sum fd.block_size)
  generate_conserves =
      let n = length nodes in
      let old = length fd.logical_blocks in
      let (r, fd', q, e, len, spec) =
        generate_lem hist draws fd nodes well distinct three few rising servers in
      let (r', q', below, number) = route_total fd nodes 0 (length fd.blocks) well (omega arith) in
      let same : r' ≡ r = some-injective _ _ (sym q' ∙ q) in
      let ls = drop old fd'.logical_blocks in
      let long : length ls ≡ n = omega (arith, length-drop old fd'.logical_blocks) in
      let spec' : (k : ℕ)
          → k < n
          → (l : LogicalBlock) × (get_elem? ls k ≡ some l) × IsScheduled nodes r k l =
        λ k p. let (l, at, s) = spec k p in (l, get_elem?-drop old fd'.logical_blocks k ∙ at, s) in
      let below' = subst (AllBelow n) same below in
      let counted =
        new_total nodes (λ l. l.primary_chunk_num) (λ _. 1) r ls
          (λ k l s. s.count ∙ weight-one (routed_to k r)) long below' spec' in
      let weighed =
        new_total nodes (λ l. l.size) (λ b. b.size) r ls (λ k l s. s.total) long below' spec' in
      let number' : length r ≡ length fd.blocks =
        subst (λ x. length x ≡ length fd.blocks) same number in
      (
        fd',
        e,
        counted ∙ (sym (weight-one (map (λ x. x.1) r)) ∙ (length-map (λ x. x.1) r ∙ number')),
        weighed ∙ sizes-route fd nodes 0 (length fd.blocks) r well (omega arith) q,
      )
