-- ===== src/Client/Loop.antt =====
-- The loop of `read_physical`.
use velox_dfs.Base.{
  ℕ, zero, suc, ◌+◌, ◌-◌, ◌%◌, ◌^◌, ◌<◌, ◌≤◌, ◌≡◌, ◌&&◌, refl, ap, sym, ◌∙◌, true, false, List,
  Option, some, Text, take, drop, concat, min, length, get_elem?, get_elem?-lt, ltb, lt→ltb, ◌==◌,
  arith, length-drop, if◌then◌else◌, ◌>>=◌, Bool-cases, inl, inr, drop-drop,
}
use velox_dfs.Messages.{FileDescription}
use velox_dfs.Client.{Cluster, fetch, received, read_blocks}
use velox_dfs.Client.Range.{
  start, start-suc, start_mono, start-length, slice_block, filled, put_at-filled,
}

-- The blocks of the description are `bs`, and a request of a part of one is served.
abbrev pub IsServed : Cluster → FileDescription → List Text → Type 0
IsServed c fd bs =
    (i : ℕ) (b : Text)
    → get_elem? bs i ≡ some b
    → (key : ℕ) × (name : Text) × (get_elem? fd.hash_keys i ≡ some key)
      × (get_elem? fd.block_size i ≡ some (length b))
      × (get_elem? fd.blocks i ≡ some name)
      × ((cursor len : ℕ)
          → 0 < len
          → cursor + len ≤ length b
          → fetch c key name cursor len ≡ some (some (take len (drop cursor b))))

module _ (c : Cluster) (fd : FileDescription) (bs : List Text) (served : IsServed c fd bs)
    (small : length (concat bs) < 2 ^ 63) (off len first begin : ℕ) (buf : Text)
    (inside : off + len ≤ length (concat bs)) (room : len ≤ length buf) where
  abbrev src : Text
  src = drop off (concat bs)

  -- One round, which reads l bytes from `cursor` on.
  read_step :
      (count i r cursor l : ℕ) (b : Text)
      → get_elem? bs i ≡ some b
      → (if i == first && ltb 0 (length b) then (off + 2 ^ 64 - begin) % 2 ^ 64 else 0) ≡ cursor
      → start i bs + cursor ≡ off + r
      → cursor < length b
      → r < len
      → l ≡ min (length b - cursor) (len - r)
      → read_blocks c fd off first begin (suc count) i (len - r) r (filled src buf r) ≡ (
          if (len - r) - l == 0
          then some (r + l, filled src buf (r + l))
          else read_blocks c fd off first begin count
              (i + 1)
              ((len - r) - l)
              (r + l)
              (filled src buf (r + l)))
  unfolding read_blocks received
  read_step count i r cursor l b found at here inner more amount =
      let (key, name, key_at, size_at, name_at, serves) = served i b found in
      let next = start-suc i bs b found in
      let short : start (suc i) bs ≤ length (concat bs) = start-length (suc i) bs in
      let wrapped : min ((length b + 2 ^ 64 - cursor) % 2 ^ 64) (len - r) ≡ l = omega arith in
      let got = serves cursor l (omega arith) (omega arith) in
      let bytes = take l (drop cursor b) in
      let part : bytes ≡ take l (drop r src) =
        sym (slice_block bs i cursor l b found (omega arith))
        ∙ ap (λ n. take l (drop n (concat bs))) here
        ∙ ap (take l) (sym (drop-drop r off (concat bs))) in
      let put =
        put_at-filled src buf bytes r l part (omega (arith, length-drop off (concat bs)))
          (omega arith) in
      rw (key_at, ◌>>=◌, size_at, ◌>>=◌, name_at, ◌>>=◌, at, wrapped, got, ◌>>=◌, put, ◌>>=◌) refl

  -- What has been read once all blocks before block k have been.
  abbrev upto : ℕ → Option (ℕ × Text)
  upto k = some (min len (start k bs - off), filled src buf (min len (start k bs - off)))

  upto-at : (k n : ℕ) → min len (start k bs - off) ≡ n → some (n, filled src buf n) ≡ upto k
  upto-at k n e = rw e refl

  -- After a round either all is read, or the next block is at the place that has been reached.
  round_end :
      (count i r cursor l : ℕ) (b : Text)
      → get_elem? bs i ≡ some b
      → start i bs + cursor ≡ off + r
      → cursor < length b
      → r < len
      → l ≡ min (length b - cursor) (len - r)
      → (start (i + 1) bs ≡ off + (r + l)
          → r + l < len
          → read_blocks c fd off first begin count
              (i + 1)
              (len - (r + l))
              (r + l)
              (filled src buf (r + l))
            ≡ upto (i + suc count))
      → (if (len - r) - l == 0
          then some (r + l, filled src buf (r + l))
          else read_blocks c fd off first begin count
              (i + 1)
              ((len - r) - l)
              (r + l)
              (filled src buf (r + l)))
        ≡ upto (i + suc count)
  round_end count i r cursor l b found here inner more amount rest =
      let next : start (i + 1) bs ≡ start i bs + length b =
        (let one : i + 1 ≡ suc i = omega arith in
          ap (λ k. start k bs) one ∙ start-suc i bs b found) in
      elim (Bool-cases ((len - r) - l == 0)) [
        | inl all ↦
            let grows = start_mono (i + 1) (i + suc count) bs (omega arith) in
            rw all (upto-at (i + suc count) (r + l) (ground arith))
        | inr short ↦
            let left : (len - r) - l ≡ len - (r + l) = omega arith in
            rw (short, left) (rest (ground arith) (ground arith))
      ]

  later_blocks :
      (count i r : ℕ)
      → first < i
      → start i bs ≡ off + r
      → r < len
      → i + count ≤ length bs
      → ((j : ℕ) (b : Text) → get_elem? bs j ≡ some b → 0 < length b)
      → read_blocks c fd off first begin count i (len - r) r (filled src buf r) ≡ upto (i + count)
  unfolding read_blocks
  later_blocks zero i r past here more fits solid =
      let same : i + 0 ≡ i = omega arith in upto-at (i + 0) r (rw same (omega arith))
  later_blocks (suc count) i r past here more fits solid =
      let (b, found) = get_elem?-lt bs i (omega arith) in
      let l = min (length b - 0) (len - r) in
      let other : (i == first) ≡ false = ground arith in
      let at : (if i == first && ltb 0 (length b) then (off + 2 ^ 64 - begin) % 2 ^ 64 else 0) ≡ 0 =
        rw other refl in
      let next : i + suc count ≡ (i + 1) + count = omega arith in
      read_step count i r 0 l b found at (omega arith) (solid i b found) more refl
      ∙ round_end count i r 0 l b found (omega arith) (solid i b found) more refl (λ here' more'.
        later_blocks count (i + 1) (r + l) (omega arith) here' more' (omega arith) solid
        ∙ ap upto (sym next))

  -- The loop from the first block on.
  pub blocks_from :
      (count : ℕ)
      → start first bs ≡ begin
      → start first bs ≤ off
      → off < start (first + 1) bs
      → 0 < len
      → first + count ≤ length bs
      → ((j : ℕ) (b : Text) → get_elem? bs j ≡ some b → 0 < length b)
      → read_blocks c fd off first begin count first len 0 buf ≡ upto (first + count)
  unfolding read_blocks
  blocks_from zero is_begin low high some_len fits solid =
      let same : first + 0 ≡ first = omega arith in upto-at (first + 0) 0 (rw same (omega arith))
  blocks_from (suc count) is_begin low high some_len fits solid =
      let (b, found) = get_elem?-lt bs first (omega arith) in
      let cursor = off - begin in
      let l = min (length b - cursor) (len - 0) in
      let size : start (first + 1) bs ≡ start first bs + length b =
        (let one : first + 1 ≡ suc first = omega arith in
          ap (λ k. start k bs) one ∙ start-suc first bs b found) in
      let some_bytes : ltb 0 (length b) ≡ true = lt→ltb 0 (length b) (solid first b found) in
      let it_is : (first == first) ≡ true = ground arith in
      let wrapped : (off + 2 ^ 64 - begin) % 2 ^ 64 ≡ cursor = omega arith in
      let at : (if first == first && ltb 0 (length b) then (off + 2 ^ 64 - begin) % 2 ^ 64 else 0)
          ≡ cursor =
        rw (it_is, some_bytes) wrapped in
      let next : first + suc count ≡ (first + 1) + count = omega arith in
      let whole : len ≡ len - 0 = omega arith in
      ap (λ n. read_blocks c fd off first begin (suc count) first n 0 buf) whole
      ∙ read_step count first 0 cursor l b found at (omega arith) (omega arith) some_len refl
      ∙ round_end count first 0 cursor l b found (omega arith) (omega arith) some_len refl
          (λ here' more'.
            later_blocks count (first + 1) (0 + l) (omega arith) here' more' (omega arith) solid
            ∙ ap upto (sym next))
