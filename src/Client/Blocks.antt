-- ===== src/Client/Blocks.antt =====
-- `read_physical` as a whole: a range of the file, whatever the blocks it is cut into.
use velox_dfs.Base.{
  ℕ, zero, suc, ◌+◌, ◌-◌, ◌%◌, ◌^◌, ◌<◌, ◌≤◌, ◌≡◌, ◌≢◌, ◌⊎◌, refl, ap, ◌∙◌, true, false, List, [],
  ◌∷◌, ◌++◌, map, some, Text, take, drop, concat, min, length, get_elem?, lt→ltb, ltb, leb, arith,
  length-append, inl, inr, dec_lt,
}
use velox_dfs.Messages.{FileDescription}
use velox_dfs.Client.{Cluster, find_begin, find_end, read_blocks, read_physical}
use velox_dfs.Client.Range.{start, start_mono, start_all}
use velox_dfs.Client.Loop.{IsServed, blocks_from}

find_begin_here :
    (off total i size : ℕ) (sizes : List ℕ)
    → total + size < 2 ^ 64
    → off < total + size
    → find_begin off total i (size ∷ sizes) ≡ (i, total)
unfolding find_begin
find_begin_here off total i size sizes h f =
    let sum : (total + size) % 2 ^ 64 ≡ total + size = omega arith in
    let here = lt→ltb off (total + size) f in
    let back : (total + size + 2 ^ 64 - size) % 2 ^ 64 ≡ total = omega arith in
    rw (sum, here, back) refl

find_begin_there :
    (off total i size : ℕ) (sizes : List ℕ)
    → total + size < 2 ^ 64
    → total + size ≤ off
    → find_begin off total i (size ∷ sizes) ≡ find_begin off (total + size) (i + 1) sizes
unfolding find_begin
find_begin_there off total i size sizes h f =
    let sum : (total + size) % 2 ^ 64 ≡ total + size = omega arith in
    let there : ltb off (total + size) ≡ false = ground arith in rw (sum, there) refl

find_begin_lem :
    (bs : List Text) (off total i : ℕ)
    → total ≤ off
    → off < total + length (concat bs)
    → total + length (concat bs) < 2 ^ 63
    → (k : ℕ) × (find_begin off total i (map length bs) ≡ (i + k, total + start k bs))
      × (total + start k bs ≤ off)
      × (off < total + start (suc k) bs)
      × (k < length bs)
find_begin_lem [] off total i h f s = absurd (omega arith)
find_begin_lem (b ∷ bs) off total i h f s =
    let size = length-append b (concat bs) in
    elim (dec_lt off (total + length b)) [
      | yes here ↦
          let first = find_begin_here off total i (length b) (map length bs) (omega arith) here in
          let same : i ≡ i + 0 = omega arith in
          let low : total ≡ total + 0 = omega arith in
          (
            0,
            first ∙ ap (λ n. (n, total)) same ∙ ap (λ n. (i + 0, n)) low,
            omega arith,
            omega arith,
            omega arith,
          )
      | no there ↦
          let (k, e, low, high, inside) =
            find_begin_lem bs off (total + length b) (i + 1) (omega arith) (omega arith)
              (omega arith) in
          let step =
            find_begin_there off total i (length b) (map length bs) (omega arith) (omega arith) in
          let next : i + 1 + k ≡ i + suc k = omega arith in
          let far : total + length b + start k bs ≡ total + (length b + start k bs) = omega arith in
          (
            suc k,
            step
                ∙ e
                ∙ ap (λ n. (n, total + length b + start k bs)) next
                ∙ ap (λ n. (i + suc k, n)) far,
            omega arith,
            omega arith,
            omega arith,
          )
    ]

find_end_here :
    (bound total i size next : ℕ) (sizes : List ℕ)
    → total + size < 2 ^ 64
    → bound ≤ total + size
    → find_end bound total i (size ∷ next ∷ sizes) ≡ i
unfolding find_end
find_end_here bound total i size next sizes h f =
    let sum : (total + size) % 2 ^ 64 ≡ total + size = omega arith in
    let here : leb bound (total + size) ≡ true = ground arith in rw (sum, here) refl

find_end_there :
    (bound total i size next : ℕ) (sizes : List ℕ)
    → total + size < 2 ^ 64
    → total + size < bound
    → find_end bound total i (size ∷ next ∷ sizes)
      ≡ find_end bound (total + size) (i + 1) (next ∷ sizes)
unfolding find_end
find_end_there bound total i size next sizes h f =
    let sum : (total + size) % 2 ^ 64 ≡ total + size = omega arith in
    let there : leb bound (total + size) ≡ false = ground arith in rw (sum, there) refl

find_end_last : (bound total i size : ℕ) → find_end bound total i (size ∷ []) ≡ i + 0
unfolding find_end
find_end_last bound total i size = omega arith

ended_before :
    (bs : List Text) (b : Text) (bound total e : ℕ)
    → total + length b < bound
    → ((m : ℕ) → m < e → total + length b + start (suc m) bs < bound)
    → (j : ℕ) → j < suc e
    → total + start (suc j) (b ∷ bs) < bound
ended_before bs b bound total e h before zero k = omega arith
ended_before bs b bound total e h before (suc j) k = omega (arith, before j (omega arith))

-- The last block found is the first that ends at `bound` or later, or the last of all.
find_end_lem :
    (bs : List Text) (bound total i : ℕ)
    → 0 < length bs
    → total + length (concat bs) < 2 ^ 63
    → (e : ℕ) × (find_end bound total i (map length bs) ≡ i + e)
      × (e < length bs)
      × ((j : ℕ) → j < e → total + start (suc j) bs < bound)
      × ((bound ≤ total + start (suc e) bs) ⊎ (suc e ≡ length bs))
find_end_lem [] bound total i h s = absurd (omega arith)
find_end_lem (b ∷ []) bound total i h s =
    (0, find_end_last bound total i (length b), omega arith, λ j k. absurd (omega arith), inr refl)
find_end_lem (b ∷ b' ∷ bs) bound total i h s =
    let size = length-append b (concat (b' ∷ bs)) in
    elim (dec_lt (total + length b) bound) [
      | no here ↦
          let same : i ≡ i + 0 = omega arith in
          (
            0,
            find_end_here bound total i (length b) (length b') (map length bs) (omega arith)
                  (omega arith)
                ∙ same,
            omega arith,
            λ j k. absurd (omega arith),
            inl (omega arith),
          )
      | yes there ↦
          let (e, found, inside, before, reached) =
            find_end_lem (b' ∷ bs) bound (total + length b) (i + 1) (omega arith) (omega arith) in
          let next : i + 1 + e ≡ i + suc e = omega arith in
          (
            suc e,
            find_end_there bound total i (length b) (length b') (map length bs) (omega arith) there
                ∙ found
                ∙ next,
            omega arith,
            ended_before (b' ∷ bs) b bound total e there before,
            elim reached [ inl far ↦ inl (omega arith) | inr all ↦ inr (omega arith) ],
          )
    ]

-- What is read of a range ends with the last block found.
range_end :
    (bs : List Text) (off len first e : ℕ)
    → 0 < len
    → off + len ≤ length (concat bs)
    → start first bs ≤ off
    → e < length bs
    → ((j : ℕ) → j < e → start (suc j) bs < off + len - 1)
    → (off + len - 1 ≤ start (suc e) bs) ⊎ (suc e ≡ length bs)
    → let n = min len (start (first + (e + 1 - first)) bs - off) in
      (((k : ℕ) → start (suc k) bs ≢ off + len - 1) → n ≡ len)
      × ((k : ℕ) → start (suc k) bs ≡ off + len - 1 → n + 1 ≡ len)
range_end bs off len first e some_len inside low within before reached = (
  λ apart. elim (dec_lt (e + 1) first) [
    | yes behind ↦
        let grows = start_mono (suc e) first bs (omega arith) in
        absurd (apart e (omega (arith, far)))
    | no ahead ↦ let end : first + (e + 1 - first) ≡ suc e = omega arith in rw end (whole (apart e))
  ],
  λ k at. elim (dec_lt k e) [
    | yes sooner ↦ absurd (omega (arith, before k sooner))
    | no later ↦
        let grows = start_mono (suc e) (suc k) bs (omega arith) in
        elim (dec_lt (e + 1) first) [
          | yes behind ↦
              let up = start_mono (suc e) first bs (omega arith) in
              let end : first + (e + 1 - first) ≡ first = omega arith in rw end (omega (arith, far))
          | no ahead ↦
              let end : first + (e + 1 - first) ≡ suc e = omega arith in rw end (omega (arith, far))
        ]
  ],
)
  where
    far : off + len - 1 ≤ start (suc e) bs
    far = elim reached [
      | inl h ↦ h
      | inr all ↦ let same = ap (λ k. start k bs) all ∙ start_all bs in omega arith
    ]

    whole : start (suc e) bs ≢ off + len - 1 → min len (start (suc e) bs - off) ≡ len
    whole apart = grind (arith, far)

read_physical_parts :
    (c : Cluster) (fd : FileDescription) (off len first begin e : ℕ) (buf : Text)
    → find_begin off 0 0 fd.block_size ≡ (first, begin)
    → find_end (off + len - 1) 0 0 fd.block_size ≡ e
    → off < fd.size
    → 0 < len
    → off + len < 2 ^ 64
    → read_physical c fd off len buf
      ≡ read_blocks c fd off first begin (e + 1 - first) first len 0 buf
unfolding read_physical
read_physical_parts c fd off len first begin e buf at_begin at_end inside some_len small =
    let at : min off fd.size ≡ off = omega arith in
    let wrapped : (off + len + 2 ^ 64 - 1) % 2 ^ 64 ≡ off + len - 1 = omega arith in
    let before_end : leb fd.size off ≡ false = ground arith in
    rw (at, wrapped, before_end, at_begin, at_end) refl

from_zero : (a b : ℕ) → ◌≡◌ {A = ℕ × ℕ} (0 + a, 0 + b) (a, b)
from_zero a b = let p : 0 + a ≡ a = omega arith in let q : 0 + b ≡ b = omega arith in rw (p, q) refl

-- A range of one byte or more of a file of less than 2^63 bytes, all blocks served and none empty, is read into a buffer
-- that is large enough: the first n bytes of the range come to the front of the buffer, and the rest of
-- the buffer is as it was. n is the whole length, unless a block ends one byte before the range does:
-- then n is one less.
pub read_physical_lem :
    (c : Cluster) (fd : FileDescription) (bs : List Text) (off len : ℕ) (buf : Text)
    → IsServed c fd bs
    → fd.block_size ≡ map length bs
    → fd.size ≡ length (concat bs)
    → length (concat bs) < 2 ^ 63
    → ((j : ℕ) (b : Text) → get_elem? bs j ≡ some b → 0 < length b)
    → 0 < len
    → off + len ≤ length (concat bs)
    → len ≤ length buf
    → (n : ℕ) × (read_physical c fd off len buf
        ≡ some (n, take n (drop off (concat bs)) ++ drop n buf))
      × (((k : ℕ) → start (suc k) bs ≢ off + len - 1) → n ≡ len)
      × ((k : ℕ) → start (suc k) bs ≡ off + len - 1 → n + 1 ≡ len)
read_physical_lem c fd bs off len buf served sizes size small solid some_len inside room =
    let (first, begins, low, high, in_first) =
      find_begin_lem bs off 0 0 (omega arith) (omega arith) (omega arith) in
    let (e, ends, in_last, before, reached) =
      find_end_lem bs (off + len - 1) 0 0 (omega arith) (omega arith) in
    let tidy = from_zero first (start first bs) in
    let last : 0 + e ≡ e = omega arith in
    let parts =
      read_physical_parts c fd off len first (start first bs) e buf
        (ap (find_begin off 0 0) sizes ∙ begins ∙ tidy)
        (ap (find_end (off + len - 1) 0 0) sizes ∙ ends ∙ last) (omega arith) some_len
        (omega arith) in
    let below : (j : ℕ) → j < e → start (suc j) bs < off + len - 1 =
      λ j k. omega (arith, before j k) in
    let found : (off + len - 1 ≤ start (suc e) bs) ⊎ (suc e ≡ length bs) = elim reached [
      | inl h ↦ inl (omega arith)
      | inr h ↦ inr h
    ] in
    let high' : off < start (first + 1) bs =
      (let one : first + 1 ≡ suc first = omega arith in rw one (omega arith)) in
    let (full, short) =
      range_end bs off len first e some_len inside (omega arith) in_last below found in
    (
      min len (start (first + (e + 1 - first)) bs - off),
      parts
          ∙ blocks_from c fd bs served small off len first (start first bs) buf inside room
              (e + 1 - first) refl (omega arith) high' some_len (omega arith) solid,
      full,
      short,
    )
