-- ===== src/Client/Range.antt =====
-- Ranges of a file that is cut into blocks, and the buffer that a range is read into.
use mathlib.Core.List.{append_assoc}
use velox_dfs.Base.{
  ℕ, zero, suc, ◌+◌, ◌≤◌, ◌≡◌, refl, ap, sym, ◌∙◌, false, List, [], ◌∷◌, ◌++◌, some, Text, take,
  drop, concat, length, get_elem?, ltb, arith, length-take, length-drop, length-append,
  take-append_le, take_all, drop-append, drop-drop, some-injective,
}
use velox_dfs.Client.{put_at}

-- Where block i begins.
abbrev pub start : ℕ → List Text → ℕ
start zero bs = 0
start (suc i) [] = 0
start (suc i) (b ∷ bs) = length b + start i bs

pub start-suc :
    (i : ℕ) (bs : List Text) (b : Text)
    → get_elem? bs i ≡ some b
    → start (suc i) bs ≡ start i bs + length b
start-suc i [] b e = absurd (cc)
start-suc zero (x ∷ bs) b e = let same : x ≡ b = some-injective _ _ e in rw same (omega arith)
start-suc (suc i) (x ∷ bs) b e = omega (arith, start-suc i bs b e)

pub start_mono : (i j : ℕ) (bs : List Text) → i ≤ j → start i bs ≤ start j bs
start_mono zero j bs h = omega arith
start_mono (suc i) zero bs h = absurd (omega arith)
start_mono (suc i) (suc j) [] h = omega arith
start_mono (suc i) (suc j) (b ∷ bs) h = omega (arith, start_mono i j bs (omega arith))

pub start-length : (i : ℕ) (bs : List Text) → start i bs ≤ length (concat bs)
start-length zero bs = omega arith
start-length (suc i) [] = omega arith
start-length (suc i) (b ∷ bs) = omega (arith, start-length i bs, length-append b (concat bs))

pub start_all : (bs : List Text) → start (length bs) bs ≡ length (concat bs)
start_all [] = refl
start_all (b ∷ bs) = omega (arith, start_all bs, length-append b (concat bs))

drop-append_le : (n : ℕ) (xs ys : Text) → n ≤ length xs → drop n (xs ++ ys) ≡ drop n xs ++ ys
drop-append_le zero xs ys h = refl
drop-append_le (suc n) [] ys h = absurd (omega arith)
drop-append_le (suc n) (x ∷ xs) ys h = drop-append_le n xs ys (omega arith)

-- A range of a block is a range of the file.
pub slice_block :
    (bs : List Text) (i cursor l : ℕ) (b : Text)
    → get_elem? bs i ≡ some b
    → cursor + l ≤ length b
    → take l (drop (start i bs + cursor) (concat bs)) ≡ take l (drop cursor b)
slice_block [] i cursor l b e h = absurd (cc)
slice_block (x ∷ bs) zero cursor l b e h =
    let same : x ≡ b = some-injective _ _ e in
    let at : 0 + cursor ≡ cursor = omega arith in
    rw (at, same, drop-append_le cursor b (concat bs) (omega arith))
      (take-append_le l (drop cursor b) (concat bs) (omega (arith, length-drop cursor b)))
slice_block (x ∷ bs) (suc i) cursor l b e h =
    let far : length x + start i bs + cursor ≡ length x + (start i bs + cursor) = omega arith in
    ap (λ n. take l (drop n (x ++ concat bs))) far
    ∙ ap (take l) (sym (drop-drop (start i bs + cursor) (length x) (x ++ concat bs)))
    ∙ ap (λ t. take l (drop (start i bs + cursor) t)) (drop-append x (concat bs) (length x) refl)
    ∙ slice_block bs i cursor l b e h

take-add : (a b : ℕ) (xs : Text) → take a xs ++ take b (drop a xs) ≡ take (a + b) xs
take-add zero b xs = let e : 0 + b ≡ b = omega arith in rw e refl
take-add (suc a) zero [] = let e : suc a + 0 ≡ suc a = omega arith in rw e refl
take-add (suc a) (suc b) [] = let e : suc a + suc b ≡ suc (a + suc b) = omega arith in rw e refl
take-add (suc a) b (x ∷ xs) =
    let e : suc a + b ≡ suc (a + b) = omega arith in rw e (ap (◌∷◌ x) (take-add a b xs))

-- The buffer after r bytes of `src` have been read into it.
abbrev pub filled : Text → Text → ℕ → Text
filled src buf r = take r src ++ drop r buf

length-filled :
    (src buf : Text) (r : ℕ)
    → r ≤ length src
    → r ≤ length buf
    → length (filled src buf r) ≡ length buf
length-filled src buf r h k =
    omega (arith, length-append (take r src) (drop r buf), length-take r src, length-drop r buf)

take-filled : (src buf : Text) (r : ℕ) → r ≤ length src → take r (filled src buf r) ≡ take r src
take-filled src buf r h =
    let long : r ≡ length (take r src) = omega (arith, length-take r src) in
    take-append_le r (take r src) (drop r buf) (omega arith)
    ∙ ap (λ n. take n (take r src)) long
    ∙ take_all (take r src)

drop-filled :
    (src buf : Text) (r l : ℕ) → r ≤ length src → drop (r + l) (filled src buf r) ≡ drop (r + l) buf
drop-filled src buf r l h =
    let long : r ≡ length (take r src) = omega (arith, length-take r src) in
    sym (drop-drop l r (filled src buf r))
    ∙ ap (drop l) (drop-append (take r src) (drop r buf) r long)
    ∙ drop-drop l r buf

-- The next l bytes are read behind them.
pub put_at-filled :
    (src buf bytes : Text) (r l : ℕ)
    → bytes ≡ take l (drop r src)
    → r + l ≤ length src
    → r + l ≤ length buf
    → put_at (filled src buf r) r bytes ≡ some (filled src buf (r + l))
unfolding put_at
put_at-filled src buf bytes r l same h k =
    let size : length bytes ≡ l =
      ap length same ∙ omega (arith, length-take l (drop r src), length-drop r src) in
    let fits : ltb (length (filled src buf r)) (r + l) ≡ false =
      ground (arith, length-filled src buf r (omega arith) (omega arith)) in
    rw (size, fits) (ap some joined)
  where
    joined :
        take r (filled src buf r) ++ (bytes ++ drop (r + l) (filled src buf r))
        ≡ filled src buf (r + l)
    joined =
        rw (take-filled src buf r (omega arith), drop-filled src buf r l (omega arith), same)
          (sym (append_assoc (take r src) (take l (drop r src)) (drop (r + l) buf))
            ∙ ap (λ t. t ++ drop (r + l) buf) (take-add r l src))
