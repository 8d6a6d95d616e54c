-- ===== src/Histogram/Random.antt =====
-- Where the keys fall that `random_within_boundaries` draws.
use velox_dfs.Base.{
  ℕ, zero, suc, ◌+◌, ◌-◌, ◌%◌, ◌^◌, ◌≤◌, ◌<◌, ◌≡◌, inl, inr, List, [], ◌∷◌, none, some, get_elem?,
  arith, Bool-cases, length, get_elem?-lt, ◌==◌, if◌then◌else◌, ◌>>=◌,
}
use velox_dfs.Histogram.{Histogram, get_index, draw_within, random_within_boundaries}
use velox_dfs.Histogram.Lookup.{Owns, get_index_iff}

-- The boundaries rise strictly, from above `low`, and fit 32 bits.
abbrev pub IsRising : ℕ → List ℕ → Type 0
IsRising low [] = Unit {0}
IsRising low (b ∷ bs) = (low < b) × (b < 4294967296) × IsRising b bs

IsRising-lt :
    (bs : List ℕ) (low i b : ℕ)
    → IsRising low bs
    → get_elem? bs i ≡ some b
    → (low < b) × (b < 4294967296)
IsRising-lt [] low i b r e = absurd (cc)
IsRising-lt (c ∷ bs) low zero b r e = ground arith
IsRising-lt (c ∷ bs) low (suc i) b r e = ground (arith, IsRising-lt bs c i b r.2 e)

-- A key up to the boundary of i, and above the boundary before, is owned by i.
Owns-zero :
    (bs : List ℕ) (key upper : ℕ) → get_elem? bs 0 ≡ some upper → key ≤ upper → Owns bs 0 key
Owns-zero [] key upper e h = absurd (cc)
Owns-zero (b ∷ bs) key upper e h = ground arith

Owns-suc :
    (bs : List ℕ) (low i key lower upper : ℕ)
    → IsRising low bs
    → get_elem? bs i ≡ some lower
    → get_elem? bs (suc i) ≡ some upper
    → lower < key
    → key ≤ upper
    → Owns bs (suc i) key
Owns-suc [] low i key lower upper r p q g h = absurd (cc)
Owns-suc (b ∷ bs) low zero key lower upper r p q g h = (ground arith, Owns-zero bs key upper q h)
Owns-suc (b ∷ bs) low (suc i) key lower upper r p q g h =
    (omega (arith, IsRising-lt bs b i lower r.2 p), Owns-suc bs b i key lower upper r.2 p q g h)

Owns-at :
    (bs : List ℕ) (low i key upper : ℕ)
    → IsRising low bs
    → get_elem? bs i ≡ some upper
    → key ≡ upper
    → Owns bs i key
Owns-at [] low i key upper r e h = absurd (cc)
Owns-at (b ∷ bs) low zero key upper r e h = ground arith
Owns-at (b ∷ bs) low (suc i) key upper r e h =
    (omega (arith, IsRising-lt bs b i upper r.2 e), Owns-at bs b i key upper r.2 e h)

IsRising-step :
    (bs : List ℕ) (low i lower upper : ℕ)
    → IsRising low bs
    → get_elem? bs i ≡ some lower
    → get_elem? bs (suc i) ≡ some upper
    → (lower < upper) × (upper < 4294967296)
IsRising-step [] low i lower upper r p q = absurd (cc)
IsRising-step (b ∷ bs) low zero lower upper r p q = ground (arith, IsRising-lt bs b 0 upper r.2 q)
IsRising-step (b ∷ bs) low (suc i) lower upper r p q = IsRising-step bs b i lower upper r.2 p q

draw_below :
    (draw lower upper key : ℕ)
    → lower < upper
    → upper < 4294967296
    → draw_within draw lower upper ≡ some key
    → (key ≡ draw % (upper - lower) + lower) × (key < upper)
unfolding draw_within
draw_below draw lower upper key h f e =
    let same : (upper + 2 ^ 32 - lower) % 2 ^ 32 ≡ upper - lower = omega arith in
    let e' : (if upper - lower == 0 then none else some ((draw % (upper - lower) + lower) % 2 ^ 32))
        ≡ some key =
      rw (same, draw_within) at e in
    grind arith

draw_total :
    (draw lower upper : ℕ)
    → (lower < upper) × (upper < 4294967296)
    → (key : ℕ) × (draw_within draw lower upper ≡ some key)
unfolding draw_within
draw_total draw lower upper (h, f) =
    let same : (upper + 2 ^ 32 - lower) % 2 ^ 32 ≡ upper - lower = omega arith in
    ((draw % (upper - lower) + lower) % 2 ^ 32, rw (same, draw_within) (ground arith))

random_zero :
    (hist : Histogram) (draw key upper : ℕ)
    → IsRising 0 hist.boundaries
    → get_elem? hist.boundaries 0 ≡ some upper
    → random_within_boundaries hist draw 0 ≡ some key
    → (key ≡ draw % (upper - 0) + 0) × (key < upper)
unfolding random_within_boundaries
random_zero hist draw key upper r p e =
    let (h, f) = IsRising-lt hist.boundaries 0 0 upper r p in
    draw_below draw 0 upper key h f (rw (p, ◌>>=◌) at e)

random_suc :
    (hist : Histogram) (draw i key lower upper : ℕ)
    → IsRising 0 hist.boundaries
    → get_elem? hist.boundaries i ≡ some lower
    → get_elem? hist.boundaries (suc i) ≡ some upper
    → random_within_boundaries hist draw (suc i) ≡ some key
    → (key ≡ draw % (upper - lower) + lower) × (key < upper)
unfolding random_within_boundaries
random_suc hist draw i key lower upper r p q e =
    let (h, f) = IsRising-step hist.boundaries 0 i lower upper r p q in
    draw_below draw lower upper key h f (rw (p, q, ◌>>=◌) at e)

-- With boundaries that rise strictly, a key drawn for the first server is owned by it.
pub random_first_owned :
    (hist : Histogram) (draw key upper : ℕ)
    → IsRising 0 hist.boundaries
    → get_elem? hist.boundaries 0 ≡ some upper
    → random_within_boundaries hist draw 0 ≡ some key
    → get_index hist key ≡ some 0
random_first_owned hist draw key upper r p e =
    let (k, below) = random_zero hist draw key upper r p e in
    let found = (get_index_iff hist key 0).1 in
    found (Owns-zero hist.boundaries key upper p (omega arith))

-- With boundaries that rise strictly, a key drawn for a later server i + 1 is owned by it, unless the
-- draw is a multiple of the range: then the key is the boundary of server i, and i owns it.
pub random_later_owned :
    (hist : Histogram) (draw i key lower upper : ℕ)
    → IsRising 0 hist.boundaries
    → get_elem? hist.boundaries i ≡ some lower
    → get_elem? hist.boundaries (suc i) ≡ some upper
    → random_within_boundaries hist draw (suc i) ≡ some key
    → get_index hist key ≡ (if draw % (upper - lower) == 0 then some i else some (suc i))
random_later_owned hist draw i key lower upper r p q e =
    let (k, below) = random_suc hist draw i key lower upper r p q e in
    elim (Bool-cases (draw % (upper - lower) == 0)) [
      | inl z ↦
          rw z (
            (get_index_iff hist key i).1 (Owns-at hist.boundaries 0 i key lower r p (ground arith)))
      | inr z ↦ rw z (
          (get_index_iff hist key (suc i)).1
            (Owns-suc hist.boundaries 0 i key lower upper r p q (ground arith) (omega arith)))
    ]

-- With boundaries that rise strictly, a draw for a server succeeds.
pub random_total :
    (hist : Histogram) (draw i : ℕ)
    → IsRising 0 hist.boundaries
    → i < length hist.boundaries
    → (key : ℕ) × (random_within_boundaries hist draw i ≡ some key)
unfolding random_within_boundaries
random_total hist draw zero r h =
    let (upper, p) = get_elem?-lt hist.boundaries 0 h in
    let (key, e) = draw_total draw 0 upper (IsRising-lt hist.boundaries 0 0 upper r p) in
    (key, rw (p, ◌>>=◌) e)
random_total hist draw (suc i) r h =
    let (lower, p) = get_elem?-lt hist.boundaries i (omega arith) in
    let (upper, q) = get_elem?-lt hist.boundaries (suc i) h in
    let (key, e) =
      draw_total draw lower upper (IsRising-step hist.boundaries 0 i lower upper r p q) in
    (key, rw (p, q, ◌>>=◌) e)
