-- ===== src/Hash/Names.antt =====
-- Which names have one hash.
use velox_dfs.Base.{
  ℕ, zero, suc, ◌≡◌, ◌≢◌, refl, ap, sym, ◌∙◌, false, [], ◌∷◌, ◌++◌, Text, take, replicate, All,
  arith, ◌==◌,
}
use velox_dfs.Disk.{padded}
use velox_dfs.Hash.{h, h_string, hash_ruby, before_zero, hash_length}

padded-take : (n : ℕ) (s : Text) → padded n s ≡ padded n (take n s)
unfolding padded
padded-take zero s = refl
padded-take (suc n) [] = refl
padded-take (suc n) (c ∷ s) = ap (◌∷◌ c) (padded-take n s)

padded-take_same : (n : ℕ) (s t : Text) → take n s ≡ take n t → padded n s ≡ padded n t
padded-take_same n s t e = padded-take n s ∙ ap (padded n) e ∙ sym (padded-take n t)

padded-zeros : (n k : ℕ) (s : Text) → padded n (s ++ replicate k 0) ≡ padded n s
unfolding padded
padded-zeros zero k s = refl
padded-zeros (suc n) zero [] = refl
padded-zeros (suc n) (suc k) [] = ap (◌∷◌ 0) (padded-zeros n k [])
padded-zeros (suc n) k (c ∷ s) = ap (◌∷◌ c) (padded-zeros n k s)

-- Names that agree in their first 64 bytes have one hash, and so have such names with any number of
-- zero bytes behind each.
pub h_string-same :
    (s t : Text) (j k : ℕ)
    → take 64 s ≡ take 64 t
    → h_string (s ++ replicate j 0) ≡ h_string (t ++ replicate k 0)
unfolding h_string
h_string-same s t j k e = ap h (
    padded-zeros hash_length j s
    ∙ padded-take_same hash_length s t e
    ∙ sym (padded-zeros hash_length k t))

before_zero_same : (s : Text) → All (λ c. c ≢ 0) s → before_zero s ≡ s
unfolding before_zero
before_zero_same [] a = refl
before_zero_same (c ∷ s) a =
    let other : (c == 0) ≡ false = ground arith in rw other (ap (◌∷◌ c) (before_zero_same s a.1))

-- On a name without a zero byte the two hash functions agree.
pub hash_ruby-h_string : (s : Text) → All (λ c. c ≢ 0) s → hash_ruby s ≡ h_string s
unfolding hash_ruby h_string
hash_ruby-h_string s a = ap (λ t. h (padded hash_length t)) (before_zero_same s a)
