-- ===== src/Base/Bytes.antt =====
-- Text as the list of its bytes, which is what the program compares, splits and concatenates.
use Prim.Native.Nat.{ℕ, zero, suc, ◌+◌, ◌/◌, ◌%◌, ◌<◌}
use Prim.Native.Char.{code}
use Prim.Native.String.{String}
use mathlib.Core.Path.{◌≡◌, refl}
use mathlib.Core.Logic.{◌↔◌}
use mathlib.Core.Bool.{Bool, true, false, ◌&&◌}
use mathlib.Core.List.{List, [], ◌∷◌}
use native.Mathlib.Omega.{arith}
use velox_dfs.Base.Lists.{All, take, drop}
use velox_dfs.Base.Tests.{◌==◌, ltb, if◌then◌else◌}

abbrev pub Text : Type 0
Text = List ℕ

abbrev pub text : String → Text
text String.[] = []
text (String.◌∷◌ c s) = code c ∷ text s

abbrev pub text_eq : Text → Text → Bool
text_eq [] [] = true
text_eq (a ∷ s) (b ∷ t) = a == b && text_eq s t
text_eq _ _ = false

pub text_eq→eq : (s t : Text) → text_eq s t ≡ true → s ≡ t
text_eq→eq [] [] h = refl
text_eq→eq (a ∷ s) (b ∷ t) h = ground (arith, text_eq→eq s t)
text_eq→eq [] (b ∷ t) h = cc
text_eq→eq (a ∷ s) [] h = cc

pub text_eq_refl : (s : Text) → text_eq s s ≡ true
text_eq_refl [] = refl
text_eq_refl (a ∷ s) = ground (arith, text_eq_refl s)

pub text_eq_iff : (s t : Text) → (text_eq s t ≡ true) ↔ (s ≡ t)
text_eq_iff s t = (text_eq→eq s t, λ e. rw e (text_eq_refl t))

-- No byte is zero.
abbrev pub IsZeroFree : Text → Type 0
IsZeroFree s = All (λ c. 0 < c) s

pub take-All : (n : ℕ) (s : Text) → IsZeroFree s → IsZeroFree (take n s)
take-All zero s h = tt
take-All (suc n) [] h = tt
take-All (suc n) (c ∷ s) h = (h.0, take-All n s h.1)

pub drop-All : (n : ℕ) (s : Text) → IsZeroFree s → IsZeroFree (drop n s)
drop-All zero s h = h
drop-All (suc n) [] h = tt
drop-All (suc n) (c ∷ s) h = drop-All n s h.1

-- The decimal digits of a number, most significant first: `std::to_string`. A value below `fuel`
-- has fewer digits than `fuel`.
unfoldable digits_of : ℕ → ℕ → Text → Text
digits_of zero n acc = acc
digits_of (suc fuel) n acc =
    let rest = digits_of fuel (n / 10) ((48 + n % 10) ∷ acc) in
    if ltb n 10 then (48 + n % 10) ∷ acc else rest

unfoldable pub to_string : ℕ → Text
unfolding digits_of
to_string n = digits_of (n + 1) n []

-- Paths, as the list of their components.
abbrev pub FilePath : Type 0
FilePath = List Text

abbrev pub path_eq : FilePath → FilePath → Bool
path_eq [] [] = true
path_eq (a ∷ s) (b ∷ t) = text_eq a b && path_eq s t
path_eq _ _ = false

pub path_eq→eq : (s t : FilePath) → path_eq s t ≡ true → s ≡ t
path_eq→eq [] [] h = refl
path_eq→eq (a ∷ s) (b ∷ t) h = ground (arith, text_eq→eq a b, path_eq→eq s t)
path_eq→eq [] (b ∷ t) h = cc
path_eq→eq (a ∷ s) [] h = cc

pub path_eq_refl : (s : FilePath) → path_eq s s ≡ true
path_eq_refl [] = refl
path_eq_refl (a ∷ s) = ground (arith, text_eq_refl a, path_eq_refl s)
