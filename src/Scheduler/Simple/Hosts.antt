-- ===== src/Scheduler/Simple/Hosts.antt =====
-- The set of hosts holds each host of the list once.
use velox_dfs.Base.{
  ℕ, ◌+◌, ◌≡◌, inl, inr, refl, ap, sym, ◌∙◌, true, false, List, [], ◌∷◌, Text, text_eq,
  text_eq_refl, text_eq→eq, if◌then◌else◌, Bool-cases, arith, All,
}
use velox_dfs.Scheduler.Simple.{text_lt, insert_host, hosts_of}

text_lt_trans : (r s t : Text) → text_lt r s ≡ true → text_lt s t ≡ true → text_lt r t ≡ true
text_lt_trans [] [] t h k = absurd (cc)
text_lt_trans [] (b ∷ s) [] h k = absurd (cc)
text_lt_trans [] (b ∷ s) (c ∷ t) h k = refl
text_lt_trans (a ∷ r) [] t h k = absurd (cc)
text_lt_trans (a ∷ r) (b ∷ s) [] h k = absurd (cc)
text_lt_trans (a ∷ r) (b ∷ s) (c ∷ t) h k = ground (arith, text_lt_trans r s t)

text_lt-total : (s t : Text) → text_eq t s ≡ false → text_lt s t ≡ false → text_lt t s ≡ true
text_lt-total [] [] h k = absurd (cc)
text_lt-total [] (b ∷ t) h k = absurd (cc)
text_lt-total (a ∷ s) [] h k = refl
text_lt-total (a ∷ s) (b ∷ t) h k = ground (arith, text_lt-total s t)

text_lt-ne : (s t : Text) → text_lt s t ≡ true → text_eq s t ≡ false
text_lt-ne [] [] h = absurd (cc)
text_lt-ne [] (b ∷ t) h = refl
text_lt-ne (a ∷ s) [] h = absurd (cc)
text_lt-ne (a ∷ s) (b ∷ t) h = ground (arith, text_lt-ne s t)

abbrev IsSorted : List Text → Type 0
IsSorted [] = Unit {0}
IsSorted (x ∷ xs) = All (λ y. text_lt x y ≡ true) xs × IsSorted xs

abbrev pub occurrences : Text → List Text → ℕ
occurrences t [] = 0
occurrences t (x ∷ xs) = (if text_eq t x then 1 else 0) + occurrences t xs

above-All :
    (r s : Text) (xs : List Text)
    → text_lt r s ≡ true
    → All (λ y. text_lt s y ≡ true) xs
    → All (λ y. text_lt r y ≡ true) xs
above-All r s [] h a = tt
above-All r s (x ∷ xs) h a = (text_lt_trans r s x h a.0, above-All r s xs h a.1)

insert_host-All :
    (r host : Text) (xs : List Text)
    → text_lt r host ≡ true
    → All (λ y. text_lt r y ≡ true) xs
    → All (λ y. text_lt r y ≡ true) (insert_host host xs)
insert_host-All r host [] h a = (h, tt)
insert_host-All r host (x ∷ xs) h a =
    let rest = insert_host-All r host xs h a.1 in
    elim (Bool-cases (text_eq x host)) [
      | inl same ↦ rw same a
      | inr other ↦ elim (Bool-cases (text_lt host x)) [
        | inl low ↦ rw (other, low) (h, a)
        | inr high ↦ rw (other, high) (a.0, rest)
      ]
    ]

insert_host-IsSorted : (host : Text) (xs : List Text) → IsSorted xs → IsSorted (insert_host host xs)
insert_host-IsSorted host [] s = (tt, tt)
insert_host-IsSorted host (x ∷ xs) s =
    let rest = insert_host-IsSorted host xs s.1 in
    elim (Bool-cases (text_eq x host)) [
      | inl same ↦ rw same s
      | inr other ↦ elim (Bool-cases (text_lt host x)) [
        | inl low ↦ rw (other, low) ((low, above-All host x xs low s.0), s)
        | inr high ↦
            let up = text_lt-total host x other high in
            rw (other, high) (insert_host-All x host xs up s.0, rest)
      ]
    ]

hosts_of-IsSorted : (hosts : List Text) → IsSorted (hosts_of hosts)
hosts_of-IsSorted [] = tt
hosts_of-IsSorted (host ∷ hosts) =
    insert_host-IsSorted host (hosts_of hosts) (hosts_of-IsSorted hosts)

occurrences-above :
    (t : Text) (xs : List Text) → All (λ y. text_lt t y ≡ true) xs → occurrences t xs ≡ 0
occurrences-above t [] a = refl
occurrences-above t (x ∷ xs) a =
    let other = text_lt-ne t x a.0 in rw other (omega (arith, occurrences-above t xs a.1))

occurrences-insert_self :
    (host : Text) (xs : List Text) → IsSorted xs → occurrences host (insert_host host xs) ≡ 1
occurrences-insert_self host [] s = rw (text_eq_refl host) refl
occurrences-insert_self host (x ∷ xs) s = elim (Bool-cases (text_eq x host)) [
  | inl same ↦
      let it_is : x ≡ host = text_eq→eq x host same in
      let me : text_eq host x ≡ true = rw it_is (text_eq_refl host) in
      let none_above : occurrences host xs ≡ 0 =
        ap (λ y. occurrences y xs) (sym it_is) ∙ occurrences-above x xs s.0 in
      rw (same, me, none_above) refl
  | inr other ↦ elim (Bool-cases (text_lt host x)) [
    | inl low ↦
        let above = occurrences-above host (x ∷ xs) (low, above-All host x xs low s.0) in
        rw (other, low, text_eq_refl host) (omega (arith, above))
    | inr high ↦
        let up = text_lt-total host x other high in
        let me : text_eq host x ≡ false = elim (Bool-cases (text_eq host x)) [
          | inl e ↦
              let it_is : host ≡ x = text_eq→eq host x e in
              absurd (cc (other, text_eq_refl host, it_is))
          | inr e ↦ e
        ] in
        rw (other, high, me) (omega (arith, occurrences-insert_self host xs s.1))
  ]
]

occurrences-insert_other :
    (t host : Text) (xs : List Text)
    → text_eq t host ≡ false
    → occurrences t (insert_host host xs) ≡ occurrences t xs
occurrences-insert_other t host [] h = rw h refl
occurrences-insert_other t host (x ∷ xs) h = elim (Bool-cases (text_eq x host)) [
  | inl same ↦ rw same refl
  | inr other ↦ elim (Bool-cases (text_lt host x)) [
    | inl low ↦ rw (other, low, h) (omega arith)
    | inr high ↦
        rw (other, high)
          (ap (λ n. (if text_eq t x then 1 else 0) + n) (occurrences-insert_other t host xs h))
  ]
]

once-insert :
    (t host : Text) (xs : List Text)
    → IsSorted xs
    → occurrences t xs ≡ 1
    → occurrences t (insert_host host xs) ≡ 1
once-insert t host xs s e = elim (Bool-cases (text_eq t host)) [
  | inl same ↦
      let it_is : t ≡ host = text_eq→eq t host same in
      ap (λ y. occurrences y (insert_host host xs)) it_is ∙ occurrences-insert_self host xs s
  | inr other ↦ occurrences-insert_other t host xs other ∙ e
]

once-All :
    (host : Text) (xs hosts : List Text)
    → IsSorted xs
    → All (λ t. occurrences t xs ≡ 1) hosts
    → All (λ t. occurrences t (insert_host host xs) ≡ 1) hosts
once-All host xs [] s a = tt
once-All host xs (t ∷ hosts) s a = (once-insert t host xs s a.0, once-All host xs hosts s a.1)

-- Every host of the list is in the set exactly once.
pub hosts_of-once : (hosts : List Text) → All (λ t. occurrences t (hosts_of hosts) ≡ 1) hosts
hosts_of-once [] = tt
hosts_of-once (host ∷ hosts) =
    let sorted = hosts_of-IsSorted hosts in
    (
      occurrences-insert_self host (hosts_of hosts) sorted,
      once-All host (hosts_of hosts) hosts sorted (hosts_of-once hosts),
    )
