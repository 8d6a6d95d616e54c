-- ===== src/BlockNode/Cluster.antt =====
-- What a change leaves on all disks, whatever the order in which the network delivers its messages.
use mathlib.Core.Option
use velox_dfs.Base.{
  ℕ_discrete, ℕ, zero, suc, ◌≡◌, ◌≢◌, refl, ap, sym, ◌∙◌, subst, Bool, true, false, ◌||◌, List, [],
  ◌∷◌, ◌++◌, none, some, ◌==◌, if◌then◌else◌, ◌>>=◌, arith, length, get_elem?, set,
  get_elem?-set_self, get_elem?-set_ne, lt-get_elem?, some-injective,
}
use velox_dfs.Messages.{IoOperation}
use velox_dfs.Disk.{Disk}
use velox_dfs.BlockNode.{Network, Reaches, done, step, deliver, receive, without, io_operation}

abbrev pub elem : ℕ → List ℕ → Bool
elem k [] = false
elem k (j ∷ js) = (j == k) || elem k js

abbrev pub SpreadAt : (Disk → Disk) → List ℕ → List Disk → List Disk → ℕ → Type 0
SpreadAt f js disks disks' k =
    get_elem? disks' k ≡ (if elem k js then Option.map f (get_elem? disks k) else get_elem? disks k)

-- The disks of the listed nodes are changed by f, and the others are as they were.
abbrev pub IsSpread : (Disk → Disk) → List ℕ → List Disk → List Disk → Type 0
IsSpread f js disks disks' = (k : ℕ) → SpreadAt f js disks disks' k

eq_self : (j : ℕ) → (j == j) ≡ true
eq_self j = ground arith

pub eq_other : (j k : ℕ) → j ≢ k → (j == k) ≡ false
eq_other j k h = ground arith

pub IsSpread-set :
    (f : Disk → Disk) (j : ℕ) (js : List ℕ) (disks disks' : List Disk) (d : Disk)
    → IsSpread f js disks disks'
    → elem j js ≡ false
    → get_elem? disks' j ≡ some d
    → IsSpread f (j ∷ js) disks (set disks' j (f d))
IsSpread-set f j js disks disks' d spread new found k = elim (ℕ_discrete j k) [
  | yes same ↦ subst (SpreadAt f (j ∷ js) disks (set disks' j (f d))) same here
  | no other ↦ there other
]
  where
    here : SpreadAt f (j ∷ js) disks (set disks' j (f d)) j
    here =
        let same : get_elem? disks' j ≡ get_elem? disks j = spread j ∙ rw new refl in
        let was : get_elem? disks j ≡ some d = sym same ∙ found in
        get_elem?-set_self disks' j (f d) (lt-get_elem? disks' j d found) ∙ rw (eq_self j, was) refl

    there : j ≢ k → SpreadAt f (j ∷ js) disks (set disks' j (f d)) k
    there other = get_elem?-set_ne disks' j k (f d) other ∙ spread k ∙ rw (eq_other j k other) refl

module _ (m : IoOperation) (f : Disk → Disk)
    (handles : (n id : ℕ) (d : Disk)
      → io_operation n id m d ≡ some (record { disk = f d; sent = []; answer = none })) where
  abbrev after : Network → ℕ → ℕ → Disk → Network
  after net i j d = record {
    disks = set net.disks j (f d);
    in_flight = without i net.in_flight ++ [];
  }

  pub deliver_lem :
      (net : Network) (i j : ℕ) (d : Disk)
      → get_elem? net.in_flight i ≡ some (j, m)
      → get_elem? net.disks j ≡ some d
      → deliver i net ≡ some (after net i j d)
  unfolding deliver receive
  deliver_lem net i j d flies found = rw (flies, ◌>>=◌, found, handles (length net.disks) j d) refl

  stuck :
      (net next : Network) (i : ℕ) → get_elem? net.in_flight i ≡ none → deliver i net ≢ some next
  unfolding deliver
  stuck net next i nothing e =
      let faults : deliver i net ≡ none = rw (nothing, ◌>>=◌) refl in absurd (cc)

  reach_zero : (net last : Network) → net.in_flight ≡ [] → Reaches net last → last ≡ net
  reach_zero net last empty done = refl
  reach_zero net last empty (step i e r) = absurd (stuck net _ i (ap (λ x. get_elem? x i) empty) e)

  delivered :
      (net next : Network) (i j : ℕ) (d : Disk)
      → get_elem? net.in_flight i ≡ some (j, m)
      → get_elem? net.disks j ≡ some d
      → deliver i net ≡ some next
      → next ≡ after net i j d
  delivered net next i j d flies found e =
      some-injective _ _ (sym e ∙ deliver_lem net i j d flies found)

  spreads :
      (net next : Network) (i j : ℕ) (d : Disk) (js : List ℕ) (disks : List Disk)
      → next ≡ after net i j d
      → get_elem? net.disks j ≡ some d
      → elem j js ≡ false
      → IsSpread f js disks net.disks
      → IsSpread f (j ∷ js) disks next.disks
  spreads net next i j d js disks next_is found new spread =
      subst (λ x. IsSpread f (j ∷ js) disks (Network.disks x)) (sym next_is)
        (IsSpread-set f j js disks net.disks d spread new found)

  reach_one :
      (net last : Network) (j : ℕ) (d : Disk) (js : List ℕ) (disks : List Disk)
      → net.in_flight ≡ (j, m) ∷ []
      → get_elem? net.disks j ≡ some d
      → elem j js ≡ false
      → IsSpread f js disks net.disks
      → Reaches net last
      → last.in_flight ≡ []
      → IsSpread f (j ∷ js) disks last.disks
  reach_one net last j d js disks flies found new spread done empty = absurd (cc)
  reach_one net last j d js disks flies found new spread (step {next = next} zero e r) empty =
      let next_is = delivered net next 0 j d (ap (λ x. get_elem? x 0) flies) found e in
      let quiet = ap Network.in_flight next_is ∙ ap (λ x. without 0 x ++ []) flies in
      subst (λ x. IsSpread f (j ∷ js) disks (Network.disks x)) (sym (reach_zero next last quiet r))
        (spreads net next 0 j d js disks next_is found new spread)
  reach_one net last j d js disks flies found new spread (step {next = next} (suc i) e r) empty =
      absurd (stuck net next (suc i) (ap (λ x. get_elem? x (suc i)) flies) e)

  IsSpread-swap :
      (a b : ℕ) (js : List ℕ) (disks disks' : List Disk)
      → IsSpread f (b ∷ a ∷ js) disks disks'
      → IsSpread f (a ∷ b ∷ js) disks disks'
  IsSpread-swap a b js disks disks' spread k =
      let same : elem k (b ∷ a ∷ js) ≡ elem k (a ∷ b ∷ js) = swap (b == k) (a == k) (elem k js) in
      spread k ∙ ap (λ x. if x then Option.map f (get_elem? disks k) else get_elem? disks k) same
    where
      swap : (x y z : Bool) → (x || (y || z)) ≡ (y || (x || z))
      swap true true z = refl
      swap true false z = refl
      swap false y z = refl

  pub reach_two :
      (net last : Network) (a b : ℕ) (d e : Disk) (js : List ℕ) (disks : List Disk)
      → net.in_flight ≡ (a, m) ∷ (b, m) ∷ []
      → get_elem? net.disks a ≡ some d
      → get_elem? net.disks b ≡ some e
      → a ≢ b
      → elem a js ≡ false
      → elem b js ≡ false
      → IsSpread f js disks net.disks
      → Reaches net last
      → last.in_flight ≡ []
      → IsSpread f (a ∷ b ∷ js) disks last.disks
  reach_two net last a b d e js disks flies at_a at_b apart new_a new_b spread done empty =
      absurd (cc)
  reach_two net last a b d e js disks flies at_a at_b apart new_a new_b spread
        (step {next = next} zero h r) empty =
      let next_is = delivered net next 0 a d (ap (λ x. get_elem? x 0) flies) at_a h in
      let left = ap Network.in_flight next_is ∙ ap (λ x. without 0 x ++ []) flies in
      let there : get_elem? next.disks b ≡ some e =
        ap (λ x. get_elem? (Network.disks x) b) next_is
        ∙ get_elem?-set_ne net.disks a b (f d) apart
        ∙ at_b in
      let new : elem b (a ∷ js) ≡ false = rw (eq_other a b apart) new_b in
      IsSpread-swap a b js disks last.disks (
        reach_one next last b e (a ∷ js) disks left there new
          (spreads net next 0 a d js disks next_is at_a new_a spread) r empty)
  reach_two net last a b d e js disks flies at_a at_b apart new_a new_b spread
        (step {next = next} (suc zero) h r) empty =
      let apart' : b ≢ a = λ x. apart (sym x) in
      let next_is = delivered net next 1 b e (ap (λ x. get_elem? x 1) flies) at_b h in
      let left = ap Network.in_flight next_is ∙ ap (λ x. without 1 x ++ []) flies in
      let there : get_elem? next.disks a ≡ some d =
        ap (λ x. get_elem? (Network.disks x) a) next_is
        ∙ get_elem?-set_ne net.disks b a (f e) apart'
        ∙ at_a in
      let new : elem a (b ∷ js) ≡ false = rw (eq_other b a apart') new_a in
      reach_one next last a d (b ∷ js) disks left there new
        (spreads net next 1 b e js disks next_is at_b new_b spread) r empty
  reach_two net last a b d e js disks flies at_a at_b apart new_a new_b spread
        (step {next = next} (suc (suc i)) h r) empty =
      absurd (stuck net next (suc (suc i)) (ap (λ x. get_elem? x (suc (suc i))) flies) h)

  -- From two messages in flight, two deliveries end with none.
  pub reach_end :
      (net : Network) (a b : ℕ) (d e : Disk)
      → net.in_flight ≡ (a, m) ∷ (b, m) ∷ []
      → get_elem? net.disks a ≡ some d
      → get_elem? net.disks b ≡ some e
      → a ≢ b
      → (last : Network) × Reaches net last × (last.in_flight ≡ [])
  reach_end net a b d e flies at_a at_b apart =
      let next = after net 0 a d in
      let left : next.in_flight ≡ (b, m) ∷ [] = ap (λ x. without 0 x ++ []) flies in
      let there : get_elem? next.disks b ≡ some e =
        get_elem?-set_ne net.disks a b (f d) apart ∙ at_b in
      let first = deliver_lem net 0 a d (ap (λ x. get_elem? x 0) flies) at_a in
      let second = deliver_lem next 0 b e (ap (λ x. get_elem? x 0) left) there in
      (after next 0 b e, step 0 first (step 0 second done), ap (λ x. without 0 x ++ []) left)
