-- ===== src/TaskManager/Lock/Tests.antt =====
-- Three workers ask for the locks of two chunks.
use velox_dfs.Base.{
  ◌≡◌, inl, inr, refl, Bool, true, false, List, [], ◌∷◌, Option, none, some, Text, text, text_eq,
  if◌then◌else◌,
}
use velox_dfs.TaskManager.Lock.{
  ZooKeeper, IsLawful, Rc, zok, znodeexists, locks_given, AreAnswered, get_dlock,
}
use velox_dfs.TaskManager.Lock.Exclusion.{get_dlock-once}

abbrev Nodes : Type 0
Nodes = Text → Option Text

abbrev with_node : Text → Text → Nodes → Nodes
with_node p v s q = if text_eq p q then some v else s q

abbrev create_node : Option Text → Text → Text → Nodes → Rc × Nodes
create_node none p v s = (zok, with_node p v s)
create_node (some w) p v s = (znodeexists, s)

abbrev server : ZooKeeper
server = record {
  State = Nodes;
  create = λ p v s. create_node (s p) p v s;
  get = λ p s. s p;
  set = λ p v s. with_node p v s;
  exists = λ p s. elim (s p) [ none ↦ false | some w ↦ true ];
  held = λ p s. s p;
}

abbrev Made : Nodes → Text → Text → Option Text → Type 0
Made s p v o =
    (o ≡ none) × ((q : Text) → (create_node o p v s).1 q ≡ (if text_eq p q then some v else s q))

create_node-Made :
    (s : Nodes) (p v : Text) (o : Option Text) → (create_node o p v s).0 ≡ zok → Made s p v o
create_node-Made s p v none e = (refl, λ q. refl)
create_node-Made s p v (some w) e = absurd (cc)

abbrev Found : Nodes → Text → Text → Option Text → Type 0
Found s p v o = ((w : Text) × (o ≡ some w)) × ((q : Text) → (create_node o p v s).1 q ≡ s q)

create_node-Found :
    (s : Nodes) (p v : Text) (o : Option Text)
    → (create_node o p v s).0 ≡ znodeexists
    → Found s p v o
create_node-Found s p v none e = absurd (cc)
create_node-Found s p v (some w) e = ((w, refl), λ q. refl)

server-IsLawful : IsLawful server
server-IsLawful = record {
  create-ok = λ p v s e. create_node-Made s p v (s p) e;
  create-exists = λ p v s e. create_node-Found s p v (s p) e;
}

abbrev calls : List (Text × Bool)
calls = (text "c1", true) ∷ (text "c2", false) ∷ (text "c1", false) ∷ (text "c1", false) ∷ []

calls-AreAnswered : AreAnswered server calls (λ p. none)
unfolding AreAnswered get_dlock
calls-AreAnswered =
    (inl refl, (inl refl, (inr (refl, (text "1", refl)), (inr (refl, (text "1", refl)), tt))))

get_dlock-once_example : locks_given server (text "c1") calls (λ p. none) ≡ 1
get_dlock-once_example =
    get_dlock-once server (text "c1") calls (λ p. none) server-IsLawful calls-AreAnswered
