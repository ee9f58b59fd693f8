-- ===== src/Avl.antt =====
-- The AVL tree library (avl/avl_tree.h) is outside the repository: its calls are the operations of
-- this record, with the laws that libscout relies on.
use libscout.Prelude.{
  Bool, true, false, ◌≡◌, Option, none, some, List, In, Name, name_eq, if◌then◌else◌,
}

abbrev pub is_some : {A : Type 0} → Option A → Bool
is_some none = false
is_some (some a) = true

-- Trees of `A`, compared by `strcmp` on the key. A search is given a node only for its key.
pub record Avl {A : Type 0} (key : A → Name) : Type 1 where
  pub Tree : Type 0
  pub init : Tree  -- avl2_init
  pub search : Tree → Name → Option A  -- avl2_search
  pub insert : Tree → A → Option Tree  -- avl2_insert; `none` is a NULL result
  pub walk : Tree → List A  -- avl2_get_first, then avl2_get_next up to NULL
  pub search-init : (k : Name) → search init k ≡ none
  -- A node inserted under a new key is found under that key, and nothing else changes.
  pub search-insert :
      (t : Tree) (a : A) (t' : Tree) (k : Name)
      → search t (key a) ≡ none
      → insert t a ≡ some t'
      → search t' k ≡ (if name_eq (key a) k then some a else search t k)
  -- The walk meets exactly the nodes that a search finds.
  pub walk-search : (t : Tree) (a : A) → In a (walk t) → search t (key a) ≡ some a
  pub search-walk :
      (t : Tree) (k : Name) (a : A)
      → search t k ≡ some a
      → In a (walk t) × (name_eq (key a) k ≡ true)

-- `sym_node_t` trees: the node is its name.
abbrev pub node_name : Name → Name
node_name n = n

abbrev pub SymAvl : Type 1
SymAvl = Avl node_name
