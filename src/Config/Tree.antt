-- ===== src/Config/Tree.antt =====
-- config/internal/prefix_tree.go: the tree of keys, whose parts are split at a separator. A value of the
-- type V is not nil. The pointer to a node that the map `m` has for a key is the place of the node in
-- the tree, which no operation but Clear removes; the cache of split keys gives what Split gives.
pub mod Refines
pub mod Search
mod Tests
use go_framework.Base.{
  String, text_discrete, GoMap, lookup, insert, delete, keys, Bool, true, false, List, [], ◌∷◌,
  ◌++◌, Option, none, some, ite, if◌then◌else◌,
}

mutual
  pub data PrefixTreeNode (V : Type 0) : Type 0 where
    new_node : Option V → Nodes V → PrefixTreeNode V

  pub data Nodes (V : Type 0) : Type 0 where
    no_nodes : Nodes V
    named : String → PrefixTreeNode V → Nodes V → Nodes V

pub record PrefixTree (V : Type 0) : Type 0 where
  pub root : PrefixTreeNode V
  pub m : GoMap Bool

abbrev pub is_empty_text : String → Bool
is_empty_text s = ite (text_discrete s "") true false

module _ {V : Type 0} where
  -- The child with the name, made if there is none, is changed.
  unfoldable pub put_child :
      String → (PrefixTreeNode V → PrefixTreeNode V × Bool) → Nodes V → Nodes V × Bool
  put_child p f no_nodes =
      let (n, stored) = f (new_node none no_nodes) in (named p n no_nodes, stored)
  put_child p f (named q n ns) =
      let (n', stored) = f n in
      let (ns', later) = put_child p f ns in
      ite (text_discrete q p) (named q n' ns, stored) (named q n ns', later)

  -- The loop of `Put`; false is its return at an empty part, which leaves the nodes made before it.
  unfoldable pub put_path : List String → V → PrefixTreeNode V → PrefixTreeNode V × Bool
  put_path [] v (new_node meta ns) = (new_node (some v) ns, true)
  put_path (p ∷ ps) v (new_node meta ns) =
      if is_empty_text p
      then (new_node meta ns, false)
      else let (ns', stored) = put_child p (put_path ps v) ns in (new_node meta ns', stored)

  unfoldable mutual
    -- `node` from a node on; none is nil.
    pub find_node : PrefixTreeNode V → List String → Option (PrefixTreeNode V)
    find_node n [] = some n
    find_node (new_node meta ns) (p ∷ ps) = if is_empty_text p then none else find_in ns p ps

    pub find_in : Nodes V → String → List String → Option (PrefixTreeNode V)
    find_in no_nodes p ps = none
    find_in (named q n ns) p ps = ite (text_discrete q p) (find_node n ps) (find_in ns p ps)

  abbrev pub meta_of : Option (PrefixTreeNode V) → Option V
  meta_of none = none
  meta_of (some (new_node meta ns)) = meta

  unfoldable pub change_child : String → (PrefixTreeNode V → PrefixTreeNode V) → Nodes V → Nodes V
  change_child p f no_nodes = no_nodes
  change_child p f (named q n ns) =
      ite (text_discrete q p) (named q (f n) ns) (named q n (change_child p f ns))

  -- `Del` on the tree: the node that `node` finds loses its value.
  unfoldable pub del_path : List String → PrefixTreeNode V → PrefixTreeNode V
  del_path [] (new_node meta ns) = new_node none ns
  del_path (p ∷ ps) (new_node meta ns) =
      if is_empty_text p then new_node meta ns else new_node meta (change_child p (del_path ps) ns)

  abbrev pub new_prefix_tree : PrefixTree V
  new_prefix_tree = record { root = new_node none no_nodes; m = [] }

abbrev pub stored_key : String → Bool → GoMap Bool → GoMap Bool
stored_key key stored m = if stored then insert key true m else m

-- `split` is strings.Split at the separator.
module _ {V : Type 0} (split : String → List String) where
  unfoldable pub put_key : String → V → PrefixTree V → PrefixTree V
  put_key key v s =
      let (root, stored) = put_path (split key) v s.root in
      record { root = root; m = stored_key key stored s.m }

  unfoldable pub get_key : PrefixTree V → String → Option V
  get_key s key = elim (lookup key s.m) [
    | none ↦ none
    | some _ ↦ meta_of (find_node s.root (split key))
  ]

  unfoldable pub del_key : String → PrefixTree V → PrefixTree V
  del_key key s = record { root = del_path (split key) s.root; m = delete key s.m }

-- The operations that change a tree.
pub data TreeOp (V : Type 0) : Type 0 where
  put_op : String → V → TreeOp V
  del_op : String → TreeOp V
  clear_op : TreeOp V

module _ {V : Type 0} (split : String → List String) where
  unfoldable pub run_tree_op : TreeOp V → PrefixTree V → PrefixTree V
  run_tree_op (put_op key v) s = put_key split key v s
  run_tree_op (del_op key) s = del_key split key s
  run_tree_op clear_op s = new_prefix_tree

  unfoldable pub run_tree_ops : List (TreeOp V) → PrefixTree V → PrefixTree V
  run_tree_ops [] s = s
  run_tree_ops (o ∷ os) s = run_tree_ops os (run_tree_op o s)

abbrev pub all_keys : {V : Type 0} → PrefixTree V → List String
all_keys s = keys s.m

abbrev pub child_name : (String → String → String) → String → String → String
child_name join name k = if is_empty_text name then k else join name k

abbrev pub own_meta : {V : Type 0} → String → Option V → List (String × V)
own_meta name none = []
own_meta name (some v) = if is_empty_text name then [] else (name, v) ∷ []

-- `SearchByPrefix`: `join` puts the separator between a name and a part of it.
module _ {V : Type 0} (join : String → String → String) where
  unfoldable mutual
    pub travel : String → PrefixTreeNode V → List (String × V)
    travel name (new_node meta ns) = own_meta name meta ++ travel_all name ns

    pub travel_all : String → Nodes V → List (String × V)
    travel_all name no_nodes = []
    travel_all name (named k n ns) = travel (child_name join name k) n ++ travel_all name ns

  abbrev pub travel_found : String → Option (PrefixTreeNode V) → List (String × V)
  travel_found prefix none = []
  travel_found prefix (some n) = travel prefix n

  unfoldable pub search_by_prefix :
      (String → List String) → PrefixTree V → String → List (String × V)
  search_by_prefix split s prefix =
      if is_empty_text prefix
      then travel prefix s.root
      else travel_found prefix (find_node s.root (split prefix))
