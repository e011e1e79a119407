-- ===== src/Catalog/Trees.antt =====
-- src/mcp_broker/catalog.py: `project_value`, `_project` and `_build_path_tree`.
use mcp_broker.Prelude.{
  ℕ, zero, suc, String, Option, none, some, List, [], ◌∷◌, ◌==◌, if◌then◌else◌, lookup, split_char,
}
use mcp_broker.Value.{Value, Items, Fields, list, dict, nil, cons, end, field, fields}

-- A tree of path components, a dictionary of such trees in insertion order. `leaf` stands for
-- `None` and for the empty dictionary, which the code tells apart nowhere.
pub data Tree : Type 0 where
  leaf : Tree
  branch : String → Tree → Tree → Tree

-- `for part in parts: node = node.setdefault(part, {})`: the branches behind a key that is found
-- stay as they are.
unfoldable pub add_path : List String → Tree → Tree
add_path [] tree = tree
add_path (part ∷ parts) leaf = branch part (add_path parts leaf) leaf
add_path (part ∷ parts) (branch key below rest) =
    let deeper = branch key (add_path parts below) rest in
    let later = branch key below (add_path (part ∷ parts) rest) in
    if key == part then deeper else later

unfoldable pub build_tree : List String → Tree → Tree
unfolding add_path
build_tree [] tree = tree
build_tree (path ∷ paths) tree = build_tree paths (add_path (split_char b'.' path) tree)

unfoldable pub build_path_tree : List String → Tree
unfolding build_tree
build_path_tree paths = build_tree paths leaf

-- `items[:cap]`
abbrev pub take_items : ℕ → Items → Items
take_items zero vs = nil
take_items (suc n) nil = nil
take_items (suc n) (cons v vs) = cons v (take_items n vs)

abbrev pub cut_items : Option ℕ → Items → Items
cut_items none vs = vs
cut_items (some n) vs = take_items n vs

-- `_project` where no selector is left: every key is kept, and the cap holds for each list.
unfoldable mutual
  pub cap_value : Option ℕ → Value → Value
  cap_value cap (list vs) = list (cut_items cap (cap_items cap vs))
  cap_value cap (dict fs) = dict (cap_fields cap fs)
  cap_value cap v = v

  pub cap_items : Option ℕ → Items → Items
  cap_items cap nil = nil
  cap_items cap (cons v vs) = cons (cap_value cap v) (cap_items cap vs)

  pub cap_fields : Option ℕ → Fields → Fields
  cap_fields cap end = end
  cap_fields cap (field k v fs) = field k (cap_value cap v) (cap_fields cap fs)

-- `_project` down to the next mapping: through lists, with what is done to a mapping.
unfoldable mutual
  pub through : Option ℕ → (Fields → Value) → Value → Value
  through cap select (list vs) = list (cut_items cap (through_items cap select vs))
  through cap select (dict fs) = select fs
  through cap select v = v

  pub through_items : Option ℕ → (Fields → Value) → Items → Items
  through_items cap select nil = nil
  through_items cap select (cons v vs) = cons (through cap select v) (through_items cap select vs)

-- `if key in value: result[key] = …`; the keys of a tree are distinct.
abbrev pub put_field : String → (Value → Value) → Option Value → Fields → Fields
put_field key project none rest = rest
put_field key project (some v) rest = field key (project v) rest

unfoldable mutual
  unfolding cap_value through

  pub project : Tree → Option ℕ → Value → Value
  project leaf cap v = cap_value cap v
  project (branch key below rest) cap v =
      through cap
        (λ fs.
          dict (
            put_field key (project below cap) (lookup key (fields fs)) (select_fields rest cap fs)))
        v

  pub select_fields : Tree → Option ℕ → Fields → Fields
  select_fields leaf cap fs = end
  select_fields (branch key below rest) cap fs =
      put_field key (project below cap) (lookup key (fields fs)) (select_fields rest cap fs)

unfoldable pub project_value : Value → List String → Option ℕ → Value
unfolding build_path_tree project
project_value v paths max_array_items = project (build_path_tree paths) max_array_items v
