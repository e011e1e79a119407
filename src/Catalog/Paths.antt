-- ===== src/Catalog/Paths.antt =====
-- What the paths and the cap of a projection come to.
use mcp_broker.Prelude.{
  ap, eq_refl, ℕ, String, ◌≡◌, refl, Option, List, [], ◌∷◌, ◌++◌, ◌==◌, Bool-cases, inl, inr,
  split_char,
}
use mcp_broker.Value.{Value}
use mcp_broker.Catalog.Trees.{
  Tree, leaf, branch, add_path, build_tree, build_path_tree, project_value,
}
use mcp_broker.Catalog.Pruning.{Prunes, project-Prunes}
use mcp_broker.Catalog.Capping.{IsCapped, project-IsCapped}

-- A projection invents nothing: it leaves out fields of mappings and ends of lists, and changes
-- no other value. Every list in what is left is within the cap.
pub project_value_sound :
    (v : Value) (paths : List String) (cap : Option ℕ)
    → Prunes v (project_value v paths cap) × IsCapped cap (project_value v paths cap)
unfolding project_value
project_value_sound v paths cap = (project-Prunes _ cap v, project-IsCapped _ cap v)

add_path-extended :
    (parts more : List String) (t : Tree)
    → add_path (parts ++ more) (add_path parts t) ≡ add_path (parts ++ more) t
unfolding add_path
add_path-extended [] more t = refl
add_path-extended (part ∷ parts) more leaf =
    rw (eq_refl part) (ap (λ (u : Tree). branch part u leaf) (add_path-extended parts more leaf))
add_path-extended (part ∷ parts) more (branch key below rest) = elim (Bool-cases (key == part)) [
  | inl here ↦
      rw (here, here) (ap (λ (u : Tree). branch key u rest) (add_path-extended parts more below))
  | inr elsewhere ↦
      rw (elsewhere, elsewhere) (ap (branch key below) (add_path-extended (part ∷ parts) more rest))
]

-- A path that is given beside an extension of it selects nothing of its own: only the fields
-- that the longer path names are kept below it, not the whole subtree.
pub project_value-extended :
    (v : Value) (path longer : String) (more : List String) (cap : Option ℕ)
    → split_char b'.' longer ≡ split_char b'.' path ++ more
    → project_value v (path ∷ longer ∷ []) cap ≡ project_value v (longer ∷ []) cap
unfolding project_value build_path_tree build_tree
project_value-extended v path longer more cap h =
    rw (h, add_path-extended (split_char b'.' path) more leaf) refl
