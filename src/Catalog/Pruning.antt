-- ===== src/Catalog/Pruning.antt =====
-- A projection leaves out, and changes nothing.
use mcp_broker.Prelude.{
  ℕ, zero, suc, String, ◌≡◌, Option, none, some, lookup, ◌==◌, Bool-cases, inl, inr, Option-cases,
  eq_of_test,
}
use mcp_broker.Value.{
  Value, Items, Fields, list, dict, nil, cons, end, field, fields, HasField, first, later,
}
use mcp_broker.Catalog.Trees.{
  Tree, leaf, branch, take_items, cut_items, cap_value, cap_items, cap_fields, through,
  through_items, put_field, project, select_fields,
}

-- The second value is the first one with fields and ends of lists left out.
mutual
  pub data Prunes : Value → Value → Type 0 where
    same : {v : Value} → Prunes v v
    in_list : {vs ws : Items} → PrunesItems vs ws → Prunes (list vs) (list ws)
    in_dict : {fs gs : Fields} → PrunesFields fs gs → Prunes (dict fs) (dict gs)

  pub data PrunesItems : Items → Items → Type 0 where
    ended : {vs : Items} → PrunesItems vs nil
    kept :
        {v w : Value} {vs ws : Items}
        → Prunes v w
        → PrunesItems vs ws
        → PrunesItems (cons v vs) (cons w ws)

  pub data PrunesFields : Fields → Fields → Type 0 where
    emptied : {fs : Fields} → PrunesFields fs end
    picked :
        {k : String} {v w : Value} {fs gs : Fields}
        → HasField k v fs
        → Prunes v w
        → PrunesFields fs gs
        → PrunesFields fs (field k w gs)

cut-Prunes :
    (cap : Option ℕ) (vs ws : Items) → PrunesItems vs ws → PrunesItems vs (cut_items cap ws)
cut-Prunes none vs ws p = p
cut-Prunes (some n) vs ws p = take_prunes n p
  where
    take_prunes : (n : ℕ) {vs ws : Items} → PrunesItems vs ws → PrunesItems vs (take_items n ws)
    take_prunes zero p = ended
    take_prunes (suc n) ended = ended
    take_prunes (suc n) (kept p ps) = kept p (take_prunes n ps)

widen :
    {k : String} {v : Value} {fs gs : Fields} → PrunesFields fs gs → PrunesFields (field k v fs) gs
widen emptied = emptied
widen (picked m p ps) = picked (later m) p (widen ps)

mutual
  unfolding cap_value cap_items cap_fields

  cap_value-Prunes : (cap : Option ℕ) (v : Value) → Prunes v (cap_value cap v)
  cap_value-Prunes cap (list vs) = in_list (cut-Prunes cap vs _ (cap_items-Prunes cap vs))
  cap_value-Prunes cap (dict fs) = in_dict (cap_fields-Prunes cap fs)
  cap_value-Prunes cap _ = same

  cap_items-Prunes : (cap : Option ℕ) (vs : Items) → PrunesItems vs (cap_items cap vs)
  cap_items-Prunes cap nil = ended
  cap_items-Prunes cap (cons v vs) = kept (cap_value-Prunes cap v) (cap_items-Prunes cap vs)

  cap_fields-Prunes : (cap : Option ℕ) (fs : Fields) → PrunesFields fs (cap_fields cap fs)
  cap_fields-Prunes cap end = emptied
  cap_fields-Prunes cap (field k v fs) =
      picked first (cap_value-Prunes cap v) (widen (cap_fields-Prunes cap fs))

mutual
  unfolding through through_items

  through-Prunes :
      (cap : Option ℕ) (select : Fields → Value)
      → ((fs : Fields) → Prunes (dict fs) (select fs))
      → (v : Value) → Prunes v (through cap select v)
  through-Prunes cap select keep (list vs) =
      in_list (cut-Prunes cap vs _ (through_items-Prunes cap select keep vs))
  through-Prunes cap select keep (dict fs) = keep fs
  through-Prunes cap select keep _ = same

  through_items-Prunes :
      (cap : Option ℕ) (select : Fields → Value)
      → ((fs : Fields) → Prunes (dict fs) (select fs))
      → (vs : Items) → PrunesItems vs (through_items cap select vs)
  through_items-Prunes cap select keep nil = ended
  through_items-Prunes cap select keep (cons v vs) =
      kept (through-Prunes cap select keep v) (through_items-Prunes cap select keep vs)

HasField-lookup :
    (k : String) {v : Value} (fs : Fields) → lookup k (fields fs) ≡ some v → HasField k v fs
HasField-lookup k end h = absurd (cc)
HasField-lookup k {v} (field j w fs) h = elim (Bool-cases (j == k)) [
  | inl here ↦
      let same_key : j ≡ k = eq_of_test j k here in
      let same_value : w ≡ v = cc (rw here at h) in rw (← same_key, ← same_value) first
  | inr elsewhere ↦ later (HasField-lookup k fs (rw elsewhere at h))
]

put_field-Prunes :
    (key : String) (project' : Value → Value) (fs rest : Fields)
    → ((v : Value) → Prunes v (project' v))
    → PrunesFields fs rest
    → PrunesFields fs (put_field key project' (lookup key (fields fs)) rest)
put_field-Prunes key project' fs rest keep others = elim (Option-cases (lookup key (fields fs))) [
  | inl missing ↦ rw missing others
  | inr (v, found) ↦ rw found (picked (HasField-lookup key fs found) (keep v) others)
]

mutual
  unfolding project select_fields

  pub project-Prunes : (tree : Tree) (cap : Option ℕ) (v : Value) → Prunes v (project tree cap v)
  project-Prunes leaf cap v = cap_value-Prunes cap v
  project-Prunes (branch key below rest) cap v =
      through-Prunes cap _
        (λ fs. in_dict (
          put_field-Prunes key (project below cap) fs _ (project-Prunes below cap)
            (select_fields-Prunes rest cap fs)))
        v

  select_fields-Prunes :
      (tree : Tree) (cap : Option ℕ) (fs : Fields) → PrunesFields fs (select_fields tree cap fs)
  select_fields-Prunes leaf cap fs = emptied
  select_fields-Prunes (branch key below rest) cap fs =
      put_field-Prunes key (project below cap) fs _ (project-Prunes below cap)
        (select_fields-Prunes rest cap fs)
