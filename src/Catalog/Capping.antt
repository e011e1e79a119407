-- ===== src/Catalog/Capping.antt =====
-- The cap of a projection holds for every list.
use mcp_broker.Prelude.{ℕ, zero, suc, ◌≤◌, String, Option, none, some, lookup, arith}
use mcp_broker.Value.{Value, Items, Fields, list, dict, nil, cons, end, field, fields}
use mcp_broker.Catalog.Trees.{
  Tree, leaf, branch, take_items, cut_items, cap_value, cap_items, cap_fields, through,
  through_items, put_field, project, select_fields,
}

abbrev pub Within : Option ℕ → ℕ → Type 0
Within none n = Unit
Within (some most) n = n ≤ most

abbrev pub size_items : Items → ℕ
size_items nil = 0
size_items (cons v vs) = suc (size_items vs)

-- Each list of the value is within the cap.
unfoldable mutual
  pub IsCapped : Option ℕ → Value → Type 0
  IsCapped cap (list vs) = Within cap (size_items vs) × AllCapped cap vs
  IsCapped cap (dict fs) = FieldsCapped cap fs
  IsCapped cap v = Unit

  pub AllCapped : Option ℕ → Items → Type 0
  AllCapped cap nil = Unit
  AllCapped cap (cons v vs) = IsCapped cap v × AllCapped cap vs

  pub FieldsCapped : Option ℕ → Fields → Type 0
  FieldsCapped cap end = Unit
  FieldsCapped cap (field k v fs) = IsCapped cap v × FieldsCapped cap fs

size-cut : (cap : Option ℕ) (vs : Items) → Within cap (size_items (cut_items cap vs))
size-cut none vs = tt
size-cut (some zero) vs = omega arith
size-cut (some (suc n)) nil = omega arith
size-cut (some (suc n)) (cons v vs) = omega (arith, size-cut (some n) vs)

cut-AllCapped : (cap : Option ℕ) (vs : Items) → AllCapped cap vs → AllCapped cap (cut_items cap vs)
unfolding IsCapped
cut-AllCapped none vs h = h
cut-AllCapped (some n) vs h = taken n vs h
  where
    taken : (m : ℕ) (vs : Items) → AllCapped (some n) vs → AllCapped (some n) (take_items m vs)
    taken zero vs h = tt
    taken (suc m) nil h = tt
    taken (suc m) (cons v vs) (c, h) = (c, taken m vs h)

mutual
  unfolding cap_value cap_items cap_fields IsCapped AllCapped FieldsCapped

  cap_value-IsCapped : (cap : Option ℕ) (v : Value) → IsCapped cap (cap_value cap v)
  cap_value-IsCapped cap (list vs) =
      (size-cut cap _, cut-AllCapped cap _ (cap_items-AllCapped cap vs))
  cap_value-IsCapped cap (dict fs) = cap_fields-FieldsCapped cap fs
  cap_value-IsCapped cap _ = tt

  cap_items-AllCapped : (cap : Option ℕ) (vs : Items) → AllCapped cap (cap_items cap vs)
  cap_items-AllCapped cap nil = tt
  cap_items-AllCapped cap (cons v vs) = (cap_value-IsCapped cap v, cap_items-AllCapped cap vs)

  cap_fields-FieldsCapped : (cap : Option ℕ) (fs : Fields) → FieldsCapped cap (cap_fields cap fs)
  cap_fields-FieldsCapped cap end = tt
  cap_fields-FieldsCapped cap (field k v fs) =
      (cap_value-IsCapped cap v, cap_fields-FieldsCapped cap fs)

mutual
  unfolding through through_items IsCapped AllCapped

  through-IsCapped :
      (cap : Option ℕ) (select : Fields → Value)
      → ((fs : Fields) → IsCapped cap (select fs))
      → (v : Value) → IsCapped cap (through cap select v)
  through-IsCapped cap select fit (list vs) =
      (size-cut cap _, cut-AllCapped cap _ (through_items-AllCapped cap select fit vs))
  through-IsCapped cap select fit (dict fs) = fit fs
  through-IsCapped cap select fit _ = tt

  through_items-AllCapped :
      (cap : Option ℕ) (select : Fields → Value)
      → ((fs : Fields) → IsCapped cap (select fs))
      → (vs : Items) → AllCapped cap (through_items cap select vs)
  through_items-AllCapped cap select fit nil = tt
  through_items-AllCapped cap select fit (cons v vs) =
      (through-IsCapped cap select fit v, through_items-AllCapped cap select fit vs)

put_field-FieldsCapped :
    (cap : Option ℕ) (key : String) (project' : Value → Value) (o : Option Value) (rest : Fields)
    → ((v : Value) → IsCapped cap (project' v))
    → FieldsCapped cap rest
    → FieldsCapped cap (put_field key project' o rest)
unfolding FieldsCapped
put_field-FieldsCapped cap key project' none rest fit others = others
put_field-FieldsCapped cap key project' (some v) rest fit others = (fit v, others)

mutual
  unfolding project select_fields IsCapped FieldsCapped

  pub project-IsCapped :
      (tree : Tree) (cap : Option ℕ) (v : Value) → IsCapped cap (project tree cap v)
  project-IsCapped leaf cap v = cap_value-IsCapped cap v
  project-IsCapped (branch key below rest) cap v =
      through-IsCapped cap _
        (λ fs.
          put_field-FieldsCapped cap key (project below cap) (lookup key (fields fs)) _
            (project-IsCapped below cap) (select_fields-FieldsCapped rest cap fs))
        v

  select_fields-FieldsCapped :
      (tree : Tree) (cap : Option ℕ) (fs : Fields) → FieldsCapped cap (select_fields tree cap fs)
  select_fields-FieldsCapped leaf cap fs = tt
  select_fields-FieldsCapped (branch key below rest) cap fs =
      put_field-FieldsCapped cap key (project below cap) (lookup key (fields fs)) _
        (project-IsCapped below cap) (select_fields-FieldsCapped rest cap fs)
