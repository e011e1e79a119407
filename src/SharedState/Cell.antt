-- ===== src/SharedState/Cell.antt =====
-- What the store promises, without its files: a cell that a fenced lock guards and that can be
-- undone once.
use mcp_broker.Prelude.{
  ℕ, ◌+◌, String, ◌≡◌, Bool, true, false, Option, none, some, List, [], ◌∷◌, Dict,
}
use mcp_broker.Value.{ℤ, Value}
use mcp_broker.SharedState.Defs.{Lock, Time}
use mcp_broker.SharedState.Recovery.{Operation, acquiring, applying, rolling_back, recovering}

-- The holder of the lock by its name and token, the number of tokens given out, the state, and the
-- state that an undo brings back.
pub record Cell : Type 0 where
  pub holder : Option (String × ℕ)
  pub tokens : ℕ
  pub current : Option (Dict Value)
  pub undo : Option (Dict Value)

abbrev pub empty_cell : Cell
empty_cell = record { holder = none; tokens = 0; current = none; undo = none }

abbrev pub kept : Option (Dict Value) → Option (Dict Value) → Option (Dict Value)
kept none undo = undo
kept (some state) undo = some state

-- What an operation does to the cell. If it fails, nothing; if it succeeds, it gives the lock to
-- the asker, with the next token, or sets the state, or swaps it with the one before, both only where
-- the operation's lock is the one that is held. A recovery only looks.
pub data Step : Operation → Bool → Cell → Cell → Type 0 where
  stay : {o : Operation} {c : Cell} → Step o false c c
  look : {c : Cell} → Step recovering true c c
  grant :
      {owner : String} {context : Dict Value} {now : Time} {ttl : ℤ} {c : Cell}
      → Step
          (acquiring owner context now ttl)
          true
          c
          (record c { holder = some (owner, c.tokens + 1); tokens = c.tokens + 1 })
  set :
      {l : Lock} {state : Dict Value} {expected : Option ℕ} {c : Cell}
      → c.holder ≡ some (l.owner_id, l.token)
      → Step
          (applying l state expected)
          true
          c
          (record c { current = some state; undo = kept c.current c.undo })
  swap :
      {l : Lock} {c : Cell} {a b : Dict Value}
      → c.holder ≡ some (l.owner_id, l.token)
      → c.current ≡ some a
      → c.undo ≡ some b
      → Step (rolling_back l) true c (record c { current = some b; undo = some a })

-- One step for each operation.
pub data Steps : List (Operation × Bool) → Cell → Cell → Type 0 where
  done : {c : Cell} → Steps [] c c
  next :
      {o : Operation} {succeeds : Bool} {os : List (Operation × Bool)} {c d e : Cell}
      → Step o succeeds c d
      → Steps os d e
      → Steps ((o, succeeds) ∷ os) c e
