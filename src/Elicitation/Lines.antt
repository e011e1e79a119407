-- ===== src/Elicitation/Lines.antt =====
-- The line that the relay reads from the host.
use mcp_broker.Prelude.{
  ℕ, ◌≤◌, ◌≡◌, true, List, [], ◌∷◌, ◌++◌, arith, inl, inr, Bool-cases, length, any, nat_eq, ltb,
  leb, refl, sym, ap, ◌∙◌,
}
use mathlib.Core.List.{append_assoc, append-nil}
use mcp_broker.Prelude.Result.{Result, ok}
use mcp_broker.Elicitation.Defs.{
  RelayError, Round, Received, bytes, broken, Reading, read_reply, after_recv, chunk_of,
}

-- All the bytes of the rounds, in order.
abbrev pub chunks : List Round → List ℕ
chunks [] = []
chunks (r ∷ rest) = chunk_of r.received ++ chunks rest

-- A line that was read: what the buffer held and all the bytes of the first rounds.
pub record Read (max_bytes : ℕ) (rounds : List Round) (buffer line : List ℕ) : Type 0 where
  pub taken : List Round
  pub left : List Round
  pub split : rounds ≡ taken ++ left
  pub received : line ≡ buffer ++ chunks taken
  pub bounded : length line ≤ max_bytes
  pub ended : any (nat_eq b'\n') line ≡ true

abbrev SameReading : List ℕ → List ℕ → Type 0
SameReading a b = Path (Result RelayError (List ℕ)) (ok a) (ok b)

line_of :
    (max_bytes : ℕ) (rounds : List Round) (buffer line : List ℕ)
    → length buffer ≤ max_bytes
    → any (nat_eq b'\n') buffer ≡ true
    → SameReading buffer line
    → Read max_bytes rounds buffer line
line_of max_bytes rounds buffer line small ended h =
    let same : buffer ≡ line = cc in
    rw (← same) (record {
      taken = [];
      left = rounds;
      split = refl;
      received = sym (append-nil buffer);
      bounded = small;
      ended = ended;
    })

-- One round more.
grown-Read :
    (max_bytes : ℕ) (r : Round) (rest : List Round) (buffer line : List ℕ)
    → Read max_bytes rest (buffer ++ chunk_of r.received) line
    → Read max_bytes (r ∷ rest) buffer line
grown-Read max_bytes r rest buffer line h = record {
  taken = r ∷ h.taken;
  left = h.left;
  split = ap (λ rs. r ∷ rs) h.split;
  received = h.received ∙ append_assoc buffer (chunk_of r.received) (chunks h.taken);
  bounded = h.bounded;
  ended = h.ended;
}

recv_sound :
    (max_bytes : ℕ) (grown line : List ℕ) (got' : Received) (again : Reading) (P : Type 0)
    → (length grown ≤ max_bytes → again.1 ≡ ok line → P)
    → (after_recv max_bytes grown got' again).1 ≡ ok line
    → P
recv_sound max_bytes grown line broken again P more h = absurd (cc)
recv_sound max_bytes grown line (bytes []) again P more h = absurd (cc)
recv_sound max_bytes grown line (bytes (c ∷ cs)) again P more h =
    elim (Bool-cases (ltb max_bytes (length grown))) [
      | inl over ↦ absurd (cc (rw over at h))
      | inr fits ↦ more (ground arith) (rw fits at h)
    ]

pub read_reply-Read :
    (max_bytes deadline : ℕ) (rounds : List Round) (buffer line : List ℕ)
    → length buffer ≤ max_bytes
    → (read_reply max_bytes deadline rounds buffer).1 ≡ ok line
    → Read max_bytes rounds buffer line
unfolding read_reply
read_reply-Read max_bytes deadline [] buffer line small h =
    elim (Bool-cases (any (nat_eq b'\n') buffer)) [
      | inl ended ↦ line_of max_bytes [] buffer line small ended (rw ended at h)
      | inr partial ↦ absurd (cc (rw partial at h))
    ]
read_reply-Read max_bytes deadline (r ∷ rest) buffer line small h =
    elim (Bool-cases (any (nat_eq b'\n') buffer)) [
      | inl ended ↦ line_of max_bytes (r ∷ rest) buffer line small ended (rw ended at h)
      | inr partial ↦ elim (Bool-cases (leb deadline r.now)) [
        | inl late ↦ absurd (cc (rw (partial, late) at h))
        | inr early ↦
            let grown = buffer ++ chunk_of r.received in
            grown-Read max_bytes r rest buffer line (
              recv_sound max_bytes grown line r.received (read_reply max_bytes deadline rest grown)
                (Read max_bytes rest grown line)
                (λ fits. read_reply-Read max_bytes deadline rest grown line fits)
                (rw (partial, early) at h))
      ]
    ]
