-- ===== src/Elicitation/Replies.antt =====
-- What the relay lets through to an upstream, and what it leaves behind on the connection.
use mcp_broker.Prelude.{
  ℕ, ◌≤◌, String, ◌≡◌, ◌≢◌, refl, sym, Bool, true, false, ◌⊎◌, Option, none, some, List, [], ◌∷◌,
  ◌++◌, Dict, arith, inl, inr, Bool-cases, Option-cases, lookup, insert, length, any, nat_eq,
  eq_of_test, if-cases,
}
use mcp_broker.Prelude.Result.{Result, ok, err}
use mcp_broker.Value.{Value, as_dict, as_str, got}
use mcp_broker.Elicitation.Checks.{mode_of, supports, says, valid_reply}
use mcp_broker.Elicitation.Defs.{
  SocketElicitationRelay, RelayError, Connection, Event, Reading, set_timeout, Relaying, finish,
  Round, opening, exchange, exchange_request, relay_request,
}
use mcp_broker.Elicitation.Lines.{chunks, read_reply-Read}

-- A reply that the relay has taken from the host.
pub record IsRelayed (relay : SocketElicitationRelay) (loads : List ℕ → Option Value)
    (relay_id : String) (request : Dict Value) (c : Connection) (answer : Dict Value) : Type 0 where
  pub supported : supports relay.elicitation (mode_of request) ≡ true
  pub taken : List Round
  pub left : List Round
  pub split : c.rounds ≡ taken ++ left
  pub line : List ℕ
  pub received : line ≡ chunks taken
  pub in_bounds : length line ≤ relay.max_bytes
  pub complete : any (nat_eq b'\n') line ≡ true
  pub document : Value
  pub parsed : loads line ≡ some document
  pub response : Dict Value
  pub object : as_dict document ≡ some response
  pub valid : valid_reply response relay_id ≡ true
  pub id : Value
  pub asked : lookup "id" request ≡ some id
  pub handed_over : answer ≡ insert "id" id response

says_same : (text : String) (o : Option String) → says text o ≡ true → o ≡ some text
says_same text none h = cc
says_same text (some s) h = rw (eq_of_test s text h) refl

-- What `finish` says of an answer.
record Finished (loads : List ℕ → Option Value) (relay_id : String) (request_id : Option Value)
    (reply : Result RelayError (List ℕ)) (answer : Dict Value) : Type 0 where
  line : List ℕ
  read : reply ≡ ok line
  document : Value
  parsed : loads line ≡ some document
  response : Dict Value
  object : as_dict document ≡ some response
  valid : valid_reply response relay_id ≡ true
  id : Value
  asked : request_id ≡ some id
  handed_over : answer ≡ insert "id" id response

finish_sound :
    (loads : List ℕ → Option Value) (relay_id : String) (request_id : Option Value)
    (reply : Result RelayError (List ℕ)) (answer : Dict Value)
    → finish loads relay_id request_id reply ≡ ok answer
    → Finished loads relay_id request_id reply answer
finish_sound loads relay_id request_id (err e) answer h = absurd (cc)
finish_sound loads relay_id request_id (ok line) answer h = elim (Option-cases (loads line)) [
  | inl broken' ↦ absurd (cc (rw broken' at h))
  | inr (document, parsed) ↦ elim (Option-cases (as_dict document)) [
    | inl other ↦ absurd (cc (rw (parsed, other) at h))
    | inr (response, object) ↦ elim (Bool-cases (valid_reply response relay_id)) [
      | inr bad ↦ absurd (cc (rw (parsed, object, bad) at h))
      | inl valid ↦ elim (Option-cases request_id) [
        | inl missing ↦ absurd (cc (rw (parsed, object, valid, missing) at h))
        | inr (id, asked) ↦ record {
          line = line;
          read = refl;
          document = document;
          parsed = parsed;
          response = response;
          object = object;
          valid = valid;
          id = id;
          asked = asked;
          handed_over = sym (cc (rw (parsed, object, valid, asked) at h));
        }
      ]
    ]
  ]
]

exchange_sound :
    (relay : SocketElicitationRelay) (loads : List ℕ → Option Value) (relay_id : String)
    (request : Dict Value) (deadline : ℕ) (c : Connection) (reading : Reading) (answer : Dict Value)
    → (exchange relay loads relay_id request deadline c reading).1 ≡ ok answer
    → Finished loads relay_id (lookup "id" request) reading.1 answer
exchange_sound relay loads relay_id request deadline c (events, reply) answer h =
    elim (Bool-cases c.sends) [
      | inr cut ↦ absurd (cc (rw cut at h))
      | inl sent ↦ finish_sound loads relay_id (lookup "id" request) reply answer (rw sent at h)
    ]

request_sound :
    (relay : SocketElicitationRelay) (loads : List ℕ → Option Value) (relay_id : String)
    (request : Dict Value) (deadline : ℕ) (c : Connection) (answer : Dict Value)
    → (exchange_request relay loads relay_id request deadline c).0 ≢ []
    → (exchange_request relay loads relay_id request deadline c).1 ≡ ok answer
    → IsRelayed relay loads relay_id request c answer
unfolding exchange_request
request_sound relay loads relay_id request deadline c answer sent h =
    elim (Bool-cases (supports relay.elicitation (mode_of request))) [
      | inr no' ↦ absurd (sent (rw no' refl))
      | inl yes' ↦
          let f = exchange_sound relay loads relay_id request deadline c _ answer (rw yes' at h) in
          let r =
            read_reply-Read relay.max_bytes deadline c.rounds [] f.line (omega arith) f.read in
          record {
            supported = yes';
            taken = r.taken;
            left = r.left;
            split = r.split;
            received = r.received;
            line = f.line;
            in_bounds = r.bounded;
            complete = r.ended;
            document = f.document;
            parsed = f.parsed;
            response = f.response;
            object = f.object;
            valid = f.valid;
            id = f.id;
            asked = f.asked;
            handed_over = f.handed_over;
          }
    ]

exchange-timeout :
    (relay : SocketElicitationRelay) (loads : List ℕ → Option Value) (relay_id : String)
    (request : Dict Value) (deadline : ℕ) (c : Connection) (reading : Reading)
    → (events : List Event) × ((exchange relay loads relay_id request deadline c reading).0
        ≡ events ++ set_timeout c.timeout ∷ [])
exchange-timeout relay loads relay_id request deadline c (events, reply) =
    elim (Bool-cases c.sends) [
      | inr cut ↦ (opening relay_id request deadline c, rw cut refl)
      | inl sent ↦ (opening relay_id request deadline c ++ events, rw sent refl)
    ]

request-timeout :
    (relay : SocketElicitationRelay) (loads : List ℕ → Option Value) (relay_id : String)
    (request : Dict Value) (deadline : ℕ) (c : Connection)
    → ((exchange_request relay loads relay_id request deadline c).0 ≡ [])
      ⊎ ((events : List Event) × ((exchange_request relay loads relay_id request deadline c).0
            ≡ events ++ set_timeout c.timeout ∷ []))
unfolding exchange_request
request-timeout relay loads relay_id request deadline c =
    elim (Bool-cases (supports relay.elicitation (mode_of request))) [
      | inr no' ↦ inl (rw no' refl)
      | inl yes' ↦ inr (rw yes' (exchange-timeout relay loads relay_id request deadline c _))
    ]

-- An answer that comes of a message to the host: the relay was enabled for an approval request in
-- a mode that the host supports, and the bytes of the first rounds of the connection, all of them
-- and in the order they came, are within the size limit, hold a line's end, and read as a valid
-- reply to the relay's own id, which is given back under the request's id.
pub relay_request_sound :
    (enabled : Bool) (current : Option SocketElicitationRelay) (loads : List ℕ → Option Value)
    (relay_id : String) (request : Dict Value) (deadline : ℕ) (c : Connection) (answer : Dict Value)
    → (relay_request enabled current loads relay_id request deadline c).0 ≢ []
    → (relay_request enabled current loads relay_id request deadline c).1 ≡ ok answer
    → (enabled ≡ true)
      × (as_str (got (lookup "method" request)) ≡ some "elicitation/create")
      × ((relay : SocketElicitationRelay) × (current ≡ some relay)
          × IsRelayed relay loads relay_id request c answer)
unfolding relay_request
relay_request_sound false current loads relay_id request deadline c answer sent h =
    absurd (sent refl)
relay_request_sound true none loads relay_id request deadline c answer sent h =
    absurd (sent (if-cases (λ (t : Relaying). t.0 ≡ []) _ (λ _. refl) (λ _. refl)))
relay_request_sound true (some relay) loads relay_id request deadline c answer sent h =
    elim (Bool-cases (says "elicitation/create" (as_str (got (lookup "method" request))))) [
      | inr other ↦ absurd (sent (rw other refl))
      | inl method ↦ (
        refl,
        says_same "elicitation/create" _ method,
        (
          relay,
          refl,
          request_sound relay loads relay_id request deadline c answer (rw method at sent)
              (rw method at h),
        ),
      )
    ]

-- Nothing is sent and the timeout of the connection is not touched, or the last event sets it back
-- to what it was, whatever the host answers or fails to answer.
pub relay_request-timeout :
    (enabled : Bool) (current : Option SocketElicitationRelay) (loads : List ℕ → Option Value)
    (relay_id : String) (request : Dict Value) (deadline : ℕ) (c : Connection)
    → ((relay_request enabled current loads relay_id request deadline c).0 ≡ [])
      ⊎ ((events : List Event) × ((relay_request enabled current loads relay_id request deadline
              c).0
            ≡ events ++ set_timeout c.timeout ∷ []))
unfolding relay_request
relay_request-timeout false current loads relay_id request deadline c = inl refl
relay_request-timeout true none loads relay_id request deadline c =
    inl (if-cases (λ (t : Relaying). t.0 ≡ []) _ (λ _. refl) (λ _. refl))
relay_request-timeout true (some relay) loads relay_id request deadline c =
    elim (Bool-cases (says "elicitation/create" (as_str (got (lookup "method" request))))) [
      | inr other ↦ inl (rw other refl)
      | inl method ↦ rw method (request-timeout relay loads relay_id request deadline c)
    ]
