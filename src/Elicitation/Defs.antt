-- ===== src/Elicitation/Defs.antt =====
-- src/mcp_broker/elicitation.py: `SocketElicitationRelay`. Times are counts of microseconds. What the
-- connection gives is a list of rounds, one for each pass of the reading loop; what `json.loads` makes
-- of the bytes is an argument, `none` standing for its `ValueError`.
use mcp_broker.Prelude.{
  ℕ, ◌+◌, ◌-◌, String, Bool, not, ◌&&◌, Option, none, some, List, [], ◌∷◌, ◌++◌, Dict,
  if◌then◌else◌, lookup, insert, length, any, leb, ltb, nat_eq,
}
use mcp_broker.Prelude.Result.{Result, ok, err}
use mcp_broker.Value.{Value, negsuc, str, int, dict, end, field, as_dict, as_str, got}
use mcp_broker.Elicitation.Checks.{mode_of, says, supports, valid_reply}

-- The `ElicitationRelayError`s by their messages, and the `KeyError` of `request["id"]`.
pub data RelayError : Type 0 where
  invalid_response disconnected_or_timed_out timed_out disconnected too_large missing_id :
      RelayError

pub record SocketElicitationRelay : Type 0 where
  pub max_bytes : ℕ
  pub elicitation : Option (Dict Value)

abbrev elicitation_of : Option (Dict Value) → Option (Dict Value)
elicitation_of none = none
elicitation_of (some capabilities) = as_dict (got (lookup "elicitation" capabilities))

unfoldable pub new_relay : Value → ℕ → SocketElicitationRelay
new_relay capabilities max_bytes = record {
  max_bytes = max_bytes;
  elicitation = elicitation_of (as_dict capabilities);
}

-- What `recv` gives, or that it raises an `OSError`.
pub data Received : Type 0 where
  bytes : List ℕ → Received
  broken : Received

pub record Round : Type 0 where
  pub now : ℕ
  pub received : Received

pub data Event : Type 0 where
  set_timeout : Option ℕ → Event
  send : Dict Value → Event
  recv : ℕ → Event

abbrev min : ℕ → ℕ → ℕ
min a b = if leb a b then a else b

abbrev pub Reading : Type 0
Reading = List Event × Result RelayError (List ℕ)

abbrev pub first_do : List Event → Reading → Reading
first_do events (later, r) = (events ++ later, r)

abbrev pub chunk_of : Received → List ℕ
chunk_of broken = []
chunk_of (bytes cs) = cs

-- What follows a `recv`: `again` is the loop's next pass, with the bytes added to the buffer.
abbrev pub after_recv : ℕ → List ℕ → Received → Reading → Reading
after_recv max_bytes grown broken again = ([], err disconnected_or_timed_out)
after_recv max_bytes grown (bytes []) again = ([], err disconnected)
after_recv max_bytes grown (bytes (_ ∷ _)) again =
    if ltb max_bytes (length grown) then ([], err too_large) else again

-- The loop of `_read_reply`; a list that ends stands for a clock that has passed the deadline.
unfoldable pub read_reply : ℕ → ℕ → List Round → List ℕ → Reading
read_reply max_bytes deadline [] buffer =
    if any (nat_eq b'\n') buffer then ([], ok buffer) else ([], err timed_out)
read_reply max_bytes deadline (r ∷ rest) buffer =
    let grown = buffer ++ chunk_of r.received in
    let again = read_reply max_bytes deadline rest grown in
    let reads =
      set_timeout (some (deadline - r.now))
      ∷ recv (min 65536 (max_bytes + 1 - length buffer))
      ∷ [] in
    if any (nat_eq b'\n') buffer
    then ([], ok buffer)
    else if leb deadline r.now
    then ([], err timed_out)
    else first_do reads (after_recv max_bytes grown r.received again)

abbrev check_reply : String → Option Value → Option (Dict Value) → Result RelayError (Dict Value)
check_reply relay_id request_id none = err invalid_response
check_reply relay_id request_id (some response) =
    if not (valid_reply response relay_id) then err invalid_response else answer_to request_id
  where
    answer_to : Option Value → Result RelayError (Dict Value)
    answer_to none = err missing_id
    answer_to (some id) = ok (insert "id" id response)

-- What the source does with the bytes: `json.loads`, the check of the reply, and its new id.
abbrev pub finish :
    (List ℕ → Option Value)
    → String
    → Option Value
    → Result RelayError (List ℕ)
    → Result RelayError (Dict Value)
finish loads relay_id request_id (err e) = err e
finish loads relay_id request_id (ok buffer) = parsed (loads buffer)
  where
    parsed : Option Value → Result RelayError (Dict Value)
    parsed none = err disconnected_or_timed_out
    parsed (some response) = check_reply relay_id request_id (as_dict response)

-- What the relay meets on the connection: its timeout before, the clock, whether `sendall` passes,
-- and the rounds of the reading loop.
pub record Connection : Type 0 where
  pub timeout : Option ℕ
  pub now : ℕ
  pub sends : Bool
  pub rounds : List Round

abbrev max : ℕ → ℕ → ℕ
max a b = if leb a b then b else a

abbrev pub Relaying : Type 0
Relaying = List Event × Result RelayError (Dict Value)

-- `_error`
abbrev pub error_reply : Option Value → String → Dict Value
error_reply id text =
    ("jsonrpc", str "2.0")
    ∷ ("id", got id)
    ∷ ("error", dict (field "code" (int (negsuc 32600)) (field "message" (str text) end)))
    ∷ []

abbrev pub opening : String → Dict Value → ℕ → Connection → List Event
opening relay_id request deadline c =
    set_timeout (some (max 1000 (deadline - c.now)))
    ∷ send (insert "id" (str relay_id) request)
    ∷ []

abbrev pub exchange :
    SocketElicitationRelay
    → (List ℕ → Option Value)
    → String
    → Dict Value
    → ℕ
    → Connection
    → Reading
    → Relaying
exchange relay loads relay_id request deadline c (events, reply) =
    if c.sends
    then (
      opening relay_id request deadline c ++ (events ++ set_timeout c.timeout ∷ []),
      finish loads relay_id (lookup "id" request) reply,
    )
    else (
      opening relay_id request deadline c ++ set_timeout c.timeout ∷ [],
      err disconnected_or_timed_out,
    )

-- The method `request`.
unfoldable pub exchange_request :
    SocketElicitationRelay
    → (List ℕ → Option Value)
    → String
    → Dict Value
    → ℕ
    → Connection
    → Relaying
exchange_request relay loads relay_id request deadline c =
    if not (supports relay.elicitation (mode_of request))
    then ([], ok (error_reply (lookup "id" request) "Host does not support this elicitation mode"))
    else exchange relay loads relay_id request deadline c
        (read_reply relay.max_bytes deadline c.rounds [])

abbrev by_relay :
    Option SocketElicitationRelay
    → (List ℕ → Option Value)
    → String
    → Dict Value
    → ℕ
    → Connection
    → Relaying
by_relay none loads relay_id request deadline c =
    ([], ok (error_reply (lookup "id" request) "Client request relay unavailable"))
by_relay (some relay) loads relay_id request deadline c =
    exchange_request relay loads relay_id request deadline c

-- The function `relay_request`, with the relay of the current call.
unfoldable pub relay_request :
    Bool
    → Option SocketElicitationRelay
    → (List ℕ → Option Value)
    → String
    → Dict Value
    → ℕ
    → Connection
    → Relaying
unfolding exchange_request
relay_request enabled current loads relay_id request deadline c =
    if enabled && says "elicitation/create" (as_str (got (lookup "method" request)))
    then by_relay current loads relay_id request deadline c
    else by_relay none loads relay_id request deadline c
