-- ===== src/Tests/Relays.antt =====
-- An approval request that the host accepts.
use mcp_broker.Prelude.{ℕ, ◌≡◌, refl, true, Option, none, some, List, [], ◌∷◌, Dict, lookup}
use mcp_broker.Value.{Value, str, int, pos, dict, end, field, as_str, got}
use mcp_broker.Elicitation.{
  SocketElicitationRelay, Connection, bytes, exchange_request, read_reply, relay_request, supports,
  mode_of, valid_reply,
}
use mcp_broker.Elicitation.Replies.{IsRelayed, relay_request_sound}

abbrev relay : SocketElicitationRelay
relay = record { max_bytes = 64; elicitation = some [] }

abbrev approval : Dict Value
approval = ("id", int (pos 7)) ∷ ("method", str "elicitation/create") ∷ []

abbrev accepted : Value
accepted = dict (
    field "jsonrpc" (str "2.0")
      (field "id" (str "relay-1") (field "result" (dict (field "action" (str "accept") end)) end)))

-- The host's line is one byte and the line's end, and stands for the reply above.
abbrev loads : List ℕ → Option Value
loads line = some accepted

abbrev connection : Connection
connection = record {
  timeout = none;
  now = 5;
  sends = true;
  rounds =
      record { now = 6; received = bytes (b'a' ∷ []) }
      ∷ record { now = 7; received = bytes (b'\n' ∷ []) }
      ∷ [];
}

abbrev handed : Dict Value
handed =
    ("jsonrpc", str "2.0")
    ∷ ("id", int (pos 7))
    ∷ ("result", dict (field "action" (str "accept") end))
    ∷ []

relay_request_sound_example :
    (true ≡ true)
    × (as_str (got (lookup "method" approval)) ≡ some "elicitation/create")
    × ((r : SocketElicitationRelay) × (some relay ≡ some r)
        × IsRelayed r loads "relay-1" approval connection handed)
unfolding relay_request exchange_request read_reply supports mode_of valid_reply
relay_request_sound_example =
    relay_request_sound true (some relay) loads "relay-1" approval 9000 connection handed (λ e. cc)
      refl
