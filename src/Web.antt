-- ===== src/Web.antt =====
-- src/web/websocket.rs: JSON-RPC over the messages of a web socket.
pub mod Agreement
use Prim.Native.String.{[] as end_of_text, ◌∷◌ as ◌∷ˢ◌}
use bksd.Base.{
  ℕ, suc, String, ◌<>◌, Bool, true, false, Option, none, some, List, [], ◌∷◌, Result, ok, err, ◌==◌,
  nat_eq, if◌then◌else◌,
}
use bksd.Base.Parse.{codes}
use bksd.Db.{Sqlite}
use bksd.Rpc.{Json, Request, Response, Served, handle}
use Prim.Native.Char.{code}

-- `other_message` is a binary message, a ping or a pong.
pub data Message : Type 0 where
  text : String → Message
  close other_message : Message

-- `replace('"', "'")`
unfoldable pub single_quotes : String → String
single_quotes end_of_text = end_of_text
single_quotes (c ∷ˢ s) =
    let rest = single_quotes s in if code c == 34 then "'" <> rest else c ∷ˢ rest

abbrev pub serialization_error : String
serialization_error =
    "{\"jsonrpc\":\"2.0\",\"error\":{\"code\":-32603,\"message\":\"Serialization error\"},\"id\":null}"

unfoldable pub parse_error_text : String → String
parse_error_text e =
    "{\"jsonrpc\":\"2.0\",\"error\":{\"code\":-32700,\"message\":\"Parse error: "
    <> (single_quotes e <> "\"},\"id\":null}")

-- The socket: what is served at the time of each message, the text of a response, and whether a
-- message can be sent.
pub record Socket (J : Json) : Type 0 where
  pub served : ℕ → Served
  pub print : Response J.Value → Result String String
  pub sends : String → Bool

module _ (J : Json) (S : Sqlite) (socket : Socket J) where
  abbrev pub printed : Result String String → String
  printed (ok s) = s
  printed (err e) = serialization_error

  abbrev pub reply_to : ℕ → Result String (Request J.Value) → String
  reply_to n (ok request) = printed (socket.print (handle J S (socket.served n) request))
  reply_to n (err e) = parse_error_text e

  abbrev pub send : String → List String → List String
  send reply rest = if socket.sends reply then reply ∷ rest else []

  -- The replies that are sent for the results of `recv`, until the socket is closed or fails.
  unfoldable pub handle_socket : ℕ → List (Result String Message) → List String
  handle_socket n [] = []
  handle_socket n (err e ∷ received) = []
  handle_socket n (ok close ∷ received) = []
  handle_socket n (ok other_message ∷ received) = handle_socket (suc n) received
  handle_socket n (ok (text msg) ∷ received) =
      send (reply_to n (J.parse msg)) (handle_socket (suc n) received)
