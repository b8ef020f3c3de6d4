-- ===== src/RpcClient.antt =====
-- src/rpc/client.rs: one call of a method. The connection and JSON are parameters.
pub mod Served
use bksd.Base.{String, ◌<>◌, Option, none, some, Result, ok, err, unwrap_or}
use bksd.Base.Attempts.{◌>>=◌, ◌>>◌, map_err}
use bksd.Rpc.{Json, Request, Response, RpcError}

pub data ClientError : Type 0 where
  connect io serialize parse : String → ClientError
  rpc : RpcError → ClientError

-- What the client asks of `serde_json`: a request's text, a response from a line, the number 1, and
-- a value of the type that the caller wants.
pub record ClientJson (J : Json) (T : Type 0) : Type 0 where
  pub request_text : Request J.Value → Result String String
  pub response_of : String → Result String (Response J.Value)
  pub one : J.Value
  pub from_value : J.Value → Result String T

-- A new connection: what is read back depends on what has been written.
pub record Network : Type 0 where
  pub connection : Result String (Unit {0})
  pub write_all : String → Result String (Unit {0})
  pub read_line : String → Result String String

module _ (J : Json) {T : Type 0} (C : ClientJson J T) where
  abbrev pub request_of : String → Option J.Value → Request J.Value
  request_of method params = record {
    jsonrpc = "2.0";
    method = method;
    params = params;
    id = some C.one;
  }

  abbrev pub result_of : Option RpcError → Option J.Value → Result ClientError T
  result_of (some error) result = err (rpc error)
  result_of none result = map_err parse (C.from_value (unwrap_or result J.null))

  -- What the caller gets for a response.
  abbrev pub outcome : Response J.Value → Result ClientError T
  outcome response = result_of response.error response.result

  unfoldable pub call : Network → String → Option J.Value → Result ClientError T
  call net method params = do
    map_err connect net.connection
    request_json ← map_err serialize (C.request_text (request_of method params))
    map_err io (net.write_all (request_json <> "\n"))
    response_line ← map_err io (net.read_line (request_json <> "\n"))
    response ← map_err parse (C.response_of response_line)
    outcome response

  abbrev pub call_no_params : Network → String → Result ClientError T
  call_no_params net method = call net method none
