-- ===== src/Web/Agreement.antt =====
-- The web socket and the line protocol answer requests alike.
use bksd.Base.{String, ◌≡◌, true, false, some, ok, ◌==◌, string_eq}
use bksd.Db.{Sqlite}
use bksd.Rpc.{Json, Request, Connection}
use bksd.Web.{Socket}

module _ (J : Json) (S : Sqlite) (c : Connection J) (socket : Socket J) where
  -- A line that is a request, not blank, which names the version and a method and wants an answer.
  pub record IsCall (line : String) : Type 0 where
    pub request : Request J.Value
    pub id : J.Value
    pub trimmed : c.trim line ≡ line
    pub not_empty : (line == "") ≡ false
    pub parsed : J.parse line ≡ ok request
    pub version : (request.jsonrpc == "2.0") ≡ true
    pub named : (request.method == "") ≡ false
    pub identified : request.id ≡ some id
