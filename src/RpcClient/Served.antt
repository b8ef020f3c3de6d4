-- ===== src/RpcClient/Served.antt =====
-- A call against the daemon's own connection loop.
use bksd.Base.{
  ℕ, String, ◌<>◌, ◌≡◌, refl, false, Option, none, some, ◌⊎◌, inl, inr, List, [], ◌∷◌, ok, ◌==◌,
  string_eq,
}
use bksd.Db.{Sqlite}
use bksd.Rpc.{
  Json, RpcError, Request, Response, Connection, handle_connection, handle, answer, answer_parsed,
  validate, is_notification,
}
use bksd.RpcClient.{ClientJson, Network, request_of, outcome, result_of, call}

abbrev pub head_or : {A : Type 0} → A → List A → A
head_or a [] = a
head_or a (x ∷ xs) = x

-- What the client reads of a response: a result that is null is read as none.
pub record IsReadAs {V : Type 0} (null : V) (r read : Response V) : Type 0 where
  pub same_error : read.error ≡ r.error
  pub same_result : (read.result ≡ r.result) ⊎ ((r.result ≡ some null) × (read.result ≡ none))

module _ (J : Json) {T : Type 0} (C : ClientJson J T) (S : Sqlite) (c : Connection J)
    (net : Network) (print : Response J.Value → String) where
  -- The client is connected to the daemon: a request arrives as it was sent, and the client reads the
  -- line of the first response.
  pub record IsConnected (n : ℕ) (request : Request J.Value) (request_json : String) : Type 0 where
    pub connected : net.connection ≡ ok tt
    pub printed : C.request_text request ≡ ok request_json
    pub written : net.write_all (request_json <> "\n") ≡ ok tt
    pub not_blank : (c.trim (request_json <> "\n") == "") ≡ false
    pub not_empty : ((request_json <> "\n") == "") ≡ false
    pub arrives : J.parse (c.trim (request_json <> "\n")) ≡ ok request
    pub writes : (r : Response J.Value) → c.write_error r ≡ none
    pub replied :
        (r : Response J.Value) (rest : List (Response J.Value))
        → (handle_connection J S c n (ok (request_json <> "\n") ∷ [])).1 ≡ r ∷ rest
        → net.read_line (request_json <> "\n") ≡ ok (print r)
    pub reads_back :
        (r : Response J.Value) (rest : List (Response J.Value))
        → (handle_connection J S c n (ok (request_json <> "\n") ∷ [])).1 ≡ r ∷ rest
        → (read : Response J.Value) × (C.response_of (print r) ≡ ok read) × IsReadAs J.null r read

  result_of-null :
      (error : Option RpcError) → result_of J C error none ≡ result_of J C error (some J.null)
  result_of-null none = refl
  result_of-null (some e) = refl

  outcome-read :
      (r read : Response J.Value) → IsReadAs J.null r read → outcome J C read ≡ outcome J C r
  outcome-read r read h = elim h.same_result [
    | inl e ↦ rw (h.same_error, e) refl
    | inr (null, gone) ↦ rw (h.same_error, gone, null) (result_of-null r.error)
  ]

  -- The daemon's connection answers the line of a call by what its handler answers the request.
  handle_connection-call :
      (n : ℕ) (method : String) (params : Option J.Value) (request_json : String)
      → IsConnected n (request_of J C method params) request_json
      → (method == "") ≡ false
      → (handle_connection J S c n (ok (request_json <> "\n") ∷ [])).1
        ≡ handle J S (c.served n) (request_of J C method params) ∷ []
  unfolding handle_connection answer validate is_notification
  handle_connection-call n method params request_json h named =
      rw (h.not_empty, h.not_blank, h.arrives, answer_parsed, named, h.writes) refl

  -- A call of a method of a daemon that it is connected to returns what the daemon's handler answers
  -- at that time: the error of the response, or the value of its result, null if there is none.
  pub call-handle :
      (n : ℕ) (method : String) (params : Option J.Value) (request_json : String)
      → IsConnected n (request_of J C method params) request_json
      → (method == "") ≡ false
      → call J C net method params
        ≡ outcome J C (handle J S (c.served n) (request_of J C method params))
  unfolding call
  call-handle n method params request_json h named =
      let r = handle J S (c.served n) (request_of J C method params) in
      let answered = handle_connection-call n method params request_json h named in
      let (read, parsed, same) = h.reads_back r [] answered in
      rw (h.connected, h.printed, h.written, h.replied r [] answered, parsed)
        (outcome-read r read same)
