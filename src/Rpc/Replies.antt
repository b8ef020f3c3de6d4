-- ===== src/Rpc/Replies.antt =====
-- What a client of a connection can rely on.
use bksd.Base.{
  ℕ, suc, String, ◌≡◌, refl, Bool, true, false, Option, none, some, List, [], ◌∷◌, Result, ok, err,
  map, ◌==◌, string_eq, if◌then◌else◌, unwrap_or, Bool-cases, inl, inr,
}
use bksd.Transfer.{TransferStatus}
use bksd.Db.{Sqlite, Job, JobWithHistory}
use bksd.Rpc.{
  Json, Request, Response, RpcError, ErrorCode, Served, Connection, ListParams, Payload, success,
  error, listed_jobs, list_with, found_job, get_with, found_status, progress_with, daemon_status,
  jobs_list, jobs_get, progress_active, progress_get, dispatch, handle, is_notification, validate,
  answer, answer_valid, answer_parsed, respond, handle_connection,
}

module _ (J : Json) where
  -- A version, an identifier, and either a result or an error.
  abbrev has_one_outcome : Option J.Value → Option RpcError → Bool
  has_one_outcome (some v) none = true
  has_one_outcome none (some e) = true
  has_one_outcome _ _ = false

  pub record IsReply (id : J.Value) (r : Response J.Value) : Type 0 where
    pub version : r.jsonrpc ≡ "2.0"
    pub one_outcome : has_one_outcome r.result r.error ≡ true
    pub echoed : r.id ≡ id

  success-IsReply : (id : J.Value) (p : Payload) → IsReply id (success J id p)
  unfolding success
  success-IsReply id p = record { version = refl; one_outcome = refl; echoed = refl }

  error-IsReply : (id : J.Value) (code : ErrorCode) (m : String) → IsReply id (error J id code m)
  unfolding error
  error-IsReply id code m = record { version = refl; one_outcome = refl; echoed = refl }

  module _ (S : Sqlite) (served : Served) where
    listed_jobs-IsReply :
        (id : J.Value) (r : Result String (List Job)) → IsReply id (listed_jobs J S served id r)
    listed_jobs-IsReply id (ok jobs) = success-IsReply id _
    listed_jobs-IsReply id (err e) = error-IsReply id _ e

    list_with-IsReply :
        (id : J.Value) (p : Result String ListParams) → IsReply id (list_with J S served id p)
    list_with-IsReply id (ok p) = listed_jobs-IsReply id _
    list_with-IsReply id (err e) = error-IsReply id _ e

    found_job-IsReply :
        (id : J.Value) (r : Result String JobWithHistory) → IsReply id (found_job J S served id r)
    found_job-IsReply id (ok job) = success-IsReply id _
    found_job-IsReply id (err e) = error-IsReply id _ e

    get_with-IsReply :
        (id : J.Value) (p : Result String String) → IsReply id (get_with J S served id p)
    get_with-IsReply id (ok job_id) = found_job-IsReply id _
    get_with-IsReply id (err e) = error-IsReply id _ e

    found_status-IsReply :
        (id : J.Value) (job_id : String) (o : Option TransferStatus)
        → IsReply id (found_status J S served id job_id o)
    found_status-IsReply id job_id (some status) = success-IsReply id _
    found_status-IsReply id job_id none = error-IsReply id _ _

    progress_with-IsReply :
        (id : J.Value) (p : Result String String) → IsReply id (progress_with J S served id p)
    progress_with-IsReply id (ok job_id) = found_status-IsReply id job_id _
    progress_with-IsReply id (err e) = error-IsReply id _ e

    either-IsReply :
        (id : J.Value) (b : Bool) (x y : Response J.Value)
        → IsReply id x
        → IsReply id y
        → IsReply id (if b then x else y)
    either-IsReply id true x y hx hy = hx
    either-IsReply id false x y hx hy = hy

    dispatch-IsReply :
        (id params : J.Value) (method : String) → IsReply id (dispatch J S served id params method)
    unfolding daemon_status jobs_list jobs_get progress_active progress_get
    dispatch-IsReply id params method =
        either-IsReply id (method == "daemon.status") _ _ (success-IsReply id _) (
          either-IsReply id (method == "jobs.list") _ _ (list_with-IsReply id _) (
            either-IsReply id (method == "jobs.get") _ _ (get_with-IsReply id _) (
              either-IsReply id (method == "progress.active") _ _ (success-IsReply id _) (
                either-IsReply id (method == "progress.get") _ _ (progress_with-IsReply id _)
                  (error-IsReply id _ _)))))

  -- The identifier that a line must be answered with: none for a notification, null where none can
  -- be read.
  abbrev id_if_valid : Request J.Value → Result String (Unit {0}) → Option J.Value
  id_if_valid request (err msg) = some (unwrap_or request.id J.null)
  id_if_valid request (ok _) = request.id

  abbrev id_of_parsed : Result String (Request J.Value) → Option J.Value
  id_of_parsed (err e) = some J.null
  id_of_parsed (ok request) = id_if_valid request (validate J request)

  abbrev cons_id : Option J.Value → List J.Value → List J.Value
  cons_id none ids = ids
  cons_id (some id) ids = id ∷ ids

  -- What the responses must echo, in the order of the lines that are not blank, up to the end of the
  -- stream.
  unfoldable pub expected_ids : (String → String) → List String → List J.Value
  expected_ids trim [] = []
  expected_ids trim (line ∷ lines) =
      let rest = expected_ids trim lines in
      if line == ""
      then []
      else if trim line == ""
      then rest
      else cons_id (id_of_parsed (J.parse (trim line))) rest

  -- The responses answer the identifiers one by one.
  abbrev pub AreReplies : List J.Value → List (Response J.Value) → Type 0
  AreReplies [] [] = Unit
  AreReplies (id ∷ ids) (r ∷ rs) = IsReply id r × AreReplies ids rs
  AreReplies _ _ = ⊥

  module _ (S : Sqlite) (c : Connection J) where
    -- An answer is a reply to the identifier, or there is neither.
    abbrev Answers : Option J.Value → Option (Response J.Value) → Type 0
    Answers none none = Unit
    Answers (some id) (some r) = IsReply id r
    Answers _ _ = ⊥

    answer_id :
        (n : ℕ) (request : Request J.Value) (o : Option J.Value)
        → request.id ≡ o
        → Answers o
            (if is_notification J request then none else some (handle J S (c.served n) request))
    unfolding is_notification handle
    answer_id n request none e = rw e tt
    answer_id n request (some id) e =
        rw e (dispatch-IsReply S (c.served n) id (unwrap_or request.params J.null) request.method)

    answer_valid-Answers :
        (n : ℕ) (request : Request J.Value) (v : Result String (Unit {0}))
        → Answers (id_if_valid request v) (answer_valid J S c n request v)
    answer_valid-Answers n request (err msg) = error-IsReply _ _ _
    answer_valid-Answers n request (ok _) = answer_id n request request.id refl

    answer_parsed-Answers :
        (n : ℕ) (parsed : Result String (Request J.Value))
        → Answers (id_of_parsed parsed) (answer_parsed J S c n parsed)
    answer_parsed-Answers n (err e) = error-IsReply _ _ _
    answer_parsed-Answers n (ok request) = answer_valid-Answers n request (validate J request)

    respond-AreReplies :
        (o : Option J.Value) (r : Option (Response J.Value)) (ids : List J.Value)
        (rest : Result String (Unit {0}) × List (Response J.Value))
        → ((x : Response J.Value) → c.write_error x ≡ none)
        → Answers o r
        → (rest.0 ≡ ok tt) × AreReplies ids rest.1
        → let all = respond J S c r rest in (all.0 ≡ ok tt) × AreReplies (cons_id o ids) all.1
    respond-AreReplies none none ids rest writes a h = h
    respond-AreReplies (some id) (some r) ids (end, responses) writes a h =
        rw (writes r) (h.0, (a, h.1))
    respond-AreReplies none (some r) ids rest writes a h = absurd a
    respond-AreReplies (some id) none ids rest writes a h = absurd a

    -- If the lines can be read and the responses written, the connection ends without an error and
    -- has written, in the order of the lines, one response for each line that is not blank and no
    -- notification: each with the version, either a result or an error, and the identifier of its
    -- request, or null where there is none to be read.
    pub handle_connection-AreReplies :
        ((x : Response J.Value) → c.write_error x ≡ none)
        → (n : ℕ) (lines : List String)
        → let all = handle_connection J S c n (map ok lines) in
          (all.0 ≡ ok tt) × AreReplies (expected_ids c.trim lines) all.1
    unfolding handle_connection expected_ids answer
    handle_connection-AreReplies writes n [] = (refl, tt)
    handle_connection-AreReplies writes n (line ∷ lines) =
        let rest = handle_connection-AreReplies writes (suc n) lines in
        elim (Bool-cases (line == "")) [
          | inl e ↦ rw e (refl, tt)
          | inr e ↦ rw e (elim (Bool-cases (c.trim line == "")) [
            | inl blank ↦ rw blank rest
            | inr text ↦ rw text (
                respond-AreReplies (id_of_parsed (J.parse (c.trim line)))
                  (answer_parsed J S c n (J.parse (c.trim line))) (expected_ids c.trim lines)
                  (handle_connection J S c (suc n) (map ok lines)) writes
                  (answer_parsed-Answers n (J.parse (c.trim line))) rest)
          ])
        ]
