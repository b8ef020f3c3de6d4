-- ===== src/Rpc.antt =====
-- src/rpc/protocol.rs, src/rpc/methods.rs and `handle_connection` of src/rpc/transport.rs: JSON-RPC
-- over the lines of a connection. JSON itself is a parameter.
pub mod Replies
use bksd.Base.{
  ℕ, suc, String, ◌<>◌, Bool, true, false, Option, none, some, List, [], ◌∷◌, ◌++◌, Result, ok, err,
  ◌==◌, string_eq, if◌then◌else◌, unwrap_or, is_some, not, length,
}
use bksd.Base.Dict.{Dict}
use bksd.Transfer.{TransferStatus}
use bksd.Progress.{ProgressTracker, get_all, active_count}
use bksd.Progress
use bksd.Db.{Db, Job, JobWithHistory, Sqlite, SqlError, list, get_with_history}

pub record Request (V : Type 0) : Type 0 where
  pub jsonrpc : String
  pub method : String
  pub params : Option V
  pub id : Option V

-- The standard error codes, and the one for a job that is not active: -32700 and so on.
-- The codes stand here by their names: no branch reads their numbers.
pub data ErrorCode : Type 0 where
  parse_error_code invalid_request_code method_not_found_code invalid_params_code : ErrorCode
  internal_error_code not_active_code : ErrorCode

-- `data` is left out: no handler sets it.
pub record RpcError : Type 0 where
  pub code : ErrorCode
  pub message : String

pub record Response (V : Type 0) : Type 0 where
  pub jsonrpc : String
  pub result : Option V
  pub error : Option RpcError
  pub id : V

-- The parameters of `jobs.list`.
pub record ListParams : Type 0 where
  pub limit : Option ℕ
  pub offset : Option ℕ
  pub status : Option String

pub record DaemonStatus : Type 0 where
  pub version : String
  pub uptime_secs : ℕ
  pub active_jobs : ℕ
  pub rpc_bind : String
  pub simulation : Bool

-- What a method answers with.
pub data Payload : Type 0 where
  daemon_status_of : DaemonStatus → Payload
  jobs_of : List Job → Payload
  job_of_history : JobWithHistory → Payload
  -- jobs, count
  active_of : Dict String TransferStatus → ℕ → Payload
  status_of : TransferStatus → Payload

-- `serde_json`: what it reads a line and parameters as, and what it makes of a payload, if it can.
pub record Json : Type 1 where
  pub Value : Type 0
  pub null : Value
  pub parse : String → Result String (Request Value)
  pub list_params : Value → Result String ListParams
  pub id_params : Value → Result String String
  pub to_value : Payload → Option Value

-- What a handler reads, at one call.
pub record Served : Type 0 where
  pub db : Db
  pub progress : ProgressTracker
  pub version : String
  pub uptime_secs : ℕ
  pub rpc_bind : String
  pub simulation : Bool
  pub fault : Option SqlError
  pub later_fault : Option SqlError

module _ (J : Json) where
  unfoldable pub success : J.Value → Payload → Response J.Value
  success id payload = record {
    jsonrpc = "2.0";
    result = some (unwrap_or (J.to_value payload) J.null);
    error = none;
    id = id;
  }

  unfoldable pub error : J.Value → ErrorCode → String → Response J.Value
  error id code message = record {
    jsonrpc = "2.0";
    result = none;
    error = some (record { code = code; message = message });
    id = id;
  }

  abbrev pub parse_error : Response J.Value
  parse_error = error J.null parse_error_code "Parse error"

  abbrev pub invalid_request : J.Value → Response J.Value
  invalid_request id = error id invalid_request_code "Invalid request"

  abbrev pub method_not_found : J.Value → String → Response J.Value
  method_not_found id method = error id method_not_found_code ("Method not found: " <> method)

  abbrev pub invalid_params : J.Value → String → Response J.Value
  invalid_params id details = error id invalid_params_code details

  abbrev pub internal_error : J.Value → String → Response J.Value
  internal_error id details = error id internal_error_code details

  unfoldable pub is_notification : Request J.Value → Bool
  is_notification request = not (is_some request.id)

  unfoldable pub validate : Request J.Value → Result String (Unit {0})
  validate request =
      if not (request.jsonrpc == "2.0")
      then err "jsonrpc must be \"2.0\""
      else if request.method == ""
      then err "method must not be empty"
      else ok tt

  module _ (S : Sqlite) (served : Served) where
    unfoldable pub daemon_status : J.Value → Response J.Value
    daemon_status id = success id (
        daemon_status_of (record {
          version = served.version;
          uptime_secs = served.uptime_secs;
          active_jobs = active_count served.progress;
          rpc_bind = served.rpc_bind;
          simulation = served.simulation;
        }))

    abbrev pub listed_jobs : J.Value → Result String (List Job) → Response J.Value
    listed_jobs id (ok jobs) = success id (jobs_of jobs)
    listed_jobs id (err e) = internal_error id e

    abbrev pub list_with : J.Value → Result String ListParams → Response J.Value
    list_with id (err e) = invalid_params id e
    list_with id (ok p) =
        listed_jobs id
          (list S served.fault (unwrap_or p.limit 50) (unwrap_or p.offset 0) p.status served.db)

    unfoldable pub jobs_list : J.Value → J.Value → Response J.Value
    jobs_list id params = list_with id (J.list_params params)

    abbrev pub found_job : J.Value → Result String JobWithHistory → Response J.Value
    found_job id (ok job) = success id (job_of_history job)
    found_job id (err e) = internal_error id e

    abbrev pub get_with : J.Value → Result String String → Response J.Value
    get_with id (err e) = invalid_params id e
    get_with id (ok job_id) =
        found_job id (get_with_history S served.fault served.later_fault job_id served.db)

    unfoldable pub jobs_get : J.Value → J.Value → Response J.Value
    jobs_get id params = get_with id (J.id_params params)

    unfoldable pub progress_active : J.Value → Response J.Value
    progress_active id =
        success id (active_of (get_all served.progress) (length (get_all served.progress)))

    abbrev pub found_status : J.Value → String → Option TransferStatus → Response J.Value
    found_status id job_id (some status) = success id (status_of status)
    found_status id job_id none =
        error id not_active_code ("Job not found or not active: " <> job_id)

    abbrev pub progress_with : J.Value → Result String String → Response J.Value
    progress_with id (err e) = invalid_params id e
    progress_with id (ok job_id) = found_status id job_id (Progress.get job_id served.progress)

    unfoldable pub progress_get : J.Value → J.Value → Response J.Value
    progress_get id params = progress_with id (J.id_params params)

    abbrev pub dispatch : J.Value → J.Value → String → Response J.Value
    dispatch id params method =
        if method == "daemon.status"
        then daemon_status id
        else if method == "jobs.list"
        then jobs_list id params
        else if method == "jobs.get"
        then jobs_get id params
        else if method == "progress.active"
        then progress_active id
        else if method == "progress.get"
        then progress_get id params
        else method_not_found id method

    unfoldable pub handle : Request J.Value → Response J.Value
    handle request =
        dispatch (unwrap_or request.id J.null) (unwrap_or request.params J.null) request.method

  -- The system around a connection: what is served at the time of each line, `trim`, and the error
  -- of the serialization and the writing of a response.
  pub record Connection : Type 0 where
    pub served : ℕ → Served
    pub trim : String → String
    pub write_error : Response J.Value → Option String

  module _ (S : Sqlite) (c : Connection) where
    abbrev pub answer_valid :
        ℕ → Request J.Value → Result String (Unit {0}) → Option (Response J.Value)
    answer_valid n request (err msg) = some (invalid_request (unwrap_or request.id J.null))
    answer_valid n request (ok _) =
        if is_notification request then none else some (handle S (c.served n) request)

    abbrev pub answer_parsed : ℕ → Result String (Request J.Value) → Option (Response J.Value)
    answer_parsed n (err e) = some parse_error
    answer_parsed n (ok request) = answer_valid n request (validate request)

    -- The response to a line, unless it is a notification.
    unfoldable pub answer : ℕ → String → Option (Response J.Value)
    answer n trimmed = answer_parsed n (J.parse trimmed)

    -- What the connection ends with, and the responses that it has written.
    abbrev pub Exchange : Type 0
    Exchange = Result String (Unit {0}) × List (Response J.Value)

    abbrev pub after_response : Response J.Value → Option String → Exchange → Exchange
    after_response r (some e) rest = (err e, [])
    after_response r none (end, responses) = (end, r ∷ responses)

    abbrev pub respond : Option (Response J.Value) → Exchange → Exchange
    respond none rest = rest
    respond (some r) rest = after_response r (c.write_error r) rest

    -- `reads` are the results of `read_line`; an empty line is the end of the stream. `n` counts them.
    unfoldable pub handle_connection : ℕ → List (Result String String) → Exchange
    handle_connection n [] = (ok tt, [])
    handle_connection n (err e ∷ reads) = (err e, [])
    handle_connection n (ok line ∷ reads) =
        let rest = handle_connection (suc n) reads in
        let trimmed = c.trim line in
        if line == ""
        then (ok tt, [])
        else if trimmed == ""
        then rest
        else respond (answer n trimmed) rest
