-- ===== src/Postgres/Workers.antt =====
-- The sessions of workers: internal/postgres/worker_repository.go.
use ai_workload_platform.Common.{
  ltb, leb, ◌==◌, if◌then◌else◌, is_some, ℤ, pos, negsuc, length, database_failed,
  limit_out_of_range, worker_session_invalid, worker_draining, worker_not_found,
  worker_protocol_unsupported, invalid_worker_registration, Result, ok, err, or_fail, guard, ◌>>=◌,
  ◌>>◌, ℕ, zero, suc, ◌+◌, String, Bool, true, false, not, ◌&&◌, ◌||◌, none, some, List, [], ◌∷◌,
  ◌++◌, map, str_eq,
}
use ai_workload_platform.Compiler.Names.{codes, is_space}
use ai_workload_platform.Postgres.Query.{find, update_where, select_where, limit_to, order_by}
use ai_workload_platform.Postgres.Tables.{
  WorkerStatus, WorkerOperation, Session, Tables, Host, is_active_worker, is_draining, is_worker,
  find_worker, active_leases, digest_token, matches_token,
}
use Prim.Native.Char.{code}
use Prim.Native.String.{◌++◌ as append_text}

unfoldable pub trim_left : String → String
unfolding is_space
trim_left String.[] = ""
trim_left (String.◌∷◌ c text) =
    let rest = trim_left text in if is_space (code c) then rest else String.◌∷◌ c text

unfoldable pub trim_right : String → String
unfolding is_space
trim_right String.[] = ""
trim_right (String.◌∷◌ c text) =
    let rest = trim_right text in
    if is_space (code c) && str_eq rest "" then "" else String.◌∷◌ c rest

-- `strings.TrimSpace`
unfoldable pub trim_space : String → String
unfolding trim_left trim_right
trim_space text = trim_right (trim_left text)

pub record RegisterRequest : Type 0 where
  pub display_name : String
  pub protocol_version : ℤ
  pub executor_kinds : List String
  pub max_concurrency : ℤ

-- `ProtocolVersion`
abbrev pub is_version : ℤ → Bool
is_version (pos n) = n == 1
is_version (negsuc n) = false

-- The Boolean tests of a range from 1 to `top`.
abbrev pub from_one_to : ℕ → ℤ → Bool
from_one_to top (pos n) = leb 1 n && leb n top
from_one_to top (negsuc n) = false

abbrev pub contains_text : String → List String → Bool
contains_text text [] = false
contains_text text (other ∷ texts) = str_eq text other || contains_text text texts

-- The loop over the kinds: only the mock executor is taken, and each kind once.
unfoldable pub normalize_kinds : List String → List String → Result (List String)
normalize_kinds seen [] = ok []
normalize_kinds seen (kind ∷ kinds) = do
  guard (str_eq kind "mock") invalid_worker_registration
  rest ← normalize_kinds (kind ∷ seen) kinds
  ok (if contains_text kind seen then rest else kind ∷ rest)

unfoldable pub normalize_worker_registration : RegisterRequest → Result RegisterRequest
unfolding trim_space normalize_kinds
normalize_worker_registration request = do
  let name = trim_space request.display_name
  guard (is_version request.protocol_version) worker_protocol_unsupported
  guard (leb 1 (length (codes name)) && leb (length (codes name)) 128) invalid_worker_registration
  guard (from_one_to 1024 request.max_concurrency) invalid_worker_registration
  guard (leb 1 (length request.executor_kinds) && leb (length request.executor_kinds) 16)
      invalid_worker_registration
  kinds ← normalize_kinds [] request.executor_kinds
  ok (record request { display_name = name; executor_kinds = kinds })

abbrev pub new_session : RegisterRequest → String → String → ℕ → Session
new_session request worker_id token_hash at = record {
  worker_id = worker_id;
  display_name = request.display_name;
  protocol_version = request.protocol_version;
  executor_kinds = request.executor_kinds;
  max_concurrency = request.max_concurrency;
  status = WorkerStatus.active;
  token_hash = token_hash;
  registered_at = at;
  last_heartbeat_at = at;
  stopped_at = none;
}

abbrev has_hash : String → Session → Bool
has_hash hash session = str_eq session.token_hash hash

-- The two unique keys of worker_sessions.
unfoldable pub is_free : Tables → String → String → Bool
unfolding find_worker find
is_free t worker_id hash =
    not (is_some (find_worker t worker_id)) && not (is_some (find (has_hash hash) t.workers))

abbrev pub worker_prefix : String → String
worker_prefix suffix = append_text "wrk_" suffix

-- The tries with new credentials, where `tokens` are the pairs that `GenerateToken` returns.
unfoldable pub insert_session :
    Host
    → RegisterRequest
    → ℕ
    → ℕ
    → List (String × String)
    → Tables
    → Result (Tables × Session × String)
unfolding is_free digest_token
insert_session host request at zero tokens t = err database_failed
insert_session host request at (suc tries) [] t = err database_failed
insert_session host request at (suc tries) ((suffix, token) ∷ tokens) t =
    let rest = insert_session host request at tries tokens t in
    let session = new_session request (worker_prefix suffix) (digest_token host token) at in
    if is_free t session.worker_id session.token_hash
    then ok (record t { workers = t.workers ++ session ∷ [] }, session, token)
    else rest

unfoldable pub register_worker :
    Host
    → RegisterRequest
    → ℕ
    → List (String × String)
    → Tables
    → Result (Tables × Session × String)
unfolding normalize_worker_registration insert_session
register_worker host request at tokens t = do
  normalized ← normalize_worker_registration request
  insert_session host normalized at 3 tokens t

-- The operation is one of the four that the protocol has.
abbrev pub is_known : WorkerOperation → Bool
is_known (WorkerOperation.unknown text) = false
is_known _ = true

-- The tests of `AuthenticateWorker` on the status of a session whose token matches.
unfoldable pub permit : WorkerOperation → WorkerStatus → Result (Unit {0})
permit operation WorkerStatus.offline = err worker_session_invalid
permit operation WorkerStatus.stopped = err worker_session_invalid
permit WorkerOperation.claim WorkerStatus.draining = err worker_draining
permit operation WorkerStatus.draining = ok tt
permit operation WorkerStatus.active = ok tt

unfoldable pub authenticate_worker :
    Host → Tables → String → String → ℤ → WorkerOperation → Result Session
unfolding find_worker matches_token permit
authenticate_worker host t worker_id token version operation = do
  guard (is_version version) worker_protocol_unsupported
  session ← or_fail (find_worker t worker_id) worker_session_invalid
  guard (is_version session.protocol_version) worker_protocol_unsupported
  guard (matches_token host token session.token_hash) worker_session_invalid
  guard (is_known operation) worker_session_invalid
  permit operation session.status
  ok session

-- A session that still may hold leases: `status IN ('active', 'draining')`.
abbrev pub is_live : WorkerStatus → Bool
is_live status = is_active_worker status || is_draining status

abbrev pub live_worker : String → Session → Bool
live_worker worker_id session = is_worker worker_id session && is_live session.status

-- The UPDATE of a drained session.
abbrev pub drain_row : ℕ → ℕ → Session → Session
drain_row leases at session =
    if leases == 0
    then record session { status = WorkerStatus.stopped; stopped_at = some at }
    else record session { status = WorkerStatus.draining; stopped_at = none }

-- The answer is the session and the number of its leases.
unfoldable pub drain_worker : ℕ → String → Tables → Result (Tables × Session × ℕ)
unfolding find update_where active_leases
drain_worker at worker_id t = do
  session ← or_fail (find (live_worker worker_id) t.workers) worker_session_invalid
  let leases = active_leases t worker_id
  ok (
    record t { workers = update_where (is_worker worker_id) (drain_row leases at) t.workers },
    drain_row leases at session,
    leases,
  )

unfoldable pub get_worker_summary : Tables → String → Result (Session × ℕ)
unfolding find_worker active_leases
get_worker_summary t worker_id = do
  session ← or_fail (find_worker t worker_id) worker_not_found
  ok (session, active_leases t worker_id)

abbrev listed_after : Host → String → Session → Bool
listed_after host after session = host.precedes after session.worker_id

abbrev by_worker_id : Host → Session → Session → Bool
by_worker_id host a b = host.precedes a.worker_id b.worker_id

abbrev with_leases : Tables → Session → Session × ℕ
with_leases t session = (session, active_leases t session.worker_id)

-- One page in the order of the identifiers, and whether there are more.
unfoldable pub list_worker_summaries :
    Host → Tables → String → ℕ → Result (List (Session × ℕ) × Bool)
unfolding select_where order_by limit_to active_leases
list_worker_summaries host t after limit = do
  guard (leb 1 limit && leb limit 100) limit_out_of_range
  let rows = order_by (by_worker_id host) (select_where (listed_after host after) t.workers)
  let page = map (with_leases t) (limit_to (limit + 1) rows)
  ok (limit_to limit page, ltb limit (length page))
