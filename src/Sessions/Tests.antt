-- ===== src/Sessions/Tests.antt =====
-- One Run with one pending result, and the properties at it.
use cursor_opencode_provider.Base.{
  ◌≤◌, ℕ, String, ◌≡◌, refl, subst, ◌↔◌, inl, inr, true, false, none, List, [], ◌∷◌, arith,
  Bool-cases, all, ◌==◌, string_eq, nat_eq,
}
use cursor_opencode_provider.Sessions.State.{
  PendingExecState, PendingExec, Session, ExecKey, exec_eq, Manager, Host, refresh_hard_deadline,
  hard_deadline_expired, schedule_hard_deadline, put_tombstone, get_tombstone,
  record_semantic_progress, pending, claimed,
}
use cursor_opencode_provider.Sessions.{close, classify, Claim, claim, already_delivered}
use cursor_opencode_provider.Sessions.Registry.{after_taking, enforce_open_session_cap}
use cursor_opencode_provider.Sessions.Cap.{IsOpen, IsRegistry}
use cursor_opencode_provider.Sessions.Capped.{IsCapped, enforce_open_session_cap-IsCapped}
use cursor_opencode_provider.Sessions.Claims.{
  Step, take_step, won, claims_won, claims_won-le-one, claims, looks,
}
use cursor_opencode_provider.Sessions.Delivery.{
  FrameWrite, unavailable, give_up, settle_delivered, after_write, write_frames, start_writing,
  deliver_entry, deliver_claim, sent, all_delivered,
}
use cursor_opencode_provider.Sessions.Delivered.{is_sent, deliver_claim-all_delivered}
use cursor_opencode_provider.Sessions.Policy.{
  undefined, null, integer, ok, thrown, not_positive, Options, Policy, default_continuation_policy,
  no_options, object, resolve_continuation_policy,
}
use cursor_opencode_provider.Sessions.Accepted.{IsPolicyOf, resolve_continuation_policy-IsPolicyOf}
use cursor_opencode_provider.JsMap.{Map}

abbrev quiet_host : Host
quiet_host = record {
  last_activity_at = λ id. none;
  running_tool_deadline = λ id now cap. none;
  tombstone_ttl_ms = 100;
  tombstone_limit = 4;
  max_open_sessions = 0;
}

abbrev one_session : Map ℕ PendingExec → Session
one_session m = record {
  session_id = "s";
  open_code_session_id = none;
  pendings = m;
  pump_owner = none;
  pump_active = false;
  closed = false;
  stream_is_closed = false;
  answered_continuation = false;
  deferred_terminal_reason = none;
  is_host_interrupted = false;
  semantic_idle_ms = 50;
  hard_cap_ms = 60;
  created_at = 1;
  last_inbound_at = 1;
  semantic_deadline_at = 51;
  expires_at = none;
  hard_deadline_timer = none;
}

abbrev read_result : PendingExecState → PendingExec
read_result st = record {
  result_field = "readResult";
  tool_name = none;
  managed_job_directory = none;
  state = st;
  registered_at = 1;
  hard_deadline_at = 61;
  bridged = false;
  aborted = false;
  answered = false;
  is_delivering = false;
  object = 7;
}

abbrev registry_of : Map ℕ PendingExec → Map ExecKey String → Manager
registry_of pendings routes = record {
  objects = ("s", one_session pendings) ∷ [];
  sessions = "s" ∷ [];
  by_exec_id = routes;
  by_open_code_session_id = [];
  tombstones = [];
  tool_call_routes = [];
  next_object = 8;
  released = [];
}

abbrev waiting : PendingExecState → Manager
waiting st = registry_of ((3, read_result st) ∷ []) ((("s", 3), "s") ∷ [])

abbrev two_claims : List Step
two_claims = claims 2 "s" 3 ∷ looks 3 "s" 3 ∷ claims 4 "s" 3 ∷ []

claims_once : claims_won quiet_host "s" 3 two_claims (waiting pending) ≡ 1
unfolding claims_won won take_step claim classify close hard_deadline_expired refresh_hard_deadline
    put_tombstone get_tombstone
claims_once = refl

claims_won-le-one_example : claims_won quiet_host "s" 3 two_claims (waiting pending) ≤ 1
claims_won-le-one_example = claims_won-le-one quiet_host "s" 3 two_claims (waiting pending)

idle-IsRegistry : IsRegistry (registry_of [] [])
idle-IsRegistry id e = elim (Bool-cases ("s" == id)) [
  | inl b ↦
      subst (IsOpen (registry_of [] [])) ((string_eq.beq_iff "s" id).0 b)
        (record { session = one_session []; found = refl; named = refl; is_open = refl })
  | inr b ↦ let q : false ≡ true = rw b at e in cc
]

enforce_open_session_cap-IsCapped_example :
    IsCapped 0 "t"
      (registry_of [] [])
      (enforce_open_session_cap quiet_host 9 "t" (registry_of [] []))
enforce_open_session_cap-IsCapped_example =
    enforce_open_session_cap-IsCapped quiet_host 9 "t" (registry_of [] []) idle-IsRegistry

abbrev custom : Options
custom = record {
  keys = "heartbeatMs" ∷ "softHealthMs" ∷ [];
  heartbeat_ms = integer 10;
  semantic_idle_ms = undefined;
  soft_health_ms = integer 20;
  hard_cap_ms = undefined;
}

abbrev custom_policy : Policy
custom_policy = record { heartbeat_ms = 10; semantic_idle_ms = 20; hard_cap_ms = 600000 }

resolves : resolve_continuation_policy (object custom) ≡ ok custom_policy
unfolding resolve_continuation_policy
resolves = refl

-- A null idle time is the default one; a null heartbeat is an error.
null_is_default :
    resolve_continuation_policy (object (record no_options { semantic_idle_ms = null }))
    ≡ ok default_continuation_policy
unfolding resolve_continuation_policy
null_is_default = refl

null_is_refused :
    resolve_continuation_policy (object (record no_options { heartbeat_ms = null }))
    ≡ thrown (not_positive "heartbeatMs")
unfolding resolve_continuation_policy
null_is_refused = refl

resolve_continuation_policy-IsPolicyOf_example :
    (resolve_continuation_policy (object custom) ≡ ok custom_policy)
    ↔ IsPolicyOf custom custom_policy
resolve_continuation_policy-IsPolicyOf_example =
    resolve_continuation_policy-IsPolicyOf custom custom_policy

abbrev read_claim : Claim
read_claim = record { session_id = "s"; exec_id = 3; object = 7 }

abbrev two_frames : List FrameWrite
two_frames =
    record { write = sent; meanwhile = λ m. m; after = 6 }
    ∷ record { write = sent; meanwhile = λ m. m; after = 7 }
    ∷ []

delivers :
    (deliver_claim quiet_host 5 read_claim two_frames false (waiting claimed)).1 ≡ all_delivered 2
unfolding deliver_claim deliver_entry start_writing write_frames after_write settle_delivered
    unavailable give_up hard_deadline_expired refresh_hard_deadline after_taking put_tombstone
    schedule_hard_deadline record_semantic_progress classify
delivers = refl

deliver_claim-all_delivered_example :
    (◌≡◌ {A = ℕ} 2 2)
    × (all is_sent two_frames ≡ true)
    × ((classify quiet_host 100 "s" 3
          (deliver_claim quiet_host 5 read_claim two_frames false (waiting claimed)).0).1
        ≡ already_delivered)
deliver_claim-all_delivered_example =
    deliver_claim-all_delivered quiet_host 5 read_claim two_frames false (waiting claimed) 2 100
      (omega arith) delivers (omega arith)
