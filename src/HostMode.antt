-- ===== src/HostMode.antt =====
-- src/host-agent-mode.ts and src/protocol/cursor-mode.ts: the queue of primary-agent switches, and the
-- agent that a Cursor mode selects. String.prototype.trim and toLowerCase are parameters. The callback of
-- a flush stands between `flush_begin` and `flush_finish`: what runs meanwhile is a sequence of other
-- operations. A queued object is known by its serial number, as `===` knows it by its identity.
pub mod Flush
mod Tests
use mathlib.Core.Option
use cursor_opencode_provider.Base.{
  ◌+◌, ◌-◌, ◌*◌, ◌/◌, ◌%◌, ◌^◌, ◌≤◌, ◌<◌, min, max, ℕ, zero, suc, String, ◌≡◌, refl, sym, ap, ◌∙◌,
  subst, ◌≢◌, ◌↔◌, ◌⊎◌, inl, inr, Bool, true, false, not, ◌&&◌, ◌||◌, Option, none, some, List, [],
  ◌∷◌, ◌++◌, map, arith, ltb, leb, nat_beq, if◌then◌else◌, ltb→lt, lt→ltb, leb→le, nat_beq_iff,
  Bool-cases, Option-cases, is_some, get_or, length, take, drop, any, all, filter, length-append,
  length-filter-le, take-append-drop, length-take, length-drop, take-append, drop-append, All,
  All-append, All-filter, Eq, ◌==◌, eq_refl, string_eq, nat_eq,
}
use cursor_opencode_provider.JsMap.{Map, get, has, set, delete, modify}

pub data Role : Type 0 where
  plan_role read_only implement : Role

pub data Guidance : Type 0 where
  plan_guidance ask_guidance debug_guidance multitask triage project background agent_guidance :
      Guidance

pub data HostAgent : Type 0 where
  plan build : HostAgent

pub record ModeSpec : Type 0 where
  pub role : Role
  pub wire : ℕ
  pub guidance : Guidance

abbrev pub ask_spec : ModeSpec
ask_spec = record { role = read_only; wire = 2; guidance = ask_guidance }

abbrev pub implement_spec : Guidance → ModeSpec
implement_spec g = record { role = implement; wire = 1; guidance = g }

abbrev pub modes : Map String ModeSpec
modes =
    ("plan", record { role = plan_role; wire = 3; guidance = plan_guidance })
    ∷ ("spec", record { role = plan_role; wire = 1; guidance = plan_guidance })
    ∷ ("chat", ask_spec)
    ∷ ("ask", ask_spec)
    ∷ ("search", ask_spec)
    ∷ ("debug", record { role = implement; wire = 4; guidance = debug_guidance })
    ∷ ("multitask", implement_spec multitask)
    ∷ ("triage", implement_spec triage)
    ∷ ("project", implement_spec project)
    ∷ ("background", implement_spec background)
    ∷ []

abbrev pub agent_of_role : Role → Option HostAgent
agent_of_role plan_role = some plan
agent_of_role implement = some build
agent_of_role read_only = none

abbrev pub is_plan : HostAgent → Bool
is_plan a = elim a [ plan ↦ true | build ↦ false ]

-- A string that is present and not "".
abbrev pub present : Option String → Option String
present none = none
present (some s) = if s == "" then none else some s

pub record Input : Type 0 where
  pub session_id : String
  pub target_mode_id : String
  pub cursor_session_id : Option String
  pub host_agent : Option String

pub record Request : Type 0 where
  pub input : Input
  pub agent : HostAgent

pub record Pending : Type 0 where
  pub request : Request
  pub owner : Option String
  pub attempts : ℕ
  pub serial : ℕ

pub record Registration : Type 0 where
  pub id : ℕ
  pub resumes_turn : Bool
  pub accepts : Option (Request → Bool)

-- The newest registration is first.
pub record State : Type 0 where
  pub registrations : List Registration
  pub pending : Map String Pending
  pub applying : Map String Pending
  pub next : ℕ

abbrev pub active_switch : State → Option Registration
active_switch s = elim s.registrations [ [] ↦ none | r ∷ rs ↦ some r ]

pub data SwitchKind : Type 0 where
  resumes next_turn : SwitchKind

pub host_agent_mode_switch_kind : State → Option SwitchKind
host_agent_mode_switch_kind s =
    Option.map (λ r. if r.resumes_turn then resumes else next_turn) (active_switch s)

-- `none` removes every switch and what is pending.
pub set_host_agent_mode_switch : State → Option Registration → State
set_host_agent_mode_switch s none = record s { registrations = []; pending = [] }
set_host_agent_mode_switch s (some r) = record s { registrations = r ∷ s.registrations }

abbrev pub remove_registration : ℕ → List Registration → List Registration
remove_registration id [] = []
remove_registration id (r ∷ rs) =
    let rest = remove_registration id rs in if nat_beq r.id id then rs else r ∷ rest

abbrev pub is_empty {ℓ} : {A : Type ℓ} → List A → Bool
is_empty [] = true
is_empty (x ∷ xs) = false

pub dispose_switch : State → ℕ → State
dispose_switch s id =
    let rest = remove_registration id s.registrations in
    record s { registrations = rest; pending = if is_empty rest then [] else s.pending }

abbrev pub max_pending_switches : ℕ
max_pending_switches = 256

-- The loop stops at an empty key, as `if (!oldest) break` does.
abbrev pub evict_named : Map String Pending → Map String Pending
evict_named [] = []
evict_named (x ∷ m) =
    if ltb max_pending_switches (length (x ∷ m)) && not (x.0 == "") then evict_named m else x ∷ m

abbrev pub to_pending : Request → ℕ → Pending
to_pending r serial = record {
  request = r;
  owner = present (r.input.cursor_session_id);
  attempts = 0;
  serial = serial;
}

-- Whether the switch takes the request.
abbrev pub takes : Option Registration → Request → Bool
takes none r = false
takes (some a) r = get_or (Option.map (λ f. f r) a.accepts) true

abbrev pub enqueue : State → Request → State
enqueue s r = record s {
  pending = evict_named (set r.input.session_id (to_pending r s.next) s.pending);
  next = suc s.next;
}

module _ (trim lower : String → String) where
  abbrev pub normalize_cursor_mode_id : String → String
  normalize_cursor_mode_id mode = lower (trim mode)

  pub cursor_mode_spec : String → Option ModeSpec
  cursor_mode_spec mode =
      Option.map (λ id. get_or (get id modes) (implement_spec agent_guidance))
        (present (some (normalize_cursor_mode_id mode)))

  pub host_agent_for_cursor_mode : String → Option HostAgent
  unfolding cursor_mode_spec
  host_agent_for_cursor_mode mode = elim (cursor_mode_spec mode) [
    | none ↦ none
    | some spec ↦ agent_of_role spec.role
  ]

  pub cursor_agent_mode_wire_value : String → ℕ
  unfolding cursor_mode_spec
  cursor_agent_mode_wire_value mode =
      get_or (Option.map (λ spec. spec.wire) (cursor_mode_spec mode)) 1

  abbrev pub trimmed : Input → Input
  trimmed i = record {
    session_id = trim i.session_id;
    target_mode_id = trim i.target_mode_id;
    cursor_session_id = i.cursor_session_id;
    host_agent = i.host_agent;
  }

  -- The queued object has the host agent trimmed; `accepts` sees it as it came.
  abbrev pub stored : Request → Request
  stored r = record {
    input = record (r.input) { host_agent = present (Option.map trim r.input.host_agent) };
    agent = r.agent;
  }

  pub queue_host_agent_mode_switch : State → Input → State × Bool
  unfolding host_agent_for_cursor_mode
  queue_host_agent_mode_switch s i = elim (host_agent_for_cursor_mode (trim i.target_mode_id)) [
    | none ↦ (s, false)
    | some a ↦
        let r : Request = record { input = trimmed i; agent = a } in
        if trim i.session_id == "" || not (takes (active_switch s) r)
        then (s, false)
        else (enqueue s (stored r), true)
  ]

  abbrev pub key_of : Option String → Option String
  key_of session = present (Option.map trim session)

  abbrev pub resumes_now : State → Bool
  resumes_now s = get_or (Option.map (λ r. r.resumes_turn) (active_switch s)) false

  abbrev pub pending_of : State → Option String → Option Pending
  pending_of s session = elim (key_of session) [ none ↦ none | some key ↦ get key s.pending ]

  abbrev pub is_owner : Option Pending → String → Bool
  is_owner none run = false
  is_owner (some p) run = get_or (Option.map (λ o. o == run) p.owner) false

  pub is_host_agent_handoff_pending : State → Option String → String → Bool
  is_host_agent_handoff_pending s session run = resumes_now s && is_owner (pending_of s session) run

  pub is_host_plan_entry_pending : State → Option String → Bool
  is_host_plan_entry_pending s session =
      resumes_now s
      && get_or (Option.map (λ p. is_plan p.request.agent) (pending_of s session)) false

  pub cancel_host_agent_mode_switch : State → Option String → State
  cancel_host_agent_mode_switch s session = elim (key_of session) [
    | none ↦ s
    | some key ↦ record s { pending = delete key s.pending }
  ]

pub record FlushOptions : Type 0 where
  pub run : Option String
  pub terminal : Bool
  pub pump_active : Bool
  pub pending_execs : ℕ

-- The owner of the request is another Run than the one that ended.
abbrev pub superseded : Option String → Option String → Bool
superseded (some owner) (some run) = not (owner == run)
superseded _ _ = false

abbrev pub may_apply : FlushOptions → Bool
may_apply o = o.terminal && (not o.pump_active && nat_beq o.pending_execs 0)

abbrev pub attempted : Pending → Pending
attempted p = record p { attempts = suc p.attempts }

-- The flush up to the callback, which is called with the request that is returned. The attempt is
-- counted on the object that both maps share.
pub flush_key : State → String → FlushOptions → State × Option Pending
flush_key s key o = elim (get key s.pending) [
  | none ↦ (s, none)
  | some p ↦
      if not (is_some (active_switch s)) || (has key s.applying || not (may_apply o))
      then (s, none)
      else if superseded p.owner (present o.run)
      then (record s { pending = delete key s.pending }, none)
      else (
        record s {
          pending = modify key attempted s.pending;
          applying = set key (attempted p) s.applying;
        },
        some (attempted p),
      )
]

abbrev pub is_same : Option Pending → Pending → Bool
is_same none p = false
is_same (some q) p = nat_beq q.serial p.serial

-- After the callback: `true` if it returned, `false` if it threw.
pub flush_finish : State → String → Pending → Bool → State
flush_finish s key p applied = record s {
  pending =
      if is_same (get key s.pending) p
      then (if applied
          then delete key s.pending
          else modify key (λ q. record q { owner = none }) s.pending)
      else s.pending;
  applying = if is_same (get key s.applying) p then delete key s.applying else s.applying;
}

pub flush_begin : (String → String) → State → Option String → FlushOptions → State × Option Pending
unfolding flush_key
flush_begin trim s session o = elim (present (Option.map trim session)) [
  | none ↦ (s, none)
  | some key ↦ flush_key s key o
]
