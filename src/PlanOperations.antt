-- ===== src/PlanOperations.antt =====
-- src/protocol/plan-operations.ts: the receipts of plan writes and reviews. Buffer.byteLength and
-- the JSON codec are parameters: the snapshot is a text, and the envelope that it is read as has the version
-- and the receipts as they were parsed. A session key is `none` or "" where the source tests `!sessionKey`.
pub mod Budget
pub mod History
pub mod Durable
mod Tests
use cursor_opencode_provider.Base.{
  ◌+◌, ◌-◌, ◌*◌, ◌/◌, ◌%◌, ◌^◌, ◌≤◌, ◌<◌, min, max, ℕ, zero, suc, String, ◌≡◌, refl, sym, ap, ◌∙◌,
  subst, ◌≢◌, ◌↔◌, ◌⊎◌, inl, inr, Bool, true, false, not, ◌&&◌, ◌||◌, Option, none, some, List, [],
  ◌∷◌, ◌++◌, map, arith, ltb, leb, nat_beq, if◌then◌else◌, ltb→lt, lt→ltb, leb→le, nat_beq_iff,
  Bool-cases, Option-cases, is_some, get_or, length, take, drop, any, all, filter, length-append,
  length-filter-le, take-append-drop, length-take, length-drop, take-append, drop-append, All,
  All-append, All-filter, Eq, ◌==◌, eq_refl, string_eq, nat_eq,
}
use mathlib.Core.Option
use cursor_opencode_provider.JsMap.{Map, get, has, set, delete, touch, modify}

pub data Phase : Type 0 where
  write review : Phase

pub data AfterWrite : Type 0 where
  then_review then_ack then_hold : AfterWrite

pub data ReviewTool : Type 0 where
  plan_exit question : ReviewTool

pub record Receipt : Type 0 where
  pub interaction_id : ℕ
  pub create_plan_tool_call_id : Option String
  pub host_call_id : String
  pub plan_path : String
  pub plan_uri : String
  pub markdown : String
  pub phase : Phase
  pub bridge_kind : String
  pub after_write : Option AfterWrite
  pub review_tool_name : Option ReviewTool
  pub consumed_result_id : Option String

abbrev pub Store : Type 0
Store = Map String (List Receipt)

abbrev pub max_receipts : ℕ
max_receipts = 8

abbrev pub max_markdown_bytes : ℕ
max_markdown_bytes = 524288

abbrev pub max_sessions : ℕ
max_sessions = 64

-- The key of a session that is not falsy.
abbrev pub session_of : Option String → Option String
session_of none = none
session_of (some k) = if k == "" then none else some k

-- An id that is present and not "".
abbrev pub is_consumed : Receipt → Bool
is_consumed r = is_some (session_of r.consumed_result_id)

-- `{ ok: true }` or the error.
pub data Admission : Type 0 where
  admitted sessions_full receipts_full : Admission

module _ (byte_length : String → ℕ) where
  abbrev pub markdown_bytes : List Receipt → ℕ
  markdown_bytes [] = 0
  markdown_bytes (r ∷ rs) = byte_length r.markdown + markdown_bytes rs

  abbrev pub can_admit_in : Store → String → String → Admission
  can_admit_in store key markdown =
      if not (has key store) && leb max_sessions (length store)
      then sessions_full
      else if leb max_receipts (length (get_or (get key store) []))
      then receipts_full
      else if ltb max_markdown_bytes
          (markdown_bytes (get_or (get key store) []) + byte_length markdown)
      then receipts_full
      else admitted

  pub can_admit_plan_operation : Store → Option String → String → Admission
  can_admit_plan_operation store session markdown = elim (session_of session) [
    | none ↦ admitted
    | some key ↦ can_admit_in store key markdown
  ]

  abbrev pub record_in : Store → String → Receipt → Store × Admission
  record_in store key receipt = elim (can_admit_in store key receipt.markdown) [
    | admitted ↦ (touch key (get_or (get key store) [] ++ (receipt ∷ [])) store, admitted)
    | sessions_full ↦ (store, sessions_full)
    | receipts_full ↦ (store, receipts_full)
  ]

  pub record_plan_operation : Store → Option String → Receipt → Store × Admission
  record_plan_operation store session receipt = elim (session_of session) [
    | none ↦ (store, admitted)
    | some key ↦ record_in store key receipt
  ]

abbrev pub consume : String → Option Phase → Receipt → Receipt
consume result next r = record r { consumed_result_id = some result; phase = get_or next r.phase }

-- The first receipt of the host call that is not consumed is changed in place.
pub consume_first : String → String → Option Phase → List Receipt → List Receipt
consume_first host result next [] = []
consume_first host result next (r ∷ rs) =
    if r.host_call_id == host && not (is_consumed r)
    then consume result next r ∷ rs
    else r ∷ consume_first host result next rs

pub update_plan_operation_consumed : Store → Option String → String → String → Option Phase → Store
unfolding consume_first
update_plan_operation_consumed store session host result next = elim (session_of session) [
  | none ↦ store
  | some key ↦ modify key (consume_first host result next) store
]

abbrev pub store_rest : Store → String → List Receipt → Store
store_rest store key [] = delete key store
store_rest store key (r ∷ rs) = set key (r ∷ rs) store

abbrev pub clear_in : Store → String → String → Store
clear_in store key host = elim (get key store) [
  | none ↦ store
  | some rs ↦ store_rest store key (filter (λ r. not (r.host_call_id == host)) rs)
]

pub clear_plan_operation : Store → Option String → String → Store
clear_plan_operation store session host = elim (session_of session) [
  | none ↦ store
  | some key ↦ clear_in store key host
]

pub clear_plan_operations : Store → Option String → Store
clear_plan_operations store session = elim (session_of session) [
  | none ↦ store
  | some key ↦ delete key store
]

pub plan_operations_for : Store → Option String → List Receipt
plan_operations_for store session = elim (session_of session) [
  | none ↦ []
  | some key ↦ get_or (get key store) []
]

abbrev pub in_review : Receipt → Bool
in_review r = elim r.phase [ write ↦ false | review ↦ true ]

pub incomplete_plan_operations : Store → Option String → List Receipt
unfolding plan_operations_for
incomplete_plan_operations store session =
    filter (λ r. in_review r || not (is_consumed r)) (plan_operations_for store session)

-- An entry of the parsed snapshot, with `none` for a field of another type or value.
pub record ParsedReceipt : Type 0 where
  pub interaction_id : Option ℕ
  pub create_plan_tool_call_id : Option String
  pub host_call_id : Option String
  pub plan_path : Option String
  pub plan_uri : Option String
  pub markdown : Option String
  pub phase : Option Phase
  pub bridge_kind : Option String
  pub after_write : Option AfterWrite
  pub review_tool_name : Option ReviewTool
  pub consumed_result_id : Option String

-- The value that the serialized text parses to.
abbrev pub to_parsed : Receipt → Option ParsedReceipt
to_parsed r = some (record {
  interaction_id = some r.interaction_id;
  create_plan_tool_call_id = r.create_plan_tool_call_id;
  host_call_id = some r.host_call_id;
  plan_path = some r.plan_path;
  plan_uri = some r.plan_uri;
  markdown = some r.markdown;
  phase = some r.phase;
  bridge_kind = some r.bridge_kind;
  after_write = r.after_write;
  review_tool_name = r.review_tool_name;
  consumed_result_id = r.consumed_result_id;
})

infixl 20 ◌>>=◌
abbrev ◌>>=◌ {ℓ κ} : {A : Type ℓ} {B : Type κ} → Option A → (A → Option B) → Option B
none >>= f = none
(some a) >>= f = f a

abbrev pub parse_receipt : Option ParsedReceipt → Option Receipt
parse_receipt none = none
parse_receipt (some p) = do
  interaction ← p.interaction_id
  host ← p.host_call_id
  path ← p.plan_path
  uri ← p.plan_uri
  text ← p.markdown
  stage ← p.phase
  bridge ← p.bridge_kind
  some (record {
    interaction_id = interaction;
    create_plan_tool_call_id = p.create_plan_tool_call_id;
    host_call_id = host;
    plan_path = path;
    plan_uri = uri;
    markdown = text;
    phase = stage;
    bridge_kind = bridge;
    after_write = p.after_write;
    review_tool_name = p.review_tool_name;
    consumed_result_id = p.consumed_result_id;
  })

-- The object in a snapshot: its version, where it is a number, and its list of receipts, where it is a list.
pub record Envelope : Type 0 where
  pub version : Option ℕ
  pub receipts : Option (List (Option ParsedReceipt))

-- `JSON.stringify({ version: 1, receipts })`
abbrev pub envelope_of : List Receipt → Envelope
envelope_of rs = record { version = some 1; receipts = some (map to_parsed rs) }

module _ (stringify : Envelope → String) where
  pub serialize_plan_operations : Store → String → Option String
  serialize_plan_operations store key = elim (get_or (get key store) []) [
    | [] ↦ none
    | r ∷ rs ↦ some (stringify (envelope_of (r ∷ rs)))
  ]

abbrev pub is_version_one : Option ℕ → Bool
is_version_one none = false
is_version_one (some n) = nat_beq n 1

abbrev pub within_limit :
    Option (List (Option ParsedReceipt)) → Option (List (Option ParsedReceipt))
within_limit none = none
within_limit (some ps) = if ltb max_receipts (length ps) then none else some ps

-- The list of a value of version 1 within the limit.
abbrev pub admitted_list : Envelope → Option (List (Option ParsedReceipt))
admitted_list e = if is_version_one e.version then within_limit e.receipts else none

module _ (byte_length : String → ℕ) where
  -- The loop over the entries, with the bytes counted so far.
  pub parse_receipts : ℕ → List (Option ParsedReceipt) → Option (List Receipt)
  parse_receipts bytes [] = some []
  parse_receipts bytes (p ∷ ps) = do
    r ← parse_receipt p
    rest ←
        if ltb max_markdown_bytes (bytes + byte_length r.markdown)
        then none
        else parse_receipts (bytes + byte_length r.markdown) ps
    some (r ∷ rest)

  abbrev pub restore_list : Store → String → Option (List Receipt) → Store
  restore_list store key none = store
  restore_list store key (some []) = store
  restore_list store key (some (r ∷ rs)) = set key (r ∷ rs) store

  -- What is restored of a value: nothing of one that is no JSON or falsy, of another version, or of another shape.
  abbrev pub restored_receipts : Option Envelope → Option (List Receipt)
  unfolding parse_receipts
  restored_receipts none = none
  restored_receipts (some e) = elim (admitted_list e) [
    | none ↦ none
    | some ps ↦ parse_receipts 0 ps
  ]

  -- `parse` is `JSON.parse`, with `none` for its exception and for a falsy value. An empty text is falsy.
  pub restore_plan_operations :
      (parse : String → Option Envelope) → Store → String → Option String → Store
  unfolding restored_receipts
  restore_plan_operations parse store key none = store
  restore_plan_operations parse store key (some encoded) =
      if encoded == "" || has key store
      then store
      else restore_list store key (restored_receipts (parse encoded))
