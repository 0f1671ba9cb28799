-- ===== src/HostMode/Flush.antt =====
-- What the callback's end leaves of the queue.
use cursor_opencode_provider.Base.{
  String, ◌≡◌, Bool, none, some, arith, nat_beq, if◌then◌else◌, nat_beq_iff, ◌==◌, eq_refl,
  string_eq, nat_eq,
}
use cursor_opencode_provider.JsMap.{get}
use cursor_opencode_provider.JsMap.Laws.{get-delete, get-modify}
use cursor_opencode_provider.HostMode.{State, Pending, flush_finish}

-- At the callback's end a request that was queued for the session meanwhile stays as it is; the applied
-- request itself leaves the queue if the callback returned, and stays without an owner if it threw.
pub get-flush_finish :
    (s : State) (key : String) (p q : Pending) (applied : Bool)
    → get key s.pending ≡ some q
    → get key (flush_finish s key p applied).pending ≡ (
        if nat_beq q.serial p.serial
        then (if applied then none else some (record q { owner = none }))
        else some q)
unfolding flush_finish
get-flush_finish s key p q applied h = ground (
  arith,
  get-delete key key s.pending,
  get-modify key key (λ (x : Pending). record x { owner = none }) s.pending,
  eq_refl key,
)

-- The callback's end frees the session for the next flush, and touches no other session.
pub applying-flush_finish :
    (s : State) (key other : String) (p : Pending) (applied : Bool)
    → get key s.applying ≡ some p
    → get other (flush_finish s key p applied).applying
      ≡ (if key == other then none else get other s.applying)
unfolding flush_finish
applying-flush_finish s key other p applied h =
    ground (arith, get-delete key other s.applying, nat_beq_iff p.serial p.serial)
