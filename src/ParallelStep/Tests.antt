-- ===== src/ParallelStep/Tests.antt =====
-- A step of two calls, one of them reported twice, and the theorems at it.
use cursor_opencode_provider.Base.{
  ℕ, String, ◌≡◌, refl, true, false, some, List, [], ◌∷◌, string_eq, nat_eq,
}
use cursor_opencode_provider.ParallelStep.{
  create_parallel_step, note_listed_call_count, should_hold_parallel_step,
}
use cursor_opencode_provider.ParallelStep.Counting.{
  resolve_all, fresh_count, should_hold-resolve_all,
}

abbrev reported : List (String × ℕ)
reported = ("a", 1) ∷ ("a", 2) ∷ ("old", 3) ∷ ("b", 4) ∷ []

counts_two : fresh_count ("old" ∷ []) [] reported ≡ 2
unfolding fresh_count
counts_two = refl

should_hold-resolve_all_example :
    should_hold_parallel_step
      (resolve_all
        (note_listed_call_count (create_parallel_step 0) (some 2) 0).0
        ("old" ∷ [])
        reported)
      false
      true
    ≡ false
unfolding fresh_count
should_hold-resolve_all_example = should_hold-resolve_all 0 0 2 ("old" ∷ []) reported false true
