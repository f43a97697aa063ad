-- ===== src/Watch/Filtered/Errors.antt =====
-- The tracker of errors: which of them are logged.
use kpt_resource_group.Base.{
  ◌≡◌, refl, true, ◌&&◌, none, List, [], ◌∷◌, String, ◌≤◌, ◌-◌, leb, arith, contains, if◌then◌else◌,
  string_eq, ==_refl,
}
use kpt_resource_group.GoMap.{get, delete, keys}
use kpt_resource_group.GoMap.Laws.{get-put, get-delete, contains-keys}
use kpt_resource_group.Api.{Time}
use kpt_resource_group.Watch.Filtered.{
  ErrorTracker, has_old, prune_loop, prune_errors, add_error, error_logging_interval,
}

get-prune_loop :
    (now : Time) (ids : List String) (t : ErrorTracker) (id : String)
    → get (prune_loop now t ids) id
      ≡ (if contains ids id && has_old now (get t id) then none else get t id)
unfolding prune_loop contains
get-prune_loop now [] t id = refl
get-prune_loop now (i ∷ ids) t id = ground (
  arith,
  get-prune_loop now ids (if has_old now (get t i) then delete t i else t) id,
  get-delete t i id,
  string_eq.equals_iff i id,
)

-- What pruneErrors forgets makes no difference: at any later time addError answers what it would
-- have answered without it.
pub add_error-prune_errors :
    (now later : Time) (t : ErrorTracker) (id : String)
    → now ≤ later
    → (add_error later (prune_errors now t) id).0 ≡ (add_error later t id).0
unfolding add_error prune_errors
add_error-prune_errors now later t id h =
    ground (arith, get-prune_loop now (keys t) t id, contains-keys t id)

-- An error that addError let through is let through again just when a second has passed since then.
pub add_error_again :
    (now later : Time) (t : ErrorTracker) (id : String)
    → (add_error now t id).0 ≡ true
    → (add_error later (add_error now t id).1 id).0 ≡ leb error_logging_interval (later - now)
unfolding add_error
add_error_again now later t id h = ground (arith, get-put t id now id, ==_refl id)
