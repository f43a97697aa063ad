-- ===== src/Runner/Order.antt =====
-- The order of the calls at the start of the process, and what is there when the manager starts.
use kpt_resource_group.Base.{
  Bool, true, false, ◌&&◌, ◌||◌, Option, List, [], ◌∷◌, String, if◌then◌else◌,
}
use kpt_resource_group.TypeResolver.{ApiResourceList, GroupVersion}
use kpt_resource_group.Runner.{
  Call, registers_views, creates_exporter, builds_manager, creates_type_controller,
  watches_definitions, discovers, creates_mapper, builds_root, creates_group_controller,
  watches_channel, starts_manager,
}

-- the calls after the deferred one, in order
abbrev pub setup_calls : List Call
setup_calls =
    builds_manager ∷ creates_type_controller ∷ watches_definitions ∷ discovers ∷ creates_mapper
    ∷ builds_root ∷ creates_group_controller ∷ watches_channel ∷ starts_manager ∷ []

-- whether a call ends the process when it fails
abbrev pub is_fatal : Call → Bool
is_fatal discovers = false
is_fatal other = true

module _ (fails : Call → Bool) where
  -- the calls up to the first that fails and is fatal, this one included
  unfoldable pub up_to_failure : List Call → List Call
  up_to_failure [] = []
  up_to_failure (c ∷ cs) =
      let rest = up_to_failure cs in if is_fatal c && fails c then c ∷ [] else c ∷ rest

  unfoldable pub some_failure : List Call → Bool
  some_failure [] = false
  some_failure (c ∷ cs) = (is_fatal c && fails c) || some_failure cs

  module _ (parse : String → Option GroupVersion) (answer : Option (List ApiResourceList))
      (W : Type 0) where
    abbrev pub all_calls : List Call
    all_calls = registers_views ∷ creates_exporter ∷ setup_calls
