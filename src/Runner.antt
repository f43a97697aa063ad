-- ===== src/Runner.antt =====
-- main.go, controllers/runner/run.go and the functions that create the controllers: NewTypeResolver of
-- controllers/typeresolver, DefaultOptions and NewManager of controllers/watch, NewController of
-- controllers/root, and NewRGController of controllers/resourcegroup. The calls of libraries that can fail are named; whether
-- each fails is an argument. GetConfigOrDie and NewDiscoveryClientForConfigOrDie, which end the process
-- themselves, are taken to succeed.
pub mod Order
pub mod Tests
use kpt_resource_group.Base.{
  ℕ, Bool, Option, none, some, List, [], ◌∷◌, ◌++◌, String, if◌then◌else◌,
}
use kpt_resource_group.Api.{GroupVersionKind}
use kpt_resource_group.ResourceMap.{ResourceMap, new_resource_map}
use kpt_resource_group.TypeResolver.{TypeMapping, ApiResourceList, GroupVersion, refresh}
use kpt_resource_group.Watch.Manager.{Manager, new_manager}
use kpt_resource_group.Handler.Throttler.{Throttler, new_throttler}
use kpt_resource_group.Root.Reconcile.{State}

-- The calls, and the discovery of Refresh, whose error is only logged, as is that of the exporter's Stop.
pub data Call : Type 0 where
  registers_views creates_exporter stops_exporter builds_manager : Call
  creates_type_controller watches_definitions discovers : Call
  creates_mapper builds_root creates_group_controller watches_channel starts_manager : Call

-- What a function has called, and its value, or `none` for an error.
pub record Setup (A : Type 0) : Type 0 where
  pub calls : List Call
  pub value : Option A

abbrev pub pure : {A : Type 0} → A → Setup A
pure a = record { calls = []; value = some a }

abbrev pub follow : {A B : Type 0} → List Call → Option A → (A → Setup B) → Setup B
follow calls none f = record { calls = calls; value = none }
follow calls (some a) f = record { calls = calls ++ (f a).calls; value = (f a).value }

infixl 5 ◌>>=◌ ◌>>◌
abbrev pub ◌>>=◌ : {A B : Type 0} → Setup A → (A → Setup B) → Setup B
s >>= f = follow s.calls s.value f

abbrev pub ◌>>◌ : {A B : Type 0} → Setup A → Setup B → Setup B
s >> t = s >>= λ _. t

-- A deferred call, made however the rest ends.
unfoldable pub deferred : {A : Type 0} → Call → Setup A → Setup A
deferred c s = record { calls = s.calls ++ c ∷ []; value = s.value }

-- What a watch manager is made with; the mapper that was created is a value of the library.
pub data Options : Type 0 where
  has_mapper : Options

-- What registerControllersForGroup leaves: the types, the root controller's state and the throttler.
pub record Registered (W : Type 0) : Type 0 where
  pub types : TypeMapping
  pub state : State W
  pub throttler : Throttler

module _ (fails : Call → Bool) (parse : String → Option GroupVersion)
    (answer : Option (List ApiResourceList)) where
  unfoldable pub call : Call → Setup (Unit {0})
  call c = record { calls = c ∷ []; value = if fails c then none else some tt }

  -- func NewTypeResolver, with no types yet
  unfoldable pub new_type_resolver : Setup TypeMapping
  new_type_resolver = call creates_type_controller >> (call watches_definitions >> pure [])

  -- resolver.Refresh()
  unfoldable pub first_refresh : TypeMapping → Setup TypeMapping
  first_refresh types = record { calls = discovers ∷ []; value = some (refresh parse types answer) }

  -- func NewRGController
  unfoldable pub new_rg_controller : Setup Throttler
  new_rg_controller = call creates_group_controller >> (call watches_channel >> pure new_throttler)

  -- func DefaultOptions of controllers/watch: a RESTMapper, and createWatcher
  unfoldable pub default_options : Setup Options
  default_options = call creates_mapper >> pure has_mapper

  module _ (W : Type 0) where
    -- func NewManager of controllers/watch; `none` is nil options
    unfoldable pub make_manager : Option Options → Setup (Manager W)
    make_manager none = default_options >>= λ o. pure new_manager
    make_manager (some o) = pure new_manager

    -- func NewController
    unfoldable pub new_root_controller : ResourceMap → Setup (State W)
    new_root_controller m = default_options >>= λ o. make_manager (some o) >>= λ watches.
        call builds_root >> pure (record { resource_map = m; watches = watches })

    -- func registerControllersForGroup
    unfoldable pub register_controllers : Setup (Registered W)
    register_controllers = new_type_resolver >>= λ none_yet. first_refresh none_yet >>= λ types.
        new_root_controller new_resource_map >>= λ state. new_rg_controller >>= λ throttler.
        pure (record { types = types; state = state; throttler = throttler })

    -- what follows the deferred call in run
    unfoldable pub start_controllers : Setup (Registered W)
    start_controllers =
        call builds_manager >> (register_controllers >>= λ r. call starts_manager >> pure r)

    -- func run
    unfoldable pub run : Setup (Registered W)
    run =
        call registers_views >> (call creates_exporter >> deferred stops_exporter start_controllers)

    -- func Run, whose result main hands to os.Exit
    unfoldable pub exit_code : ℕ
    exit_code = elim run.value [ none ↦ 1 | some r ↦ 0 ]
