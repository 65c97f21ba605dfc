-- ===== src/Scenario.antt =====
-- The scenarios of catalog.py that a vehicle can run: those with an action that the metadata supports
-- and whose slot is observed.
pub mod Runs
use hymer_connect_ha.Prelude.{
  ℕ, Bool, true, false, ◌&&◌, Option, none, some, List, [], ◌∷◌, length, ◌==◌, if◌then◌else◌,
}
use hymer_connect_ha.Prelude.Int.{ℤ}
use hymer_connect_ha.Pia.Wire.{Floats}
use hymer_connect_ha.SlotActions.{Arithmetic, SlotMeta, Action, Checked, accepted, ◌>>=◌}
use hymer_connect_ha.SlotActions.Serialize.{action_is_supported}

-- The texts that are shown for a scenario.
pub record Labels : Type 0 where
  pub key : Option (List ℕ)
  pub kind : Option (List ℕ)
  pub id : Option (List ℕ)
  pub name : Option (List ℕ)
  pub icon : Option (List ℕ)

-- An entry of the scenario catalog: `actions` is none where it is no list, and [] where it is missing.
pub record Entry (Float : Type 0) : Type 0 where
  pub labels : Labels
  pub actions : Option (List (Action Float))

pub record Availability (Float : Type 0) : Type 0 where
  pub labels : Labels
  pub action_count : ℕ
  pub present_action_count : ℕ
  pub supported_action_count : ℕ
  pub executable_for_vehicle : Bool
  pub fully_executable_for_vehicle : Bool
  pub complete_for_vehicle : Bool
  pub present_actions : List (Action Float)
  pub supported_actions : List (Action Float)

pub record Scenario (Float : Type 0) : Type 0 where
  pub labels : Labels
  pub action_count : ℕ
  pub present_action_count : ℕ
  pub supported_action_count : ℕ
  pub actions : List (Action Float)

-- `bool(actions)`
unfoldable pub is_filled {ℓ} : {A : Type ℓ} → List A → Bool
is_filled [] = false
is_filled (x ∷ xs) = true

unfoldable pub resolve_available :
    {Float : Type 0} → List (Availability Float) → List (Scenario Float)
resolve_available [] = []
resolve_available (available ∷ more) =
    let rest = resolve_available more in
    if is_filled available.supported_actions
    then record {
      labels = available.labels;
      action_count = available.action_count;
      present_action_count = available.present_action_count;
      supported_action_count = available.supported_action_count;
      actions = available.supported_actions;
    }
      ∷ rest
    else rest

module _ (floats : Floats) (a : Arithmetic floats.Float) (upper : List ℕ → List ℕ)
    (slot_meta : ℤ → ℤ → Option (SlotMeta floats.Float)) (observed : ℤ → ℤ → Bool) where
  open floats use {Float}

  unfoldable pub present_actions : List (Action Float) → List (Action Float)
  present_actions [] = []
  present_actions (action ∷ actions) =
      let rest = present_actions actions in
      if observed action.component_id action.sensor_id then action ∷ rest else rest

  unfoldable pub supported_actions : List (Action Float) → Checked (List (Action Float))
  supported_actions [] = accepted []
  supported_actions (action ∷ actions) = do
    supported ← action_is_supported floats a upper slot_meta action (some observed)
    rest ← supported_actions actions
    accepted (if supported then action ∷ rest else rest)

  unfoldable pub availability_of :
      Labels → (actions supported : List (Action Float)) → Availability Float
  availability_of labels actions supported = record {
    labels = labels;
    action_count = length actions;
    present_action_count = length (present_actions actions);
    supported_action_count = length supported;
    executable_for_vehicle = is_filled supported;
    fully_executable_for_vehicle = is_filled actions && length supported == length actions;
    complete_for_vehicle = is_filled actions && length (present_actions actions) == length actions;
    present_actions = present_actions actions;
    supported_actions = supported;
  }

  -- An entry whose actions are no list is passed over.
  unfoldable pub add_available :
      Labels
      → Option (List (Action Float))
      → Checked (List (Availability Float))
      → Checked (List (Availability Float))
  add_available labels none more = more
  add_available labels (some actions) more = do
    supported ← supported_actions actions
    rest ← more
    accepted (availability_of labels actions supported ∷ rest)

  unfoldable pub scenario_availability : List (Entry Float) → Checked (List (Availability Float))
  scenario_availability [] = accepted []
  scenario_availability (entry ∷ entries) =
      add_available entry.labels entry.actions (scenario_availability entries)

  unfoldable pub resolved_scenarios : List (Entry Float) → Checked (List (Scenario Float))
  resolved_scenarios entries = do
    available ← scenario_availability entries
    accepted (resolve_available available)
