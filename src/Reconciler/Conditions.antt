-- ===== src/Reconciler/Conditions.antt =====
-- internal/controllers/kmpcertificate_controller.go: `setCondition`.
pub mod Laws
pub mod Kept
use kmp_issuer.Base.{
  ℕ, Bool, true, false, not, ◌&&◌, List, [], ◌∷◌, if◌then◌else◌, ℤ, pos, negsuc, ◌==◌,
}
use kmp_issuer.Text.{Bytes, str_eq}
use kmp_issuer.Api.Certificates.{
  Condition, ConditionStatus, condition_true, condition_false, condition_unknown,
}

unfoldable pub condition_status_eq : ConditionStatus → ConditionStatus → Bool
condition_status_eq condition_true condition_true = true
condition_status_eq condition_false condition_false = true
condition_status_eq condition_unknown condition_unknown = true
condition_status_eq _ _ = false

unfoldable pub int_eq : ℤ → ℤ → Bool
int_eq (pos a) (pos b) = a == b
int_eq (negsuc a) (negsuc b) = a == b
int_eq _ _ = false

-- What is recorded of a condition: its type, its status, and the texts and the generation with it.
pub record Report : Type 0 where
  pub generation : ℤ
  pub condition_type : Bytes
  pub status : ConditionStatus
  pub reason : Bytes
  pub message : Bytes

unfoldable pub already_reported : Report → Condition → Bool
already_reported r existing =
    condition_status_eq existing.status r.status
    && str_eq existing.reason r.reason
    && str_eq existing.message r.message
    && int_eq existing.observed_generation r.generation

unfoldable pub new_condition : ℕ → Report → Condition
new_condition now r = record {
  condition_type = r.condition_type;
  status = r.status;
  observed_generation = r.generation;
  last_transition_time = now;
  reason = r.reason;
  message = r.message;
}

-- The condition in place of one of its type: the time changes only with the status.
unfoldable pub updated_condition : ℕ → Report → Condition → Condition
updated_condition now r existing = record {
  condition_type = existing.condition_type;
  status = r.status;
  observed_generation = r.generation;
  last_transition_time =
      if condition_status_eq existing.status r.status then existing.last_transition_time else now;
  reason = r.reason;
  message = r.message;
}

-- `setCondition`: whether anything changed, and the conditions.
unfoldable pub set_condition : ℕ → Report → List Condition → Bool × List Condition
set_condition now r [] = (true, new_condition now r ∷ [])
set_condition now r (existing ∷ rest) =
    let (changed, later) = set_condition now r rest in
    if not (str_eq existing.condition_type r.condition_type)
    then (changed, existing ∷ later)
    else if already_reported r existing
    then (false, existing ∷ rest)
    else (true, updated_condition now r existing ∷ rest)
