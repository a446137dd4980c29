-- ===== src/Reconciler/Conditions/Laws.antt =====
-- The list of conditions after `setCondition`.
use kmp_issuer.Base.{
  ℕ, ◌≡◌, refl, ◌∙◌, ap, subst, inl, inr, Bool, true, false, ◌&&◌, List, [], ◌∷◌, Option, none,
  some, if◌then◌else◌, ℤ, pos, negsuc, Bool-cases, ◌↔◌, ==_iff,
}
use mathlib.Core.Option.{some-injective}
use mathlib.Core.Bool.{false≢true}
use kmp_issuer.Text.{Bytes, str_eq, str_eq_iff, str_eq_refl}
use kmp_issuer.Api.Certificates.{
  Condition, ConditionStatus, condition_true, condition_false, condition_unknown,
}
use kmp_issuer.Reconciler.Conditions.{
  Report, condition_status_eq, int_eq, already_reported, new_condition, updated_condition,
  set_condition,
}

-- The first condition of a type.
unfoldable pub find_condition : Bytes → List Condition → Option Condition
find_condition kind [] = none
find_condition kind (c ∷ rest) =
    let later = find_condition kind rest in if str_eq c.condition_type kind then some c else later

pub condition_status_eq_iff : (a b : ConditionStatus) → (condition_status_eq a b ≡ true) ↔ (a ≡ b)
unfolding condition_status_eq
condition_status_eq_iff condition_true condition_true = (λ _. refl, λ _. refl)
condition_status_eq_iff condition_true condition_false = (λ h. cc, λ h. cc)
condition_status_eq_iff condition_true condition_unknown = (λ h. cc, λ h. cc)
condition_status_eq_iff condition_false condition_true = (λ h. cc, λ h. cc)
condition_status_eq_iff condition_false condition_false = (λ _. refl, λ _. refl)
condition_status_eq_iff condition_false condition_unknown = (λ h. cc, λ h. cc)
condition_status_eq_iff condition_unknown condition_true = (λ h. cc, λ h. cc)
condition_status_eq_iff condition_unknown condition_false = (λ h. cc, λ h. cc)
condition_status_eq_iff condition_unknown condition_unknown = (λ _. refl, λ _. refl)

pub int_eq_iff : (a b : ℤ) → (int_eq a b ≡ true) ↔ (a ≡ b)
unfolding int_eq
int_eq_iff (pos a) (pos b) = (λ h. ap pos ((==_iff a b).0 h), λ h. (==_iff a b).1 cc)
int_eq_iff (pos a) (negsuc b) = (λ h. cc, λ h. cc)
int_eq_iff (negsuc a) (pos b) = (λ h. cc, λ h. cc)
int_eq_iff (negsuc a) (negsuc b) = (λ h. ap negsuc ((==_iff a b).0 h), λ h. (==_iff a b).1 cc)

pub and_parts : (a b : Bool) → (a && b) ≡ true → (a ≡ true) × (b ≡ true)
and_parts true b h = (refl, h)
and_parts false b h = absurd (false≢true h)

-- A condition says what a report does.
pub record Says (r : Report) (c : Condition) : Type 0 where
  pub condition_type : c.condition_type ≡ r.condition_type
  pub status : c.status ≡ r.status
  pub generation : c.observed_generation ≡ r.generation
  pub reason : c.reason ≡ r.reason
  pub message : c.message ≡ r.message

pub already_reported-Says :
    (r : Report) (c : Condition)
    → c.condition_type ≡ r.condition_type
    → already_reported r c ≡ true
    → Says r c
unfolding already_reported
already_reported-Says r c e h =
    let (h₁, generation) = and_parts _ (int_eq c.observed_generation r.generation) h in
    let (h₂, message) = and_parts _ (str_eq c.message r.message) h₁ in
    let (status, reason) = and_parts (condition_status_eq c.status r.status) _ h₂ in
    record {
      condition_type = e;
      status = (condition_status_eq_iff _ _).0 status;
      generation = (int_eq_iff _ _).0 generation;
      reason = (str_eq_iff _ _).0 reason;
      message = (str_eq_iff _ _).0 message;
    }

-- When the status last changed, for a condition that replaces one or is the first of its type.
unfoldable pub transition_time : ℕ → Report → Option Condition → ℕ
transition_time now r none = now
transition_time now r (some c) =
    if condition_status_eq c.status r.status then c.last_transition_time else now

-- The condition of the reported type, after a report.
unfoldable pub reported_condition : ℕ → Report → Option Condition → Condition
reported_condition now r none = new_condition now r
reported_condition now r (some c) = if already_reported r c then c else updated_condition now r c

kept :
    (b : Bool) (x y z : Option Condition)
    → (if b then x else y) ≡ (if b then x else if b then z else y)
kept true x y z = refl
kept false x y z = refl

-- The condition that `setCondition` leaves under a type.
pub find_condition-set_condition :
    (now : ℕ) (r : Report) (kind : Bytes) (cs : List Condition)
    → find_condition kind (set_condition now r cs).1 ≡ (
        if str_eq r.condition_type kind
        then some (reported_condition now r (find_condition r.condition_type cs))
        else find_condition kind cs)
unfolding find_condition set_condition reported_condition new_condition updated_condition
find_condition-set_condition now r kind [] = refl
find_condition-set_condition now r kind (c ∷ cs) =
    elim (Bool-cases (str_eq c.condition_type r.condition_type)) [
      | inl same ↦
          let e : str_eq c.condition_type kind ≡ str_eq r.condition_type kind =
            ap (λ x. str_eq x kind) ((str_eq_iff c.condition_type r.condition_type).0 same) in
          elim (Bool-cases (already_reported r c)) [
            | inl told ↦
                rw (same, told, e)
                  (kept (str_eq r.condition_type kind) (some c) (find_condition kind cs) _)
            | inr fresh ↦
                rw (same, fresh, e)
                  (kept (str_eq r.condition_type kind) _ (find_condition kind cs) _)
          ]
      | inr apart ↦ elim (Bool-cases (str_eq r.condition_type kind)) [
        | inl asked ↦
            let other : str_eq c.condition_type kind ≡ false =
              subst (λ x. str_eq c.condition_type x ≡ false)
                ((str_eq_iff r.condition_type kind).0 asked) apart in
            rw (apart, other, asked) (find_condition-set_condition now r kind cs ∙ rw asked refl)
        | inr unasked ↦
            rw (apart, unasked)
              (ap (λ x. if str_eq c.condition_type kind then some c else x)
                (find_condition-set_condition now r kind cs ∙ rw unasked refl))
      ]
    ]

reported_condition-Says :
    (now : ℕ) (r : Report) (cs : List Condition) (o : Option Condition)
    → ((c : Condition) → o ≡ some c → c.condition_type ≡ r.condition_type)
    → Says r (reported_condition now r o)
      × ((reported_condition now r o).last_transition_time ≡ transition_time now r o)
unfolding reported_condition new_condition updated_condition transition_time
reported_condition-Says now r cs none typed = (
  record { condition_type = refl; status = refl; generation = refl; reason = refl; message = refl },
  refl,
)
reported_condition-Says now r cs (some c) typed = elim (Bool-cases (already_reported r c)) [
  | inl told ↦
      let says : Says r c = already_reported-Says r c (typed c refl) told in
      let since : c.last_transition_time ≡ transition_time now r (some c) =
        rw ((condition_status_eq_iff c.status r.status).1 says.status) refl in
      rw told (says, since)
  | inr fresh ↦ rw fresh (
    record {
      condition_type = typed c refl;
      status = refl;
      generation = refl;
      reason = refl;
      message = refl;
    },
    refl,
  )
]

find_condition_type :
    (kind : Bytes) (cs : List Condition) (c : Condition)
    → find_condition kind cs ≡ some c
    → c.condition_type ≡ kind
unfolding find_condition
find_condition_type kind [] c h = cc
find_condition_type kind (d ∷ cs) c h = elim (Bool-cases (str_eq d.condition_type kind)) [
  | inl same ↦
      let e : ◌≡◌ {A = Option Condition} (some d) (some c) = rw same at h in
      subst (λ x. x.condition_type ≡ kind) (some-injective d c e)
        ((str_eq_iff d.condition_type kind).0 same)
  | inr apart ↦ find_condition_type kind cs c (rw apart at h)
]

-- After a report the first condition of its type says what the report does, and since when: the
-- time stands if the condition had that status before, and else it is now. The conditions of the
-- other types are as they were.
pub set_condition_lem :
    (now : ℕ) (r : Report) (cs : List Condition)
    → ((c : Condition) × (find_condition r.condition_type (set_condition now r cs).1 ≡ some c)
        × Says r c
        × (c.last_transition_time ≡ transition_time now r (find_condition r.condition_type cs)))
      × ((kind : Bytes)
          → str_eq r.condition_type kind ≡ false
          → find_condition kind (set_condition now r cs).1 ≡ find_condition kind cs)
set_condition_lem now r cs =
    let before = find_condition r.condition_type cs in
    let (says, since) =
      reported_condition-Says now r cs before (find_condition_type r.condition_type cs) in
    (
      (
        reported_condition now r before,
        find_condition-set_condition now r r.condition_type cs
            ∙ rw (str_eq_refl r.condition_type) refl,
        says,
        since,
      ),
      λ kind other. find_condition-set_condition now r kind cs ∙ rw other refl,
    )
