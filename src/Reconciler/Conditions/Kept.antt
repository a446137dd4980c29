-- ===== src/Reconciler/Conditions/Kept.antt =====
-- What `setCondition` keeps, and that a report made twice changes nothing.
use kmp_issuer.Base.{ℕ, ◌≡◌, refl, sym, ◌∙◌, inl, inr, true, false, List, [], ◌∷◌, none, Bool-cases}
use mathlib.Core.Bool.{false≢true}
use kmp_issuer.Text.{Bytes, str_eq, str_eq_iff}
use kmp_issuer.Api.Certificates.{Condition}
use kmp_issuer.Reconciler.Conditions.{
  Report, already_reported, new_condition, updated_condition, set_condition,
}
use kmp_issuer.Reconciler.Conditions.Laws.{
  find_condition, condition_status_eq_iff, int_eq_iff, Says, already_reported-Says,
  find_condition-set_condition,
}

str_eq_apart : (a b : Bytes) → str_eq a b ≡ false → str_eq b a ≡ false
str_eq_apart a b apart = elim (Bool-cases (str_eq b a)) [
  | inl same ↦ absurd (false≢true (sym apart ∙ (str_eq_iff a b).1 (sym ((str_eq_iff b a).0 same))))
  | inr other ↦ other
]

-- No type stands twice.
unfoldable pub UniqueTypes : List Condition → Type 0
UniqueTypes [] = Unit
UniqueTypes (c ∷ cs) = (find_condition c.condition_type cs ≡ none) × UniqueTypes cs

-- A list of conditions of which no type stands twice stays one.
pub set_condition-UniqueTypes :
    (now : ℕ) (r : Report) (cs : List Condition)
    → UniqueTypes cs
    → UniqueTypes (set_condition now r cs).1
unfolding set_condition UniqueTypes find_condition updated_condition
set_condition-UniqueTypes now r [] u = (refl, tt)
set_condition-UniqueTypes now r (c ∷ cs) u =
    elim (Bool-cases (str_eq c.condition_type r.condition_type)) [
      | inl same ↦ elim (Bool-cases (already_reported r c)) [
        | inl told ↦ rw (same, told) u
        | inr fresh ↦ rw (same, fresh) u
      ]
      | inr apart ↦ rw apart (
        find_condition-set_condition now r c.condition_type cs
            ∙ rw (str_eq_apart c.condition_type r.condition_type apart) u.0,
        set_condition-UniqueTypes now r cs u.1,
      )
    ]

Says-already_reported : (r : Report) (c : Condition) → Says r c → already_reported r c ≡ true
unfolding already_reported
Says-already_reported r c s =
    rw
      (
        (condition_status_eq_iff c.status r.status).1 s.status,
        (str_eq_iff c.reason r.reason).1 s.reason,
        (str_eq_iff c.message r.message).1 s.message,
        (int_eq_iff c.observed_generation r.generation).1 s.generation,
      )
      refl

repeated :
    (later : ℕ) (r : Report) (c : Condition) (cs : List Condition)
    → Says r c
    → set_condition later r (c ∷ cs) ≡ (false, c ∷ cs)
unfolding set_condition
repeated later r c cs s =
    rw
      (
        (str_eq_iff c.condition_type r.condition_type).1 s.condition_type,
        Says-already_reported r c s,
      )
      refl

-- A report that is made twice changes nothing the second time, whatever the time.
pub set_condition-set_condition :
    (now later : ℕ) (r : Report) (cs : List Condition)
    → set_condition later r (set_condition now r cs).1 ≡ (false, (set_condition now r cs).1)
unfolding set_condition new_condition updated_condition
set_condition-set_condition now later r [] = repeated later r (new_condition now r) [] (record {
  condition_type = refl;
  status = refl;
  generation = refl;
  reason = refl;
  message = refl;
})
set_condition-set_condition now later r (c ∷ cs) =
    elim (Bool-cases (str_eq c.condition_type r.condition_type)) [
      | inl same ↦
          let typed : c.condition_type ≡ r.condition_type =
            (str_eq_iff c.condition_type r.condition_type).0 same in
          elim (Bool-cases (already_reported r c)) [
            | inl told ↦
                rw (same, told) (repeated later r c cs (already_reported-Says r c typed told))
            | inr fresh ↦
                rw (same, fresh)
                  (repeated later r (updated_condition now r c) cs (record {
                    condition_type = typed;
                    status = refl;
                    generation = refl;
                    reason = refl;
                    message = refl;
                  }))
          ]
      | inr apart ↦ rw (apart, set_condition-set_condition now later r cs, apart) refl
    ]
