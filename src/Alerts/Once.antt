-- ===== src/Alerts/Once.antt =====
-- An alert of a rule for a user fires once until the next reset.
use s.Common.{
  ℕ, ◌≡◌, refl, subst, inl, inr, Bool, true, false, List, [], ◌∷◌, ◌++◌, Option, none, some,
  if◌then◌else◌, Text, All, arith, Bool-cases,
}
use s.Quota.UserState.{Calendar}
use s.Alerts.{
  AlertRule, AlertEngine, Alert, check_rule, alert_key, is_fired, fire_alert, to_url, to_dispatcher,
  users_to_check, evaluate_users, evaluate_rules, evaluate,
}

-- What a part of an evaluation does to the keys that have fired.
record Fires (before : List Text) (outcome : AlertEngine × List Alert) : Type 0 where
  fresh : All (λ a. is_fired (alert_key a.rule a.username) before ≡ false) outcome.1
  noted : All (λ a. is_fired (alert_key a.rule a.username) outcome.0.fired_alerts ≡ true) outcome.1
  kept : (key : Text) → is_fired key before ≡ true → is_fired key outcome.0.fired_alerts ≡ true

quiet : (e : AlertEngine) → Fires e.fired_alerts (e, [])
quiet e = record { fresh = tt; noted = tt; kept = λ key h. h }

All-append : (P : Alert → Type 0) (xs ys : List Alert) → All P xs → All P ys → All P (xs ++ ys)
All-append P [] ys h k = k
All-append P (x ∷ xs) ys h k = (h.0, All-append P xs ys h.1 k)

All-map : (P Q : Alert → Type 0) (xs : List Alert) → ((a : Alert) → P a → Q a) → All P xs → All Q xs
All-map P Q [] f h = tt
All-map P Q (x ∷ xs) f h = (f x h.0, All-map P Q xs f h.1)

All-both : (P Q : Alert → Type 0) (xs : List Alert) → All P xs → All Q xs → All (λ a. P a × Q a) xs
All-both P Q [] h k = tt
All-both P Q (x ∷ xs) h k = ((h.0, k.0), All-both P Q xs h.1 k.1)

-- A key that has not fired later had not fired before.
not_before :
    (before after : List Text) (key : Text)
    → (is_fired key before ≡ true → is_fired key after ≡ true)
    → is_fired key after ≡ false
    → is_fired key before ≡ false
not_before before after key keep h = elim (Bool-cases (is_fired key before)) [
  | inl old ↦ absurd (let again : is_fired key after ≡ true = keep old in cc)
  | inr fresh ↦ fresh
]

then-Fires :
    (before : List Text) (one : AlertEngine × List Alert) (two : AlertEngine × List Alert)
    → Fires before one
    → Fires one.0.fired_alerts two
    → Fires before (two.0, one.1 ++ two.1)
then-Fires before one two f g = record {
  fresh =
      All-append _ one.1 two.1 f.fresh
        (All-map _ _ two.1 (λ a h. not_before before one.0.fired_alerts _ (f.kept _) h) g.fresh);
  noted = All-append _ one.1 two.1 (All-map _ _ one.1 (λ a h. g.kept _ h) f.noted) g.noted;
  kept = λ key h. g.kept key (f.kept key h);
}

alerts-All :
    (P : Text → Type 0) (url : Option Text) (b : Bool) (rule u : Text)
    → P (alert_key rule u)
    → All (λ a. P (alert_key a.rule a.username)) (to_url url rule u ++ to_dispatcher b rule u)
alerts-All P none false rule u p = tt
alerts-All P none true rule u p = (p, tt)
alerts-All P (some url) false rule u p = (p, tt)
alerts-All P (some url) true rule u p = (p, (p, tt))

is_fired_self : (key : Text) (keys : List Text) → is_fired key (key ∷ keys) ≡ true
is_fired_self key keys = ground arith

fire_alert-Fires :
    (e : AlertEngine) (rule : AlertRule) (u : Text) → Fires e.fired_alerts (fire_alert e rule u)
unfolding fire_alert
fire_alert-Fires e rule u =
    let key : Text = alert_key rule.name u in
    elim (Bool-cases (is_fired key e.fired_alerts)) [
      | inl old ↦ rw old (quiet e)
      | inr fresh ↦ rw fresh (record {
        fresh =
            alerts-All (λ k. is_fired k e.fired_alerts ≡ false) rule.webhook_url e.dispatcher
              rule.name u fresh;
        noted =
            alerts-All (λ k. is_fired k (key ∷ e.fired_alerts) ≡ true) rule.webhook_url e.dispatcher
              rule.name u (is_fired_self key e.fired_alerts);
        kept = λ k h. ground (arith, h);
      })
    ]

fire_if : Bool → AlertEngine → AlertRule → Text → AlertEngine × List Alert
fire_if exceeded e rule u = if exceeded then fire_alert e rule u else (e, [])

fire_if-Fires :
    (exceeded : Bool) (e : AlertEngine) (rule : AlertRule) (u : Text)
    → Fires e.fired_alerts (fire_if exceeded e rule u)
unfolding fire_if
fire_if-Fires true e rule u = fire_alert-Fires e rule u
fire_if-Fires false e rule u = quiet e

check_rule-fired :
    (cal : Calendar) (e : AlertEngine) (rule : AlertRule) (u : Text) (clock : ℕ → ℕ)
    → (check_rule cal e rule u clock).0.fired_alerts ≡ e.fired_alerts
unfolding check_rule
check_rule-fired cal e rule u clock = refl

either :
    {before : List Text} (b : Bool) {one two : AlertEngine × List Alert}
    → Fires before one
    → Fires before two
    → Fires before (if b then one else two)
either true f g = f
either false f g = g

module _ (cal : Calendar) (clock : Text → Text → ℕ → ℕ) where
  evaluate_users-Fires :
      (us : List Text) (e : AlertEngine) (rule : AlertRule)
      → Fires e.fired_alerts (evaluate_users cal clock e rule us)
  unfolding evaluate_users fire_if
  evaluate_users-Fires [] e rule = quiet e
  evaluate_users-Fires (u ∷ us) e rule =
      let (checked, exceeded) = check_rule cal e rule u (clock rule.name u) in
      let one : AlertEngine × List Alert = fire_if exceeded checked rule u in
      then-Fires e.fired_alerts one (evaluate_users cal clock one.0 rule us)
        (subst (λ keys. Fires keys one) (check_rule-fired cal e rule u (clock rule.name u))
          (fire_if-Fires exceeded checked rule u))
        (evaluate_users-Fires us one.0 rule)

  evaluate_rules-Fires :
      (rules : List AlertRule) (e : AlertEngine) (known : List Text)
      → Fires e.fired_alerts (evaluate_rules cal clock e rules known)
  unfolding evaluate_rules
  evaluate_rules-Fires [] e known = quiet e
  evaluate_rules-Fires (rule ∷ rules) e known =
      let one : AlertEngine × List Alert =
        evaluate_users cal clock e rule (users_to_check rule known) in
      then-Fires e.fired_alerts one (evaluate_rules cal clock one.0 rules known)
        (evaluate_users-Fires (users_to_check rule known) e rule)
        (evaluate_rules-Fires rules one.0 known)

  evaluate-Fires :
      (e : AlertEngine) (known : List Text) → Fires e.fired_alerts (evaluate cal clock e known)
  unfolding evaluate
  evaluate-Fires e known =
      either e.config.enabled (evaluate_rules-Fires e.config.rules e known) (quiet e)

-- Each alert that an evaluation sends is for a rule and a user that had not fired since the last
-- reset, and that are noted as fired behind it; and what was noted before stays noted. So no
-- later evaluation sends an alert for them until a reset.
pub evaluate_once :
    (cal : Calendar) (clock : Text → Text → ℕ → ℕ) (e : AlertEngine) (known : List Text)
    → let after = evaluate cal clock e known in
      All
        (λ a.
          (is_fired (alert_key a.rule a.username) e.fired_alerts ≡ false)
          × (is_fired (alert_key a.rule a.username) after.0.fired_alerts ≡ true))
        after.1
      × ((key : Text)
          → is_fired key e.fired_alerts ≡ true
          → is_fired key after.0.fired_alerts ≡ true)
evaluate_once cal clock e known =
    let f = evaluate-Fires cal clock e known in (All-both _ _ _ f.fresh f.noted, f.kept)
