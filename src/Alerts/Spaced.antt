-- ===== src/Alerts/Spaced.antt =====
-- backend/app/services/alerts.py: two notifications with one dedup key are a cooldown apart.
use appbi_integration.Base.{
  ℕ, ◌+◌, ◌≤◌, String, ◌≡◌, refl, subst, Bool, true, false, not, ◌&&◌, ◌||◌, Option, none, some,
  List, [], ◌∷◌, ◌++◌, leb, ltb, ◌==◌, arith, str_eq, is_some, Bool-cases, inl, inr, unsome, leb→le,
  if◌then◌else◌,
}
use appbi_integration.Base.Lists.{select, any, all, all-find_first, all-select, all-join}
use appbi_integration.Alerts.{
  AlertEvent, is_always_on, AlertRule, Notification, Alerts, Digests, default_cooldown_seconds,
  fingerprint, is_rule, rule_for, is_foreign, cooldown_of, is_recent, new_notification, raise_under,
  raise_alert,
}

-- Two rows are far enough apart: of other keys, or a minute between the earlier and the later one.
abbrev pub is_apart : Notification → Notification → Bool
is_apart m n =
    not (m.workspace_id == n.workspace_id && str_eq m.dedup_key n.dedup_key)
    || ltb (m.created_at + 60) n.created_at

-- Each row is apart from all the later ones.
abbrev pub Spaced : List Notification → Type 0
Spaced [] = Unit {0}
Spaced (m ∷ rest) = (all (is_apart m) rest ≡ true) × Spaced rest

-- The least cooldown that a rule may have.
abbrev pub all_cool : List AlertRule → Bool
all_cool = all (λ r. leb 60 r.cooldown_seconds)

all-add :
    (p : Notification → Bool) (l : List Notification) (n : Notification)
    → all p l ≡ true
    → p n ≡ true
    → all p (l ++ n ∷ []) ≡ true
all-add p [] n h k = rw k refl
all-add p (x ∷ l) n h k = ground (arith, all-add p l n)

add-Spaced :
    (l : List Notification) (n : Notification)
    → Spaced l
    → all (λ m. is_apart m n) l ≡ true
    → Spaced (l ++ n ∷ [])
add-Spaced [] n h k = (refl, tt)
add-Spaced (m ∷ l) n (first, rest) k = (
  all-add (is_apart m) l n first (left (is_apart m n) _ k),
  add-Spaced l n rest (right (is_apart m n) _ k),
)
  where
    left : (a b : Bool) → (a && b) ≡ true → a ≡ true
    left a b h = ground arith

    right : (a b : Bool) → (a && b) ≡ true → b ≡ true
    right a b h = ground arith

apart_of :
    (a b : Bool) (created cooldown now : ℕ)
    → (a && b && leb now (created + cooldown)) ≡ false
    → 60 ≤ cooldown
    → (not (a && b) || ltb (created + 60) now) ≡ true
apart_of a b created cooldown now h k = ground arith

-- Where nothing is recent, all rows are apart from a new one.
none_recent :
    (workspace : ℕ) (key : String) (cooldown now id : ℕ) (event : AlertEvent) (workflow : Option ℕ)
    (l : List Notification)
    → 60 ≤ cooldown
    → any (is_recent workspace key cooldown now) l ≡ false
    → all (λ m. is_apart m (new_notification id workspace event workflow key now)) l ≡ true
none_recent workspace key cooldown now id event workflow [] k h = refl
none_recent workspace key cooldown now id event workflow (m ∷ l) k h =
    let (first, rest) = both (is_recent workspace key cooldown now m) _ h in
    rw
      (apart_of (m.workspace_id == workspace) (str_eq m.dedup_key key) m.created_at cooldown now
        first k)
      (none_recent workspace key cooldown now id event workflow l k rest)
  where
    both : (a b : Bool) → (a || b) ≡ false → (a ≡ false) × (b ≡ false)
    both a b h = ground arith

raise_under-Spaced :
    (c : Option ℕ) (workspace : ℕ) (event : AlertEvent) (workflow : Option ℕ) (key : String)
    (now : ℕ) (a : Alerts)
    → ((cooldown : ℕ) → c ≡ some cooldown → 60 ≤ cooldown)
    → Spaced a.notifications
    → Spaced (raise_under c workspace event workflow key now a).1.notifications
raise_under-Spaced none workspace event workflow key now a k h = h
raise_under-Spaced (some cooldown) workspace event workflow key now a k h =
    elim (Bool-cases (any (is_recent workspace key cooldown now) a.notifications)) [
      | inl j ↦ rw j h
      | inr j ↦ rw j (
          add-Spaced a.notifications _ h (
            none_recent workspace key cooldown now a.next_id event workflow a.notifications
              (k cooldown refl) j))
    ]

-- A rule that is found has a cooldown of a minute at least, and so has the default.
cooldown_of-least :
    (workspace : ℕ) (event : AlertEvent) (workflow : Option ℕ) (rules : List AlertRule)
    (cooldown : ℕ)
    → all_cool rules ≡ true
    → cooldown_of event workflow (rule_for workspace event rules) ≡ some cooldown
    → 60 ≤ cooldown
unfolding rule_for
cooldown_of-least workspace event workflow rules cooldown cool h =
    go (rule_for workspace event rules) refl h
  where
    cool_rule : AlertRule → Bool
    cool_rule = λ r. leb 60 r.cooldown_seconds

    ordered : List AlertRule
    ordered =
        select (λ r. is_some r.workflow_id) rules ++ select (λ r. not (is_some r.workflow_id)) rules

    all_ordered : all (λ r. leb 60 r.cooldown_seconds) ordered ≡ true
    all_ordered =
        all-join (λ r. leb 60 r.cooldown_seconds) (select (λ r. is_some r.workflow_id) rules)
          (select (λ r. not (is_some r.workflow_id)) rules)
          (all-select (λ r. leb 60 r.cooldown_seconds) (λ r. is_some r.workflow_id) rules cool)
          (all-select (λ r. leb 60 r.cooldown_seconds) (λ r. not (is_some r.workflow_id)) rules
            cool)

    on_default :
        (b : Bool)
        → (if b then some default_cooldown_seconds else none) ≡ some cooldown
        → 60 ≤ cooldown
    on_default true e = subst (λ (n : ℕ). 60 ≤ n) (unsome e) (omega arith)
    on_default false e = cc

    on_rule :
        (b : Bool) (n : ℕ) → 60 ≤ n → (if b then none else some n) ≡ some cooldown → 60 ≤ cooldown
    on_rule true n k e = cc
    on_rule false n k e = subst (λ (m : ℕ). 60 ≤ m) (unsome e) k

    go :
        (o : Option AlertRule)
        → rule_for workspace event rules ≡ o
        → cooldown_of event workflow o ≡ some cooldown
        → 60 ≤ cooldown
    go none p e = on_default (is_always_on event) e
    go (some r) p e =
        on_rule (is_foreign r.workflow_id workflow) r.cooldown_seconds
          (leb→le 60 r.cooldown_seconds (
            all-find_first (λ x. leb 60 x.cooldown_seconds) (is_rule workspace event) ordered r
              all_ordered p))
          e

raise_alert-Spaced :
    (g : Digests) (workspace : ℕ) (event : AlertEvent) (workflow : Option ℕ) (parts : List String)
    (now : ℕ) (a : Alerts)
    → all_cool a.rules ≡ true
    → Spaced a.notifications
    → Spaced (raise_alert g workspace event workflow parts now a).1.notifications
unfolding raise_alert
raise_alert-Spaced g workspace event workflow parts now a cool h =
    raise_under-Spaced (cooldown_of event workflow (rule_for workspace event a.rules)) workspace
      event workflow (fingerprint g workspace workflow event parts) now a
      (λ cooldown e. cooldown_of-least workspace event workflow a.rules cooldown cool e) h

-- An alert that is raised at a moment, under the rules of that moment.
pub record Raise : Type 0 where
  pub workspace : ℕ
  pub event : AlertEvent
  pub workflow : Option ℕ
  pub parts : List String
  pub at : ℕ
  pub rules : List AlertRule

unfoldable pub raise_all : Digests → List Raise → Alerts → Alerts
unfolding raise_alert
raise_all g [] a = a
raise_all g (r ∷ rest) a =
    raise_all g rest
      (raise_alert g r.workspace r.event r.workflow r.parts r.at (record a { rules = r.rules })).1

-- However many alerts are raised, of whatever kinds and at whatever times, and however the rules change in
-- between, two notifications of a workspace with one dedup key are more than a minute apart, if no rule has
-- a cooldown under a minute.
pub raise_all-Spaced :
    (g : Digests) (raises : List Raise) (a : Alerts)
    → all (λ r. all_cool r.rules) raises ≡ true
    → Spaced a.notifications
    → Spaced (raise_all g raises a).notifications
unfolding raise_all
raise_all-Spaced g [] a cool h = h
raise_all-Spaced g (r ∷ rest) a cool h =
    let (first, later) = split (all_cool r.rules) (all (λ x. all_cool x.rules) rest) cool in
    raise_all-Spaced g rest _ later (
      raise_alert-Spaced g r.workspace r.event r.workflow r.parts r.at
        (record a { rules = r.rules }) first h)
  where
    split : (a b : Bool) → (a && b) ≡ true → (a ≡ true) × (b ≡ true)
    split a b h = ground arith
