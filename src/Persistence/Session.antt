-- ===== src/Persistence/Session.antt =====
-- What the methods of persistence.py share: the errors, the constraints that the database checks when
-- a row is added, `new_ulid`, `_now` and `_event`. A method that raises leaves the database as it was,
-- so it gives the new database or the error.
use excel_youhua.Prelude.{
  ℕ, ◌+◌, String, Bool, not, ◌||◌, Option, none, some, List, [], ◌∷◌, ◌++◌, any, ◌==◌, string_eq,
  if◌then◌else◌,
}
use excel_youhua.Prelude.Results.{Result, ok, err, ◌>>=◌}
use excel_youhua.Dict.{Dict}
use excel_youhua.Persistence.Rows.{Database, AuditEventRow}

-- `IntegrityError` of the database, `FileExistsError`, `FileNotFoundError` and `ValueError`
pub data Error : Type 0 where
  integrity exists not_found invalid : Error

-- What the methods call: the n-th call of `new_ulid` with a prefix and of `_now`, the hash of a text
-- and of a JSON document, JSON values, pydantic's reading of a stored rule set, and ISO dates.
-- `foreign_keys` tells if the database enforces foreign keys, as PostgreSQL does and SQLite does not
-- by itself.
pub record Platform : Type 1 where
  pub Json : Type 0
  pub Time : Type 0
  pub RuleSet : Type 0
  pub ulid : String → ℕ → String
  pub now : ℕ → Time
  pub time_le : Time → Time → Bool
  pub sha256 : Json → String
  pub text : String → Json
  pub number : ℕ → Json
  pub null : Json
  pub schema_id : RuleSet → String
  pub schema_version : RuleSet → String
  pub name : RuleSet → String
  pub model_dump : RuleSet → Json
  pub model_validate : Json → Option RuleSet
  pub fromisoformat : String → Option Time
  pub foreign_keys : Bool

-- `session.scalar(select(…).where(…))`: the first row that fits
abbrev pub first {ℓ} : {A : Type ℓ} → (A → Bool) → List A → Option A
first p [] = none
first p (x ∷ xs) = let rest = first p xs in if p x then some x else rest

-- the rows that fit are changed
abbrev pub update_where {ℓ} : {A : Type ℓ} → (A → Bool) → (A → A) → List A → List A
update_where p f [] = []
update_where p f (x ∷ xs) = (if p x then f x else x) ∷ update_where p f xs

-- `session.add`: refused if a row clashes with it, by its primary key or a unique constraint
unfoldable pub add_row {ℓ} : {A : Type ℓ} → (A → Bool) → A → List A → Result Error (List A)
add_row clashes row rows = if any clashes rows then err integrity else ok (rows ++ row ∷ [])

-- a foreign key of a row that is added
abbrev pub refers : Bool → Bool → Result Error (Unit {0})
refers enforced found = if not enforced || found then ok tt else err integrity

module _ (p : Platform) where
  open p use {Json, Time}

  abbrev pub Db : Type 0
  Db = Database Json Time

  -- `RuleSet.content_sha256`
  abbrev pub content_sha256 : p.RuleSet → String
  content_sha256 rules = p.sha256 (p.model_dump rules)

  -- `_event(…)`
  abbrev pub event :
      String
      → String
      → String
      → Option String
      → Dict String Json
      → Option String
      → ℕ
      → AuditEventRow Json Time
  event action resource_type resource_id actor_id metadata tenant_id calls = record {
    id = p.ulid "audit_" calls;
    tenant_id = tenant_id;
    actor_id = actor_id;
    action = action;
    resource_type = resource_type;
    resource_id = resource_id;
    metadata_json = metadata;
    occurred_at = p.now (calls + 1);
  }

  -- `session.add(_event(…))`
  unfoldable pub add_event :
      String
      → String
      → String
      → Option String
      → Dict String Json
      → Option String
      → Db
      → Result Error Db
  unfolding add_row
  add_event action resource_type resource_id actor_id metadata tenant_id db = do
    let row = event action resource_type resource_id actor_id metadata tenant_id db.calls
    events ← add_row (λ (e : AuditEventRow Json Time). e.id == row.id) row db.audit_events
    ok (record db { audit_events = events; calls = db.calls + 2 })
