-- ===== src/Persistence/Later.antt =====
-- A later database: rule versions and audit events have only been added.
use excel_youhua.Persistence.Rows.{SchemaVersionRow}
use excel_youhua.Prelude.{All-append, All}
use mathlib.Core.List.{append-nil, append_assoc}
use excel_youhua.Prelude.{◌≡◌, sym, ◌∙◌, List, [], ◌++◌}
use excel_youhua.Persistence.Session.{content_sha256, Platform, Db}

pub record Grows {ℓ} {A : Type ℓ} (before after : List A) : Type ℓ where
  pub added : List A
  pub grown : after ≡ before ++ added

module _ {ℓ} {A : Type ℓ} where
  abbrev pub Grows-refl : (xs : List A) → Grows xs xs
  Grows-refl xs = record { added = []; grown = sym (append-nil xs) }

  abbrev pub Grows-same : {xs ys : List A} → ys ≡ xs → Grows xs ys
  Grows-same {xs} h = record { added = []; grown = h ∙ sym (append-nil xs) }

  abbrev pub Grows-trans : {xs ys zs : List A} → Grows xs ys → Grows ys zs → Grows xs zs
  Grows-trans {xs} f g = record {
    added = f.added ++ g.added;
    grown = rw (g.grown, f.grown) (append_assoc xs f.added g.added);
  }

module _ (p : Platform) where
  -- the row holds a rule set with its hash
  abbrev pub IsFaithful : SchemaVersionRow p.Json p.Time → Type 0
  IsFaithful row =
      (rules : p.RuleSet) × (row.config_json ≡ p.model_dump rules)
      × (row.config_sha256 ≡ content_sha256 p rules)

  -- What any call keeps.
  pub record IsLater (db new : Db p) : Type 0 where
    pub versions : Grows db.schema_versions new.schema_versions
    pub faithful : All IsFaithful versions.added
    pub events : Grows db.audit_events new.audit_events

  pub IsLater-refl : (db : Db p) → IsLater db db
  IsLater-refl db = record {
    versions = Grows-refl db.schema_versions;
    faithful = tt;
    events = Grows-refl db.audit_events;
  }

  pub IsLater-trans : {a b c : Db p} → IsLater a b → IsLater b c → IsLater a c
  IsLater-trans f g = record {
    versions = Grows-trans f.versions g.versions;
    faithful = All-append IsFaithful f.versions.added g.versions.added f.faithful g.faithful;
    events = Grows-trans f.events g.events;
  }

  -- neither table has changed
  pub IsLater-same :
      {db new : Db p}
      → new.schema_versions ≡ db.schema_versions
      → new.audit_events ≡ db.audit_events
      → IsLater db new
  IsLater-same v e = record { versions = Grows-same v; faithful = tt; events = Grows-same e }
