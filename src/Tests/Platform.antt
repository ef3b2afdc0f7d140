-- ===== src/Tests/Platform.antt =====
-- A platform for the tests: rule sets of three texts, and identifiers that count.
use excel_youhua.Persistence.Session.{Platform}
use Prim.Native.String.{String}
use Prim.Native.String
use excel_youhua.Prelude.{true, zero, leb, none, suc, some, Option, ℕ, String, ◌≡◌, refl}

pub data Doc : Type 0 where
  text : String → Doc
  number : ℕ → Doc
  null : Doc
  rules : String → String → String → Doc

pub record Rules : Type 0 where
  pub schema_id : String
  pub version : String
  pub name : String

abbrev pub ticks : ℕ → String
ticks zero = ""
ticks (suc n) = String.◌∷◌ "i" (ticks n)

abbrev pub read_rules : Doc → Option Rules
read_rules (rules id version name) =
    some (record { schema_id = id; version = version; name = name })
read_rules (text s) = none
read_rules (number n) = none
read_rules null = none

abbrev pub hash : Doc → String
hash (rules id version name) = name
hash (text s) = s
hash (number n) = ""
hash null = ""

abbrev pub sample : Platform
sample = record {
  Json = Doc;
  Time = ℕ;
  RuleSet = Rules;
  ulid = λ prefix n. String.◌++◌ prefix (ticks n);
  now = λ n. n;
  time_le = leb;
  sha256 = hash;
  text = text;
  number = number;
  null = null;
  schema_id = λ r. r.schema_id;
  schema_version = λ r. r.version;
  name = λ r. r.name;
  model_dump = λ r. rules r.schema_id r.version r.name;
  model_validate = read_rules;
  fromisoformat = λ s. some 0;
  foreign_keys = true;
}

abbrev pub products : Rules
products = record { schema_id = "products"; version = "1"; name = "Products" }

abbrev pub changed : Rules
changed = record { schema_id = "products"; version = "1"; name = "Other" }

pub read_back : (r : Rules) → sample.model_validate (sample.model_dump r) ≡ some r
read_back r = refl
