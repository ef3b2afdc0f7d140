-- ===== src/Tests/Rules.antt =====
-- The registries of rules.py on small inputs.
use excel_youhua.Rules.Segments.{path_eq}
use excel_youhua.Persistence.Session.{content_sha256}
use excel_youhua.Rules.Registry.Immutable.{publish-get_version, publish_all}
use excel_youhua.Rules.Segments.{Error}
use excel_youhua.Prelude.Results.{err, ok, Result}
use excel_youhua.Rules.Drafts.{
  get_draft, confirm_mapping, mark_published, new_draft, Draft, Registry, Environment, Config,
  ColumnConfig,
}
use excel_youhua.Dict.{get, put}
use excel_youhua.Rules.Registry.{get_version, publish, Files}
use excel_youhua.Rules.Drafts.Calls as Calls
use excel_youhua.Rules.Drafts.Published as Drafts
use excel_youhua.Rules.Drafts as Store
use excel_youhua.Tests.Platform.{rules, sample, products, changed, read_back, Rules, ticks}
use excel_youhua.Prelude.{
  arith, ap, zero, string_eq, ◌∷◌, none, suc, true, some, [], List, ℕ, String, ◌≡◌, refl,
}

abbrev no_files : Files sample
no_files = []

abbrev first_file : Files sample
unfolding put
first_file = put ("products", "1") (rules "products" "1" "Products") no_files

publish-get_version_example :
    (stored : Rules) × (get_version sample "products" "1"
        (publish_all sample (changed ∷ []) first_file)
      ≡ ok stored)
    × (content_sha256 sample stored ≡ "Products")
unfolding publish put get
publish-get_version_example =
    publish-get_version sample read_back products no_files (changed ∷ []) refl

abbrev brand : ColumnConfig ℕ
brand = record { name = some "brand"; aliases = none; others = 0 }

abbrev draft_config : Config ℕ
draft_config = record {
  schema_id = some "products";
  sheets = record { id = some "main"; columns = brand ∷ []; others = 0 } ∷ [];
  others = 0;
}

abbrev environment : Environment ℕ
environment = record {
  ulid = λ n. String.◌∷◌ "d" (
      String.◌∷◌ "r" (String.◌∷◌ "a" (String.◌∷◌ "f" (String.◌∷◌ "t" (String.◌∷◌ "_" (ticks n))))));
  now = λ n. ticks n;
  isalnum = λ s. true;
  validates = λ c. true;
}

abbrev length_of : String → ℕ
length_of String.[] = 0
length_of (String.◌∷◌ c s) = suc (length_of s)

length-ticks : (n : ℕ) → length_of (ticks n) ≡ n
length-ticks zero = refl
length-ticks (suc n) = ap suc (length-ticks n)

distinct_ids : (m n : ℕ) → environment.ulid m ≡ environment.ulid n → m ≡ n
distinct_ids m n h = omega (arith, length-ticks m, length-ticks n, ap length_of h)

abbrev one_draft : List (Calls.Call ℕ)
one_draft = Calls.create "products" draft_config none ∷ []

abbrev start : Registry ℕ
unfolding Calls.perform
start = Calls.perform environment one_draft (Drafts.empty_registry environment)

abbrev first_draft : Draft ℕ
first_draft = new_draft environment "products" draft_config none 0

abbrev or_start : Result Error (Registry ℕ × Draft ℕ) → Registry ℕ × Draft ℕ
or_start (ok pair) = pair
or_start (err error) = (start, first_draft)

abbrev marked : Registry ℕ × Draft ℕ
unfolding Calls.perform Store.create mark_published
marked = or_start (mark_published environment "products" "draft_" start)

abbrev more_calls : List (Calls.Call ℕ)
more_calls =
    Calls.update "products" "draft_" (record draft_config { others = 1 })
    ∷ Calls.confirm "products" "draft_" "Brand name" "brand" none
    ∷ Calls.mark "products" "draft_"
    ∷ []

mark_published_lem_example :
    (later : Draft ℕ) × (get_draft environment "products" "draft_"
        (Calls.perform environment more_calls marked.0)
      ≡ ok later)
    × (later.config ≡ draft_config)
    × (later.status ≡ "published")
unfolding Calls.perform Store.create mark_published get_draft
mark_published_lem_example =
    Drafts.mark_published_lem environment distinct_ids one_draft "products" "draft_" more_calls refl
      refl

abbrev confirmed : Registry ℕ × Draft ℕ
unfolding Calls.perform Store.create confirm_mapping
confirmed =
    or_start (confirm_mapping environment "products" "draft_" "Brand name" "brand" none start)
