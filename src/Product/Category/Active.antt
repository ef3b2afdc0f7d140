-- ===== src/Product/Category/Active.antt =====
-- Only active categories are indexed (product_workflow/category.py).
use excel_youhua.Product.Mapping.Step.{values}
use excel_youhua.Product.Models.{CategoryDefinition}
use excel_youhua.Product.Category.{values, CategoryDefinition, index_categories}
use excel_youhua.Dict.{has-put, has, Dict, put}
use excel_youhua.Prelude.{
  if◌then◌else◌, arith, [], ◌∷◌, ◌||◌, true, string_eq, ◌≡◌, ◌==◌, any, ◌&&◌, Bool, List, String,
}

-- an active category of the list has the id
abbrev pub is_active_id : String → CategoryDefinition → Bool
is_active_id cid c = c.active && (c.category_id == cid)

any-values-put :
    (p : CategoryDefinition → Bool) (k : String) (c : CategoryDefinition)
    (d : Dict String CategoryDefinition)
    → any p (values (put k c d)) ≡ true
    → (p c || any p (values d)) ≡ true
unfolding put
any-values-put p k c [] h = h
any-values-put p k c ((j, w) ∷ d) h = ground (arith, any-values-put p k c d)

-- the index with the first category
entered : CategoryDefinition → Dict String CategoryDefinition → Dict String CategoryDefinition
entered c d = if c.active then put c.category_id c d else d

has-entered :
    (cid : String) (c : CategoryDefinition) (d : Dict String CategoryDefinition)
    → has cid (entered c d) ≡ (has cid d || is_active_id cid c)
unfolding entered
has-entered cid c d = ground (arith, has-put c.category_id cid c d)

any-entered :
    (p : CategoryDefinition → Bool) (c : CategoryDefinition) (d : Dict String CategoryDefinition)
    → any p (values (entered c d)) ≡ true
    → (any p (values d) || (c.active && p c)) ≡ true
unfolding entered
any-entered p c d h = ground (arith, any-values-put p c.category_id c d)

pub has-index_categories :
    (cid : String) (cs : List CategoryDefinition) (d : Dict String CategoryDefinition)
    → has cid (index_categories d cs) ≡ true
    → (has cid d || any (is_active_id cid) cs) ≡ true
unfolding index_categories entered
has-index_categories cid [] d h = ground (arith, h)
has-index_categories cid (c ∷ cs) d h =
    let rest = has-index_categories cid cs (entered c d) h in
    ground (arith, rest, has-entered cid c d)

pub any-index_categories :
    (p : CategoryDefinition → Bool) (cs : List CategoryDefinition)
    (d : Dict String CategoryDefinition)
    → any p (values (index_categories d cs)) ≡ true
    → (any p (values d) || any (λ c. c.active && p c) cs) ≡ true
unfolding index_categories entered
any-index_categories p [] d h = ground (arith, h)
any-index_categories p (c ∷ cs) d h =
    let rest = any-index_categories p cs (entered c d) h in ground (arith, rest, any-entered p c d)
