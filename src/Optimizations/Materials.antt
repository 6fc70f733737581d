-- ===== src/Optimizations/Materials.antt =====
-- src/modules/optimizations/materials.py, and the materials of a request in schemas.py with its
-- validator. A product is the row of src/modules/products/model.py with the attributes that its type's
-- schema has validated. Lengths are hundredths of a millimetre, amounts cents.
use opticutter.Prelude.{
  ℕ, Bool, true, false, not, ◌&&◌, ◌||◌, Option, none, some, List, [], ◌∷◌, map, filter, ◌==◌,
  if◌then◌else◌, Result, ok, err, ◌>>◌, raise_if, entity_not_found, business_rule_error,
  value_error,
}
use opticutter.Prelude.Text.{Text, same_text}

pub data MaterialSource : Type 0 where
  catalog company_offcut client_offcut manual : MaterialSource

pub data PoolFillOrder : Type 0 where
  auto offcuts_first catalog_first : PoolFillOrder

pub data ProductType : Type 0 where
  board edge_banding hardware : ProductType

pub record Attributes : Type 0 where
  pub width : ℕ
  pub height : ℕ
  pub thickness : ℕ
  pub color : Option Text
  pub band_type : Option Text

pub record Product : Type 0 where
  pub id : ℕ
  pub type : ProductType
  pub code : Text
  pub name : Text
  pub price : ℕ
  pub attributes : Attributes

pub record ResolvedMaterial : Type 0 where
  pub key : Text
  pub width : ℕ
  pub height : ℕ
  pub thickness : ℕ
  pub cost_per_unit : ℕ
  pub source : MaterialSource
  pub product_id : Option ℕ
  pub code : Option Text
  pub name : Option Text
  pub quantity : Option ℕ
  pub pool_key : Option Text
  pub fill_order : PoolFillOrder

abbrev pub is_catalog_source : MaterialSource → Bool
is_catalog_source catalog = true
is_catalog_source _ = false

abbrev pub is_catalog : ResolvedMaterial → Bool
is_catalog rm = is_catalog_source rm.source

pub record CatalogMaterialInput : Type 0 where
  pub key : Text
  pub product_id : ℕ
  pub fill_order : PoolFillOrder

-- `source` is not `catalog`
pub record InlineMaterialInput : Type 0 where
  pub key : Text
  pub source : MaterialSource
  pub height : ℕ
  pub width : ℕ
  pub thickness : ℕ
  pub cost_per_unit : ℕ
  pub label : Option Text
  pub quantity : Option ℕ
  pub pool_key : Option Text

pub data MaterialInput : Type 0 where
  from_catalog : CatalogMaterialInput → MaterialInput
  inline : InlineMaterialInput → MaterialInput

abbrev pub key_of : MaterialInput → Text
key_of (from_catalog m) = m.key
key_of (inline m) = m.key

-- getattr(material, "pool_key", None)
abbrev pub pool_key_of : MaterialInput → Option Text
pool_key_of (from_catalog m) = none
pool_key_of (inline m) = m.pool_key

abbrev pub source_of : MaterialInput → MaterialSource
source_of (from_catalog m) = catalog
source_of (inline m) = m.source

-- `product_service.get(id)`
unfoldable pub find_product : ℕ → List Product → Option Product
find_product id [] = none
find_product id (p ∷ ps) = if p.id == id then some p else find_product id ps

abbrev pub is_board : ProductType → Bool
is_board board = true
is_board _ = false

abbrev pub board_material : CatalogMaterialInput → Product → ResolvedMaterial
board_material m p = record {
  key = m.key;
  width = p.attributes.width;
  height = p.attributes.height;
  thickness = p.attributes.thickness;
  cost_per_unit = p.price;
  source = catalog;
  product_id = some p.id;
  code = some p.code;
  name = some p.name;
  quantity = none;
  pool_key = none;
  fill_order = m.fill_order;
}

unfoldable pub resolve_catalog : List Product → CatalogMaterialInput → Result ResolvedMaterial
unfolding find_product
resolve_catalog products m = elim (find_product m.product_id products) [
  | none ↦ err entity_not_found
  | some p ↦ if is_board p.type then ok (board_material m p) else err business_rule_error
]

unfoldable pub resolve_inline : InlineMaterialInput → ResolvedMaterial
resolve_inline m = record {
  key = m.key;
  width = m.width;
  height = m.height;
  thickness = m.thickness;
  cost_per_unit = m.cost_per_unit;
  source = m.source;
  product_id = none;
  code = none;
  name = m.label;
  quantity = m.quantity;
  pool_key = m.pool_key;
  fill_order = auto;
}

unfoldable pub resolve : List Product → MaterialInput → Result ResolvedMaterial
unfolding resolve_catalog resolve_inline
resolve products (from_catalog m) = resolve_catalog products m
resolve products (inline m) = ok (resolve_inline m)

abbrev pub text_in : Text → List Text → Bool
text_in t [] = false
text_in t (u ∷ us) = same_text u t || text_in t us

-- len(set(keys)) == len(keys)
unfoldable pub all_distinct : List Text → Bool
all_distinct [] = true
all_distinct (t ∷ ts) = not (text_in t ts) && all_distinct ts

-- by_key.get(key), where the keys are unique
unfoldable pub by_key : Text → List MaterialInput → Option MaterialInput
by_key key [] = none
by_key key (m ∷ ms) = if same_text (key_of m) key then some m else by_key key ms

-- `if pool_key is None: continue`, then the two tests of its target
unfoldable pub good_pool_link : List MaterialInput → MaterialInput → Bool
unfolding by_key
good_pool_link all m = elim (pool_key_of m) [
  | none ↦ true
  | some key ↦ elim (by_key key all) [
    | none ↦ false
    | some target ↦ is_catalog_source (source_of target)
  ]
]

abbrev pub all_of {ℓ} : {A : Type ℓ} → (A → Bool) → List A → Bool
all_of p [] = true
all_of p (x ∷ xs) = p x && all_of p xs

abbrev pub is_pooled : MaterialInput → Bool
is_pooled m = elim (pool_key_of m) [ none ↦ false | some key ↦ true ]

-- the keys of the pooled offcuts
abbrev pub pooled_keys : List MaterialInput → List Text
pooled_keys ms = map key_of (filter is_pooled ms)

-- a requirement, by its material key
unfoldable pub good_reference : List MaterialInput → Text → Bool
unfolding by_key
good_reference all key = elim (by_key key all) [
  | none ↦ false
  | some m ↦ not (text_in key (pooled_keys all))
]

-- `_validate_material_refs`
unfoldable pub validate_material_refs : List MaterialInput → List Text → Result (Unit {0})
unfolding all_distinct good_pool_link good_reference
validate_material_refs materials references =
    raise_if (not (all_distinct (map key_of materials))) value_error
    >> raise_if (not (all_of (good_pool_link materials) materials)) value_error
    >> raise_if (not (all_of (good_reference materials) references)) value_error
