-- ===== src/Settings.antt =====
-- The single row of settings: src/modules/settings/service.py and model.py. Lengths are hundredths of a
-- millimetre, rates are ten-thousandths. The row that `config` seeds is an argument. An update leaves
-- what it does not name; an explicit null is not modelled.
mod Tests
pub mod Tiers
use opticutter.Prelude.{
  ℕ, Bool, true, false, ◌&&◌, Option, none, some, List, [], ◌∷◌, if◌then◌else◌, Result, ok, err,
  validation_error,
}
use opticutter.Prelude.Text.{Text, codes, same_text}

-- A row of `price_tiers`; `is_active` may be missing.
pub record PriceTier : Type 0 where
  pub code : Text
  pub name : Text
  pub rate : ℕ
  pub is_active : Option Bool

-- name and address
abbrev pub CompanyBranch : Type 0
CompanyBranch = Text × Text

pub record SettingsRow : Type 0 where
  pub kerf : ℕ
  pub top_trim : ℕ
  pub bottom_trim : ℕ
  pub left_trim : ℕ
  pub right_trim : ℕ
  pub edge_banding_waste_factor : ℕ
  pub half_board_markup_pct : ℕ
  pub preorder_validity_days : ℕ
  pub max_open_preorders_per_client : ℕ
  pub price_tiers : List PriceTier
  pub company_name : Text
  pub company_tagline : Text
  pub company_email : Text
  pub company_phone : Text
  pub company_branches : List CompanyBranch
  pub updated_by : Option ℕ

-- The row that another request may have inserted first is the row in the table.
unfoldable pub get_or_init : SettingsRow → Option SettingsRow → SettingsRow
get_or_init seed none = seed
get_or_init seed (some row) = row

abbrev pub given {ℓ} : {A : Type ℓ} → Option A → A → A
given none old = old
given (some new) old = new

unfoldable pub stamp_updated_by : Option ℕ → SettingsRow → SettingsRow
stamp_updated_by none row = row
stamp_updated_by (some user) row = record row { updated_by = some user }

pub record CuttingUpdate : Type 0 where
  pub kerf : Option ℕ
  pub top_trim : Option ℕ
  pub bottom_trim : Option ℕ
  pub left_trim : Option ℕ
  pub right_trim : Option ℕ
  pub edge_banding_waste_factor : Option ℕ
  pub half_board_markup_pct : Option ℕ

pub record CompanyUpdate : Type 0 where
  pub name : Option Text
  pub tagline : Option Text
  pub email : Option Text
  pub phone : Option Text
  pub branches : Option (List CompanyBranch)

pub record PreOrderConfig : Type 0 where
  pub preorder_validity_days : ℕ
  pub max_open_preorders_per_client : ℕ

pub record Company : Type 0 where
  pub name : Text
  pub tagline : Text
  pub email : Text
  pub phone : Text
  pub branches : List CompanyBranch

-- `user` is the current user, `table` the row if it is there
module _ (seed : SettingsRow) (user : Option ℕ) where
  unfoldable pub update_cutting : CuttingUpdate → Option SettingsRow → SettingsRow
  unfolding get_or_init stamp_updated_by
  update_cutting u table =
      let row = get_or_init seed table in
      stamp_updated_by user (record row {
        kerf = given u.kerf row.kerf;
        top_trim = given u.top_trim row.top_trim;
        bottom_trim = given u.bottom_trim row.bottom_trim;
        left_trim = given u.left_trim row.left_trim;
        right_trim = given u.right_trim row.right_trim;
        edge_banding_waste_factor = given u.edge_banding_waste_factor row.edge_banding_waste_factor;
        half_board_markup_pct = given u.half_board_markup_pct row.half_board_markup_pct;
      })

  unfoldable pub update_preorders : Option ℕ → Option ℕ → Option SettingsRow → SettingsRow
  unfolding get_or_init stamp_updated_by
  update_preorders validity_days max_open table =
      let row = get_or_init seed table in
      stamp_updated_by user (record row {
        preorder_validity_days = given validity_days row.preorder_validity_days;
        max_open_preorders_per_client = given max_open row.max_open_preorders_per_client;
      })

  unfoldable pub update_price_tiers : List PriceTier → Option SettingsRow → SettingsRow
  unfolding get_or_init stamp_updated_by
  update_price_tiers tiers table =
      stamp_updated_by user (record (get_or_init seed table) { price_tiers = tiers })

  unfoldable pub update_company : CompanyUpdate → Option SettingsRow → SettingsRow
  unfolding get_or_init stamp_updated_by
  update_company u table =
      let row = get_or_init seed table in
      stamp_updated_by user (record row {
        company_name = given u.name row.company_name;
        company_tagline = given u.tagline row.company_tagline;
        company_email = given u.email row.company_email;
        company_phone = given u.phone row.company_phone;
        company_branches = given u.branches row.company_branches;
      })

module _ (seed : SettingsRow) (table : Option SettingsRow) where
  unfoldable pub get_preorder_config : PreOrderConfig
  unfolding get_or_init
  get_preorder_config =
      let row = get_or_init seed table in
      record {
        preorder_validity_days = row.preorder_validity_days;
        max_open_preorders_per_client = row.max_open_preorders_per_client;
      }

  unfoldable pub get_company : Company
  unfolding get_or_init
  get_company =
      let row = get_or_init seed table in
      record {
        name = row.company_name;
        tagline = row.company_tagline;
        email = row.company_email;
        phone = row.company_phone;
        branches = row.company_branches;
      }

-- `settings.price_tiers or config.PRICE_TIERS`
unfoldable pub get_price_tiers : List PriceTier → List PriceTier → List PriceTier
get_price_tiers fallback [] = fallback
get_price_tiers fallback (t ∷ ts) = t ∷ ts

-- `code or "consumidor"`
abbrev pub tier_code_or : Option Text → Text
tier_code_or none = codes "consumidor"
tier_code_or (some []) = codes "consumidor"
tier_code_or (some (c ∷ cs)) = c ∷ cs

unfoldable pub is_offered : Text → PriceTier → Bool
is_offered code t = same_text t.code code && elim t.is_active [ none ↦ true | some b ↦ b ]

unfoldable pub find_tier : Text → List PriceTier → Result PriceTier
unfolding is_offered
find_tier code [] = err validation_error
find_tier code (t ∷ ts) = if is_offered code t then ok t else find_tier code ts

-- `tiers` is the column of the row
unfoldable pub resolve_price_tier : List PriceTier → List PriceTier → Option Text → Result PriceTier
unfolding find_tier get_price_tiers
resolve_price_tier fallback tiers code =
    find_tier (tier_code_or code) (get_price_tiers fallback tiers)
