-- ===== src/Settings/Tests.antt =====
-- A concrete table of price tiers: the first one is inactive.
use opticutter.Prelude.{◌≡◌, refl, false, none, some, List, [], ◌∷◌, ok}
use opticutter.Prelude.Text.{codes}
use opticutter.Settings.{
  PriceTier, SettingsRow, update_price_tiers, resolve_price_tier, get_price_tiers, find_tier,
  is_offered,
}
use opticutter.Settings.Tiers.{IsResolution, resolve_price_tier-cases}

abbrev lower : PriceTier
lower = record { code = codes "efectivo"; name = []; rate = 400; is_active = none }

abbrev tiers : List PriceTier
tiers =
    record { code = codes "efectivo"; name = []; rate = 500; is_active = some false } ∷ lower ∷ []

abbrev seed : SettingsRow
seed = record {
  kerf = 300;
  top_trim = 500;
  bottom_trim = 500;
  left_trim = 500;
  right_trim = 500;
  edge_banding_waste_factor = 1000;
  half_board_markup_pct = 1000;
  preorder_validity_days = 15;
  max_open_preorders_per_client = 5;
  price_tiers = [];
  company_name = [];
  company_tagline = [];
  company_email = [];
  company_phone = [];
  company_branches = [];
  updated_by = none;
}

resolve_price_tier-cases_example : IsResolution (some (codes "efectivo")) [] tiers (
    resolve_price_tier []
      (update_price_tiers seed (some 1) tiers none).price_tiers
      (some (codes "efectivo")))
resolve_price_tier-cases_example =
    resolve_price_tier-cases [] tiers (some (codes "efectivo")) seed (some 1) none

lower_resolves : resolve_price_tier [] tiers (some (codes "efectivo")) ≡ ok lower
unfolding resolve_price_tier get_price_tiers find_tier is_offered
lower_resolves = refl
