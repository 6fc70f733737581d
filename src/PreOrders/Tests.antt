-- ===== src/PreOrders/Tests.antt =====
-- A concrete pre-order: created, sent and confirmed.
use opticutter.Prelude.{
  ◌≤◌, ◌≡◌, refl, ◌&&◌, true, false, Option, none, some, List, [], ◌∷◌, Result, ok, ◌==◌,
  if◌then◌else◌,
}
use opticutter.Prelude.Rows.{on_first}
use opticutter.Prelude.Text.{Text, codes}
use opticutter.Branches.{
  Branch, resolve_branch_for_create, chosen_branch, check_branch, find_branch, hidden,
}
use opticutter.Orders.Order.{Actor, staff, client_actor, Order}
use opticutter.Orders.Store.{
  new_order, Client, Quote, find_client, check_client, create_unless_duplicate,
  find_active_duplicate,
}
use opticutter.Orders.Store
use opticutter.Settings.{PriceTier, PreOrderConfig}
use opticutter.PreOrders.{PreOrder}
use opticutter.PreOrders.Service.{
  PreOrderCreate, create, enforce_open_cap, sweep_candidates, open_count, scoped, expire_if_stale,
  is_stale, new_preorder, record_transition,
}
use opticutter.PreOrders.Service.Cap.{create-bounded}
use opticutter.PreOrders.Review.{
  Database, generate, generate_row, sent_out, note_sent, confirm, confirm_row, confirmed_row,
  create_order, has_link, find_link, with_link,
}
use opticutter.PreOrders.Review.Retry.{IsFinal, confirm-IsFinal}
use opticutter.PreOrders.Lifecycle.Reachable.{
  AllConsistent, created, generated, accepted, empty, next, Reachable-AllConsistent,
}

abbrev clients : List Client
clients = record { id = 5; has_phone = true } ∷ []

abbrev branches : List Branch
branches = record { id = 1; is_active = true } ∷ []

abbrev boss : Actor
boss = record { type = staff; user_id = some 1; label = none; role = none }

abbrev config : PreOrderConfig
config = record { preorder_validity_days = 15; max_open_preorders_per_client = 1 }

abbrev any_tier : Option Text → Result PriceTier
any_tier code = ok (record { code = codes "consumidor"; name = []; rate = 0; is_active = none })

abbrev form : PreOrderCreate
form = record {
  client_id = 5;
  branch_id = some 1;
  materials = codes "m";
  requirements = codes "r";
  additional_services = [];
  price_tier_code = none;
  strategy = codes "default";
  source = none;
  notes = none;
}

abbrev db : Database
db = record {
  clients = clients;
  branches = branches;
  quote_of = λ p. ok (record {
    layouts = [];
    optimization_hash = p.materials;
    tier_code = p.price_tier_code;
    services_total = 0;
    has_banding = false;
  });
}

abbrev plain : Text → Text
plain token = token

abbrev made : List PreOrder × Result PreOrder
made = create any_tier clients branches config 100 2026 7 form boss none none []

abbrev first : PreOrder
first =
    new_preorder config 100 2026 7 1
      (record { code = codes "consumidor"; name = []; rate = 0; is_active = none }) boss form

made_runs : made.1 ≡ ok first
unfolding create find_client resolve_branch_for_create chosen_branch check_branch find_branch
    enforce_open_cap sweep_candidates
made_runs = refl

create-bounded_example : open_count 5 1 made.0 ≤ (
    if 5 == first.client_id && 1 == first.branch_id
    then config.max_open_preorders_per_client
    else open_count 5 1 [])
create-bounded_example =
    create-bounded any_tier clients branches config 100 2026 7 form boss none none [] 5 1 made_runs

abbrev after_link : List PreOrder
after_link = (generate plain clients config 200 (codes "abc") 7 boss none made.0).0

abbrev with_order : List PreOrder
with_order = (confirm plain db (λ k. k) 3 300 (codes "abc") none [] [] after_link).0

Reachable-AllConsistent_example : AllConsistent with_order
Reachable-AllConsistent_example = Reachable-AllConsistent with_order (
    next after_link
      (next made.0
        (next [] empty (created any_tier clients branches config 100 2026 7 form boss none none))
        (generated plain clients config 200 (codes "abc") 7 boss none))
      (accepted plain db (λ k. k) 3 300 (codes "abc") none [] []))

abbrev first_sent : PreOrder
first_sent = sent_out config 200 (codes "abc") boss first

abbrev first_order : Order
first_order =
    new_order (λ k. k) 3 1 5 client_actor
      (record {
        layouts = [];
        optimization_hash = codes "m";
        tier_code = codes "consumidor";
        services_total = 0;
        has_banding = false;
      })

abbrev first_confirmed : PreOrder
first_confirmed = confirmed_row 300 (codes "abc") none [] first_order first_sent

link_runs : after_link ≡ first_sent ∷ []
unfolding generate create find_client resolve_branch_for_create chosen_branch check_branch
    find_branch enforce_open_cap sweep_candidates on_first scoped expire_if_stale is_stale
    generate_row check_client new_preorder hidden
link_runs = refl

confirm_runs :
    (confirm plain db (λ k. k) 3 300 (codes "abc") none [] [] (first_sent ∷ [])).1.1
    ≡ ok first_confirmed
unfolding confirm on_first has_link find_link with_link expire_if_stale is_stale confirm_row
    create_order Store.create check_client find_client resolve_branch_for_create chosen_branch
    check_branch find_branch create_unless_duplicate find_active_duplicate sent_out note_sent
    record_transition new_preorder new_order
confirm_runs = refl

confirm-IsFinal_example :
    let done = confirm plain db (λ k. k) 3 300 (codes "abc") none [] [] (first_sent ∷ []) in
    IsFinal plain (codes "abc") first_confirmed done.0 done.1.0
confirm-IsFinal_example =
    confirm-IsFinal plain db (λ k. k) 3 300 (codes "abc") none [] [] (first_sent ∷ []) confirm_runs
