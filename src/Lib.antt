-- ===== src/Lib.antt =====
-- Opticutter: the cutting engine, the quotes, the pre-orders and the orders of a cutting shop.
--
-- The program (src/) cuts rectangular pieces out of boards and follows the orders for them through
-- the workshop. Its core is a pure cutting engine (src/cutting): GuillotineOptimizer packs pieces on
-- one board by guillotine cuts, MultiSheetGuillotineOptimizer repeats it over copies of a board.
-- src/modules/optimizations resolves the materials of a request, builds its pieces, calls the engine
-- for a catalog board with offcuts, bills half boards, groups equal layouts and prices the result. A
-- pre-order keeps a request that the client reviews over a link and confirms, which creates an order.
-- An order freezes the layouts that were computed, stores a row for each placed piece, and moves
-- through a state machine whose gates read those rows and the edge-banding track; a transition notifies
-- the staff. Labels are printed from a queue of jobs.
--
-- Files:
--   Prelude and its children: names of the libraries, tests on numbers, lists, the errors that code
--   raises, a stable insertion sort for `sorted`, text as lists of code points with the decimal digits,
--   the query of one row (Rows), a history as a chain of statuses (Trail).
--   Cutting.Models: src/cutting/models.py, enums.py and parameters.py. Cutting.Guillotine: `_sort_pieces`
--   and GuillotineOptimizer of src/cutting/optimizer.py; __init__ is `init`, and _fit_score, _place_piece,
--   _split_remainder, _cuts_for, _create_split_rectangles and optimize are functions of the same
--   name without the underscore. The attributes that methods change are a record `Sheet` passed on.
--   Its children are about a split, a choice, a placement and a run. Cutting.MultiSheet: the loop
--   over sheets (`fill_sheets`, `optimize_multi`).
--   Optimizations, each for the file of src/modules/optimizations of its name: Materials (materials.py and
--   the validator of schemas.py), HalfBoards (half_boards.py), Patterns (patterns.py), Pricing
--   (pricing.py) and Pool (pool.py; _offcuts_first and _catalog_first are `fill_offcuts_first` and
--   `fill_catalog_first`). Pieces and Summary: _build_pieces and the summaries, with the totals of
--   _build_result_payload, of service.py. Edges: _geometric_edges and _enrich_layout_pieces of service.py,
--   edge_banding_notation of labels.py.
--   Settings: src/modules/settings/service.py; its child Tiers is about the choice of a price tier.
--   Branches: resolve_branch_for_create of src/modules/branches/service.py, the scope check of
--   src/shared/branch_scope.py.
--   PreOrders: the rows of src/modules/preorders/model.py. PreOrders.Service and PreOrders.Editing: the calls
--   of service.py; PreOrders.Review: those of review_service.py. The links of a pre-order stand in its
--   row. PreOrders.Lifecycle and its children: the invariant over all those calls.
--   Orders.Status and Orders.Order: src/modules/orders/model.py, src/shared/audit.py and
--   src/modules/users/enums.py. Orders.Plan: _attach_cutting_plan, _ensure_cutting_plan and
--   mark_piece_cut. Orders.Transition: transition, _apply_transition and transition_banding.
--   Orders.Store: create, _find_active_duplicate, change_branch and set_external_invoice_id.
--   Orders.Lifecycle and Orders.Reachable: the invariant of an order over all those calls.
--   Notifications: src/modules/notifications/emitter.py and service.py. Recipients and FanOut are
--   about who is told of a transition, Single and Unread about the two calls that mark as read.
--   Sessions: src/modules/users/refresh_token_service.py; `_get` is `find_token`.
--   PrintJobs: the queue in src/modules/print_jobs/service.py: `_sweep`, `_claim_one`, `ack` and the row
--   that `_spool_and_create` adds.
--   The modules Tests, Optimizations.RequestTests and EdgeTests: concrete runs.
--
-- Numbers: lengths are natural numbers of hundredths of a millimetre, areas are exact products,
-- amounts are cents, rates are ten-thousandths and are applied to the nearest cent, ties upwards;
-- instants and ids are natural numbers. The program computes with floats, whose rounding is not
-- modelled; a minimum of 0.01 is 1. Constructors that test for negative values take integers. A
-- subtraction stands where the code has tested, or the packing ensures, that it is exact.
--
-- Bounds: the loops are structural (over pieces, remainders, sheets left, values of k left); the
-- digits of n are computed in n + 1 rounds, enough since each divides by ten.
--
-- Outside: the database is a list of rows in their order with the key of a new row as an argument;
-- ids that it hands out are a function `ids`. The time, a random token and the hash of a token are
-- arguments of the calls that use them. What the optimization service, the price tiers and the pricing
-- return for a request is an argument of the `create` of an order, and whether a code point is a digit
-- is one of `base_label`. A commit that the database refuses is not modelled.
--
-- Not modelled: HTTP and its schemas, the rendering of documents and labels, the cache and the
-- request hash of the optimization service, clients, products, users and their passwords,
-- attachments, drafts and analytics, which store, search or aggregate rows; listing, but for the page of
-- notifications; the configuration and the seeding scripts.
pub mod Prelude
pub mod Cutting
pub mod Optimizations
pub mod Branches
pub mod Orders
pub mod Sessions
pub mod PrintJobs
pub mod Settings
pub mod PreOrders
pub mod Notifications
