-- ===== src/Orders/Status.antt =====
-- The enums and tables of src/modules/orders/model.py, and src/modules/users/enums.py.
use opticutter.Prelude.{Bool, true, false, ◌||◌, List, [], ◌∷◌}

pub data UserRole : Type 0 where
  admin seller operator bander : UserRole

pub data OrderStatus : Type 0 where
  confirmed queued cutting cut completed dispatched cancelled : OrderStatus

pub data BandingStatus : Type 0 where
  not_applicable pending in_progress done : BandingStatus

-- status in BANDING_PENDING_STATUSES
abbrev pub is_banding_pending : BandingStatus → Bool
is_banding_pending pending = true
is_banding_pending in_progress = true
is_banding_pending _ = false

-- status in BANDING_MUTABLE_ORDER_STATUSES
abbrev pub is_banding_mutable : OrderStatus → Bool
is_banding_mutable cutting = true
is_banding_mutable cut = true
is_banding_mutable _ = false

-- status in TERMINAL_STATUSES
abbrev pub is_terminal : OrderStatus → Bool
is_terminal completed = true
is_terminal dispatched = true
is_terminal cancelled = true
is_terminal _ = false

-- to_status in TRANSITIONS.get(current, set())
unfoldable pub is_transition : OrderStatus → OrderStatus → Bool
is_transition confirmed queued = true
is_transition confirmed cancelled = true
is_transition queued cutting = true
is_transition cutting cut = true
is_transition cutting queued = true
is_transition cut completed = true
is_transition completed dispatched = true
is_transition _ _ = false

-- TRANSITION_ROLES.get((current, to_status), ())
unfoldable pub transition_roles : OrderStatus → OrderStatus → List UserRole
transition_roles confirmed queued = admin ∷ seller ∷ []
transition_roles confirmed cancelled = admin ∷ seller ∷ []
transition_roles queued cutting = admin ∷ operator ∷ []
transition_roles cutting queued = admin ∷ []
transition_roles cutting cut = admin ∷ operator ∷ []
transition_roles cut completed = admin ∷ seller ∷ operator ∷ bander ∷ []
transition_roles completed dispatched = admin ∷ seller ∷ []
transition_roles _ _ = []

-- to_status in BANDING_TRANSITIONS.get(current, set())
unfoldable pub is_banding_transition : BandingStatus → BandingStatus → Bool
is_banding_transition pending in_progress = true
is_banding_transition in_progress done = true
is_banding_transition _ _ = false

abbrev pub banding_transition_roles : List UserRole
banding_transition_roles = admin ∷ bander ∷ []

abbrev pub same_role : UserRole → UserRole → Bool
same_role admin admin = true
same_role seller seller = true
same_role operator operator = true
same_role bander bander = true
same_role _ _ = false

abbrev pub role_in : UserRole → List UserRole → Bool
role_in role [] = false
role_in role (r ∷ rs) = same_role role r || role_in role rs

abbrev pub same_banding : BandingStatus → BandingStatus → Bool
same_banding not_applicable not_applicable = true
same_banding pending pending = true
same_banding in_progress in_progress = true
same_banding done done = true
same_banding _ _ = false

abbrev pub is_queued : OrderStatus → Bool
is_queued queued = true
is_queued _ = false

abbrev pub is_confirmed : OrderStatus → Bool
is_confirmed confirmed = true
is_confirmed _ = false

abbrev pub is_cutting : OrderStatus → Bool
is_cutting cutting = true
is_cutting _ = false

abbrev pub is_cut : OrderStatus → Bool
is_cut cut = true
is_cut _ = false

abbrev pub is_completed : OrderStatus → Bool
is_completed completed = true
is_completed _ = false

abbrev pub is_dispatched : OrderStatus → Bool
is_dispatched dispatched = true
is_dispatched _ = false
