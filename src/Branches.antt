-- ===== src/Branches.antt =====
-- src/modules/branches/service.py: `resolve_branch_for_create`, and the check of
-- src/shared/branch_scope.py. A branch is the row of src/modules/branches/model.py.
use opticutter.Prelude.{
  ℕ, Bool, true, false, not, Option, none, some, List, [], ◌∷◌, ◌==◌, if◌then◌else◌, Result, ok,
  err, validation_error, entity_not_found,
}

pub record Branch : Type 0 where
  pub id : ℕ
  pub is_active : Bool

-- `db.get(BranchModel, branch_id)`
unfoldable pub find_branch : ℕ → List Branch → Option Branch
find_branch id [] = none
find_branch id (b ∷ bs) = if b.id == id then some b else find_branch id bs

unfoldable pub chosen_branch : Option ℕ → Option ℕ → Option ℕ → Option ℕ
chosen_branch (some scope) requested fallback = some scope
chosen_branch none (some requested) fallback = some requested
chosen_branch none none fallback = fallback

unfoldable pub check_branch : List Branch → ℕ → Result ℕ
unfolding find_branch
check_branch branches id = elim (find_branch id branches) [
  | none ↦ err entity_not_found
  | some b ↦ if b.is_active then ok id else err validation_error
]

unfoldable pub resolve_branch_for_create : List Branch → Option ℕ → Option ℕ → Option ℕ → Result ℕ
unfolding chosen_branch check_branch
resolve_branch_for_create branches scope requested fallback =
    elim (chosen_branch scope requested fallback) [
      | none ↦ err validation_error
      | some id ↦ check_branch branches id
    ]

-- an object of another branch is hidden from a scoped user
unfoldable pub hidden : Option ℕ → ℕ → Bool
hidden none branch_id = false
hidden (some scope) branch_id = not (branch_id == scope)

-- `_apply_branch_scope`
unfoldable pub in_scope : Option ℕ → Option ℕ → ℕ → Bool
in_scope (some scope) branch branch_id = branch_id == scope
in_scope none none branch_id = true
in_scope none (some branch) branch_id = branch_id == branch
