-- ===== src/Notifications/Unread.antt =====
-- What marking notifications as read does to the badge.
use opticutter.Prelude.{
  filter-append, length-append, length, ◌∙◌, ◌+◌, ◌++◌, ℕ, suc, ◌≡◌, refl, ap, ◌⊎◌, inl, inr, true,
  false, some, List, [], ◌∷◌, ◌==◌, Bool-cases, arith,
}
use opticutter.Notifications.{Notification, is_unread_of, unread_count, mark_all_read}

pub unread_count-append :
    (id : ℕ) (rows added : List Notification)
    → unread_count id (rows ++ added) ≡ unread_count id rows + unread_count id added
unfolding unread_count
unread_count-append id rows added =
    ap length (filter-append (is_unread_of id) rows added) ∙ length-append _ _

-- What `mark_all_read` does to one row.
abbrev pub IsMarked : ℕ → ℕ → Notification → Notification → Type 0
IsMarked user_id now n n' =
    ((is_unread_of user_id n ≡ true) × (n' ≡ record n { read_at = some now }))
    ⊎ ((is_unread_of user_id n ≡ false) × (n' ≡ n))

-- row by row
abbrev pub Each :
    (Notification → Notification → Type 0) → List Notification → List Notification → Type 0
Each R [] [] = Unit
Each R (n ∷ ns) (m ∷ ms) = R n m × Each R ns ms
Each R _ _ = ⊥

-- The rows and the answer of `mark_all_read`, as they concern the user and another one.
pub record IsAllRead (user_id other now : ℕ) (rows : List Notification)
    (result : List Notification × ℕ) : Type 0 where
  pub returned : result.1 ≡ unread_count user_id rows
  pub none_left : unread_count user_id result.0 ≡ 0
  pub others : unread_count other result.0 ≡ unread_count other rows
  pub marked : Each (IsMarked user_id now) rows result.0

mark_all_read-returned :
    (user_id now : ℕ) (rows : List Notification)
    → (mark_all_read user_id now rows).1 ≡ unread_count user_id rows
unfolding mark_all_read unread_count
mark_all_read-returned user_id now [] = refl
mark_all_read-returned user_id now (n ∷ rows) =
    let rest = mark_all_read-returned user_id now rows in
    elim (Bool-cases (is_unread_of user_id n)) [
      | inl e ↦ rw (e, mark_all_read) (ap suc rest)
      | inr e ↦ rw (e, mark_all_read) rest
    ]

-- a row that is read counts for nobody
read-is_unread_of :
    (id now : ℕ) (n : Notification) → is_unread_of id (record n { read_at = some now }) ≡ false
read-is_unread_of id now n = ground arith

mark_all_read-none_left :
    (user_id now : ℕ) (rows : List Notification)
    → unread_count user_id (mark_all_read user_id now rows).0 ≡ 0
unfolding mark_all_read unread_count
mark_all_read-none_left user_id now [] = refl
mark_all_read-none_left user_id now (n ∷ rows) =
    let rest = mark_all_read-none_left user_id now rows in
    elim (Bool-cases (is_unread_of user_id n)) [
      | inl e ↦ rw (e, mark_all_read) (rw (read-is_unread_of user_id now n) rest)
      | inr e ↦ rw (e, mark_all_read) (rw e rest)
    ]

not_of_other :
    (user_id other : ℕ) (n : Notification)
    → (other == user_id) ≡ false
    → is_unread_of user_id n ≡ true
    → is_unread_of other n ≡ false
not_of_other user_id other n h e = ground (arith, h, e)

mark_all_read-others :
    (user_id other now : ℕ) (rows : List Notification)
    → (other == user_id) ≡ false
    → unread_count other (mark_all_read user_id now rows).0 ≡ unread_count other rows
unfolding mark_all_read unread_count
mark_all_read-others user_id other now [] h = refl
mark_all_read-others user_id other now (n ∷ rows) h =
    let rest = mark_all_read-others user_id other now rows h in
    elim (Bool-cases (is_unread_of user_id n)) [
      | inl e ↦
          rw (e, mark_all_read)
            (rw (read-is_unread_of other now n) (rw (not_of_other user_id other n h e) rest))
      | inr e ↦
          rw (e, mark_all_read)
            (elim (Bool-cases (is_unread_of other n)) [
              | inl f ↦ rw f (ap suc rest)
              | inr f ↦ rw f rest
            ])
    ]

mark_all_read-marked :
    (user_id now : ℕ) (rows : List Notification)
    → Each (IsMarked user_id now) rows (mark_all_read user_id now rows).0
unfolding mark_all_read
mark_all_read-marked user_id now [] = tt
mark_all_read-marked user_id now (n ∷ rows) =
    let rest = mark_all_read-marked user_id now rows in
    elim (Bool-cases (is_unread_of user_id n)) [
      | inl e ↦ rw (e, mark_all_read) (inl (e, refl), rest)
      | inr e ↦ rw (e, mark_all_read) (inr (e, refl), rest)
    ]

-- For a user and another one: `mark_all_read` returns how many notifications of the user were unread,
-- none of which is left; it stamps those with the time given and leaves each other row, and the
-- count of the other user, as it was.
pub mark_all_read-IsAllRead :
    (user_id other now : ℕ) (rows : List Notification)
    → (other == user_id) ≡ false
    → IsAllRead user_id other now rows (mark_all_read user_id now rows)
mark_all_read-IsAllRead user_id other now rows h = record {
  returned = mark_all_read-returned user_id now rows;
  none_left = mark_all_read-none_left user_id now rows;
  others = mark_all_read-others user_id other now rows h;
  marked = mark_all_read-marked user_id now rows;
}
