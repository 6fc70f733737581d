-- ===== src/Optimizations/Pieces/Unique.antt =====
-- The pieces that `_build_pieces` makes: as many as the quantities add up to, under distinct ids.
use opticutter.Prelude.{
  ℕ, zero, suc, ◌+◌, ◌≤◌, ◌<◌, ◌≡◌, ◌≢◌, refl, sym, ap, subst, ◌∙◌, inl, inr, Bool, List, [], ◌∷◌,
  ◌++◌, map, length, length-map, length-append, sum_by, sum_by-append, All, AllPairs, ltb,
  Bool-cases, if◌then◌else◌, ok, pos, arith,
}
use opticutter.Prelude.Text.{Text, decimal, same_text, same_text_refl}
use opticutter.Prelude.Digits.{decimal_injective}
use opticutter.Cutting.Models.{Piece, make_piece}
use opticutter.Optimizations.Patterns.{base_label}
use opticutter.Optimizations.Patterns.Labels.{IsDigits, base_label-suffix}
use opticutter.Optimizations.Pieces.{
  Requirement, base_of, based, total_of, repeated, rounds, count_of, uid_of, Built, add_piece,
  build_round, build_pieces,
}

abbrev pub Row : Type 0
Row = Text × Requirement

abbrev labels : List Row → List Text
labels rows = map (λ r. r.0) rows

count_of-append :
    (label : Text) (xs ys : List Text)
    → count_of label (xs ++ ys) ≡ count_of label xs + count_of label ys
unfolding count_of
count_of-append label xs ys = sum_by-append (λ s. if same_text s label then 1 else 0) xs ys

count_of-repeated :
    (label : Text) (n : ℕ) (r : Row) (rest : List Row)
    → count_of label (labels (repeated n r ++ rest))
      ≡ (if same_text r.0 label then n else 0) + count_of label (labels rest)
unfolding count_of
count_of-repeated label zero r rest = ground arith
count_of-repeated label (suc n) r rest = ground (arith, count_of-repeated label n r rest)

-- `totals` counts the rounds of a label
count_of-rounds :
    (label : Text) (rows : List Row) → count_of label (labels (rounds rows)) ≡ total_of label rows
unfolding rounds total_of count_of
count_of-rounds label [] = refl
count_of-rounds label (r ∷ rs) =
    omega (arith, count_of-repeated label r.1.quantity r (rounds rs), count_of-rounds label rs)

length-repeated : (n : ℕ) (r : Row) → length (repeated n r) ≡ n
length-repeated zero r = refl
length-repeated (suc n) r = omega (arith, length-repeated n r)

length-rounds :
    (i : ℕ) (reqs : List Requirement)
    → length (rounds (based i reqs)) ≡ sum_by (λ p. p.quantity) reqs
unfolding rounds based
length-rounds i [] = refl
length-rounds i (p ∷ ps) = omega (
  arith,
  length-append (repeated p.quantity (base_of i p, p)) (rounds (based (suc i) ps)),
  length-repeated p.quantity (base_of i p, p),
  length-rounds (suc i) ps,
)

-- the sizes that the request's validation has checked
abbrev IsPositive : ℕ → ℕ → Type 0
IsPositive width height = (0 < width) × (0 < height)

abbrev pub IsSized : Requirement → Type 0
IsSized p = IsPositive p.width p.height

abbrev pub Differ : Piece → Piece → Type 0
Differ a b = a.id ≢ b.id

abbrev pub size_of : Piece → ℕ × ℕ
size_of p = (p.width, p.height)

abbrev pub row_size : Row → ℕ × ℕ
row_size r = (r.1.width, r.1.height)

make_sized :
    (id : Text) (width height : ℕ) (can_rotate : Bool) (priority : ℕ)
    → IsPositive width height
    → make_piece id (pos width) (pos height) (pos 1) can_rotate priority
      ≡ ok (record {
        id = id;
        width = width;
        height = height;
        quantity = 1;
        can_rotate = can_rotate;
        priority = priority;
      })
unfolding make_piece
make_sized id zero height can_rotate priority h = absurd (omega (arith, h))
make_sized id (suc width) zero can_rotate priority h = absurd (omega (arith, h))
make_sized id (suc width) (suc height) can_rotate priority h = refl

add_piece-pieces :
    (p : Requirement) (piece : Piece) (later : Built)
    → (add_piece p piece later).pieces ≡ piece ∷ later.pieces
unfolding add_piece
add_piece-pieces p piece later = ground arith

module _ (is_digit : ℕ → Bool) (known : IsDigits is_digit) (totals : Text → ℕ) where
  -- a label that does not end like an instance
  abbrev pub IsPlain : Text → Type 0
  IsPlain label = base_label is_digit label ≡ label

  base_label-uid_of :
      (label : Text) (n : ℕ)
      → IsPlain label
      → base_label is_digit (uid_of (totals label) label n) ≡ label
  unfolding uid_of
  base_label-uid_of label n h = elim (Bool-cases (ltb 1 (totals label))) [
    | inl e ↦ rw e (base_label-suffix is_digit known label n)
    | inr e ↦ rw e h
  ]

  append_injective :
      (label : Text) (m n : ℕ) → label ++ b'#' ∷ decimal m ≡ label ++ b'#' ∷ decimal n → m ≡ n
  append_injective [] m n h = decimal_injective m n (cc)
  append_injective (c ∷ cs) m n h = append_injective cs m n (cc)

  uid_of_injective :
      (label : Text) (m n : ℕ)
      → 1 < totals label
      → uid_of (totals label) label m ≡ uid_of (totals label) label n
      → m ≡ n
  unfolding uid_of
  uid_of_injective label m n many h = append_injective label m n (ground (arith, many, h))

  -- an id of the label, of a number that no earlier round has had
  abbrev IsIssued : List Text → Piece → Type 0
  IsIssued seen piece =
      (label : Text) × (n : ℕ) × (piece.id ≡ uid_of (totals label) label n)
      × IsPlain label
      × (count_of label seen < n)
      × (n ≤ totals label)

  IsIssued-earlier :
      (label : Text) (seen : List Text) (pieces : List Piece)
      → All (IsIssued (label ∷ seen)) pieces
      → All (IsIssued seen) pieces
  unfolding count_of
  IsIssued-earlier label seen [] h = tt
  IsIssued-earlier label seen (p ∷ ps) ((l, n, e, plain, above, below), later) =
      ((l, n, e, plain, omega (arith, above), below), IsIssued-earlier label seen ps later)

  -- a new id differs from those issued after it
  issued_apart :
      (label : Text) (seen : List Text) (id : Text)
      → IsPlain label
      → id ≡ uid_of (totals label) label (count_of label seen + 1)
      → (p : Piece) → IsIssued (label ∷ seen) p
      → id ≢ p.id
  unfolding count_of
  issued_apart label seen id plain e p (l, n, f, plain', above, below) same =
      let ids : uid_of (totals label) label (count_of label seen + 1) ≡ uid_of (totals l) l n =
        sym e ∙ same ∙ f in
      let l_same : label ≡ l =
        sym (base_label-uid_of label (count_of label seen + 1) plain)
        ∙ ap (base_label is_digit) ids
        ∙ base_label-uid_of l n plain' in
      let above' : count_of label (label ∷ seen) < n =
        subst (λ x. count_of x (label ∷ seen) < n) (sym l_same) above in
      let below' : n ≤ totals label = subst (λ x. n ≤ totals x) (sym l_same) below in
      let ids' : uid_of (totals label) label (count_of label seen + 1)
          ≡ uid_of (totals label) label n =
        subst (λ x. uid_of (totals label) label (count_of label seen + 1) ≡ uid_of (totals x) x n)
          (sym l_same) ids in
      let more : count_of label seen + 1 < n = ground (arith, above', same_text_refl label) in
      let equal : count_of label seen + 1 ≡ n =
        uid_of_injective label (count_of label seen + 1) n (omega (arith, more, below')) ids' in
      absurd (omega (arith, more, equal))

  issued_apart-All :
      (label : Text) (seen : List Text) (q : Piece)
      → IsPlain label
      → q.id ≡ uid_of (totals label) label (count_of label seen + 1)
      → (pieces : List Piece) → All (IsIssued (label ∷ seen)) pieces
      → All (Differ q) pieces
  issued_apart-All label seen q plain e [] h = tt
  issued_apart-All label seen q plain e (p ∷ ps) h =
      (issued_apart label seen q.id plain e p h.0, issued_apart-All label seen q plain e ps h.1)

  abbrev IsSound : Row → Type 0
  IsSound r = IsPlain r.0 × IsSized r.1

  record IsRun (seen : List Text) (rest : List Row) (built : Built) : Type 0 where
    runs : build_round totals seen rest ≡ ok built
    issued : All (IsIssued seen) built.pieces
    apart : AllPairs Differ built.pieces
    sizes : map size_of built.pieces ≡ map row_size rest

  build_round-IsRun :
      (seen : List Text) (rest : List Row)
      → All IsSound rest
      → ((label : Text) → count_of label seen + count_of label (labels rest) ≡ totals label)
      → (built : Built) × IsRun seen rest built
  unfolding build_round count_of
  build_round-IsRun seen [] sound counts = (
    record { pieces = []; edge_map = []; net_map = [] },
    record { runs = refl; issued = tt; apart = tt; sizes = refl },
  )
  build_round-IsRun seen ((label, p) ∷ rest) sound counts =
      let (later, run) =
        build_round-IsRun (label ∷ seen) rest sound.1 (λ l. omega (arith, counts l)) in
      let piece : Piece = record {
        id = uid_of (totals label) label (count_of label seen + 1);
        width = p.width;
        height = p.height;
        quantity = 1;
        can_rotate = p.can_rotate;
        priority = p.priority;
      } in
      let made : make_piece piece.id (pos p.width) (pos p.height) (pos 1) p.can_rotate p.priority
          ≡ ok piece =
        make_sized piece.id p.width p.height p.can_rotate p.priority sound.0.1 in
      let built = add_piece p piece later in
      let pieces : built.pieces ≡ piece ∷ later.pieces = add_piece-pieces p piece later in
      let nth : count_of label seen + 1 ≤ totals label =
        ground (arith, counts label, same_text_refl label) in
      (
        built,
        record {
          runs = rw (made, build_round, run.runs) refl;
          issued = subst (All (IsIssued seen)) (sym pieces) (
            (label, count_of label seen + 1, refl, sound.0.0, omega arith, nth),
            IsIssued-earlier label seen later.pieces run.issued,
          );
          apart =
              subst (AllPairs Differ) (sym pieces) (
                issued_apart-All label seen piece sound.0.0 refl later.pieces run.issued,
                run.apart,
              );
          sizes = ap (map size_of) pieces ∙ ap (λ x. (p.width, p.height) ∷ x) run.sizes;
        },
      )

  repeated-IsSound :
      (n : ℕ) (r : Row) (rest : List Row)
      → IsSound r
      → All IsSound rest
      → All IsSound (repeated n r ++ rest)
  repeated-IsSound zero r rest h k = k
  repeated-IsSound (suc n) r rest h k = (h, repeated-IsSound n r rest h k)

  rounds-IsSound : (rows : List Row) → All IsSound rows → All IsSound (rounds rows)
  unfolding rounds
  rounds-IsSound [] h = tt
  rounds-IsSound (r ∷ rs) h =
      repeated-IsSound r.1.quantity r (rounds rs) h.0 (rounds-IsSound rs h.1)

-- What `_build_pieces` makes of requirements.
pub record IsBuilt (reqs : List Requirement) (built : Built) : Type 0 where
  pub runs : build_pieces reqs ≡ ok built
  pub count : length built.pieces ≡ sum_by (λ p. p.quantity) reqs
  pub sizes : map size_of built.pieces ≡ map row_size (rounds (based 0 reqs))
  pub unique : AllPairs Differ built.pieces

-- Where sizes are positive and no base label ends like an instance (in `#` and digits), `_build_pieces`
-- succeeds with as many pieces as the quantities add up to, each of the size of its requirement, in the
-- order of the requirements, and no two of them have the same id.
pub build_pieces-IsBuilt :
    (is_digit : ℕ → Bool)
    → IsDigits is_digit
    → (reqs : List Requirement)
    → All (λ r. (base_label is_digit r.0 ≡ r.0) × IsSized r.1) (based 0 reqs)
    → (built : Built) × IsBuilt reqs built
unfolding build_pieces count_of
build_pieces-IsBuilt is_digit known reqs sound =
    let rows = based 0 reqs in
    let totals = λ (label : Text). total_of label rows in
    let (built, run) =
      build_round-IsRun is_digit known totals [] (rounds rows)
        (rounds-IsSound is_digit known totals rows sound)
        (λ label. omega (arith, count_of-rounds label rows)) in
    (
      built,
      record {
        runs = run.runs;
        count =
            sym (length-map size_of built.pieces)
            ∙ ap length run.sizes
            ∙ length-map row_size (rounds rows)
            ∙ length-rounds 0 reqs;
        sizes = run.sizes;
        unique = run.apart;
      },
    )
