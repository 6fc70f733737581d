-- ===== src/Optimizations/Patterns.antt =====
-- src/modules/optimizations/patterns.py. Which characters are decimal digits (`\d`) is the argument
-- `is_digit`; a layout is the CuttingLayout whose `to_dict` the source reads.
pub mod Labels
pub mod Groups
use opticutter.Prelude.{
  ℕ, suc, ◌+◌, Bool, true, false, ◌&&◌, ◌||◌, Option, none, some, List, [], ◌∷◌, ◌++◌, map, length,
  ltb, ◌==◌, if◌then◌else◌,
}
use opticutter.Prelude.Text.{Text, same_text}
use opticutter.Prelude.Stable.{sort_by}
use opticutter.Cutting.Models.{PlacedPiece, CuttingLayout}

-- str.__lt__
unfoldable pub text_lt : Text → Text → Bool
text_lt [] [] = false
text_lt [] (d ∷ ds) = true
text_lt (c ∷ cs) [] = false
text_lt (c ∷ cs) (d ∷ ds) = ltb c d || (c == d && text_lt cs ds)

abbrev is_empty : Text → Bool
is_empty [] = true
is_empty (c ∷ cs) = false

-- what comes after a match of `\d+$`: the end, or a newline that ends the text
unfoldable pub number_end : (ℕ → Bool) → Bool → Text → Option Text
number_end is_digit seen [] = if seen then some [] else none
number_end is_digit seen (c ∷ cs) =
    let rest = number_end is_digit true cs in
    if is_digit c then rest else if seen && (c == 10 && is_empty cs) then some (c ∷ cs) else none

unfoldable pub base_label : (ℕ → Bool) → Text → Text
unfolding number_end
base_label is_digit [] = []
base_label is_digit (c ∷ cs) =
    let kept = c ∷ base_label is_digit cs in
    if c == b'#'
    then elim (number_end is_digit false cs) [ none ↦ kept | some tail ↦ tail ]
    else kept

-- A piece in a signature.
pub record Entry : Type 0 where
  pub label : Text
  pub x : ℕ
  pub y : ℕ
  pub width : ℕ
  pub height : ℕ
  pub rotated : Bool

-- the key of the sort, compared as a tuple
unfoldable pub entry_before : Entry → Entry → Bool
unfolding text_lt
entry_before a b =
    ltb a.x b.x
    || (a.x == b.x
        && (ltb a.y b.y
            || (a.y == b.y
                && (ltb a.width b.width
                    || (a.width == b.width
                        && (ltb a.height b.height
                            || (a.height == b.height && text_lt a.label b.label)))))))

abbrev same_flag : Bool → Bool → Bool
same_flag true b = b
same_flag false true = false
same_flag false false = true

abbrev same_entry : Entry → Entry → Bool
same_entry a b =
    same_text a.label b.label
    && (a.x == b.x
        && (a.y == b.y
            && (a.width == b.width && (a.height == b.height && same_flag a.rotated b.rotated))))

abbrev same_entries : List Entry → List Entry → Bool
same_entries [] [] = true
same_entries [] (f ∷ fs) = false
same_entries (e ∷ es) [] = false
same_entries (e ∷ es) (f ∷ fs) = same_entry e f && same_entries es fs

pub record Signature : Type 0 where
  pub material_key : Text
  pub pieces : List Entry

-- equality of the tuples
unfoldable pub same_signature : Signature → Signature → Bool
same_signature s t = same_text s.material_key t.material_key && same_entries s.pieces t.pieces

pub record LayoutGroup : Type 0 where
  pub pattern_id : ℕ
  pub count : ℕ
  pub sheet_numbers : List ℕ
  pub material_key : Text
  pub layout : CuttingLayout

module _ (is_digit : ℕ → Bool) where
  unfoldable pub entry_of : PlacedPiece → Entry
  unfolding base_label
  entry_of p = record {
    label = base_label is_digit p.piece.id;
    x = p.x;
    y = p.y;
    width = p.width;
    height = p.height;
    rotated = p.rotated;
  }

  unfoldable pub layout_signature : CuttingLayout → Signature
  unfolding entry_of entry_before
  layout_signature layout = record {
    material_key = layout.material.id;
    pieces = sort_by entry_before (map entry_of layout.placed_pieces);
  }

  -- `groups`, each with the signature that `index_by_signature` has for it
  abbrev pub Groups : Type 0
  Groups = List (Signature × LayoutGroup)

  -- the body of the loop; `n` groups come before those given
  unfoldable pub add_layout : CuttingLayout → ℕ → Groups → Groups
  add_layout layout n [] =
      (
        layout_signature layout,
        record {
          pattern_id = n + 1;
          count = 1;
          sheet_numbers = layout.sheet_number ∷ [];
          material_key = layout.material.id;
          layout = layout;
        },
      )
      ∷ []
  add_layout layout n ((s, g) ∷ gs) =
      let rest = (s, g) ∷ add_layout layout (suc n) gs in
      if same_signature s (layout_signature layout)
      then (
        s,
        record g {
          count = g.count + 1;
          sheet_numbers = g.sheet_numbers ++ layout.sheet_number ∷ [];
        },
      )
        ∷ gs
      else rest

  unfoldable pub add_layouts : List CuttingLayout → Groups → Groups
  unfolding add_layout
  add_layouts [] groups = groups
  add_layouts (layout ∷ layouts) groups = add_layouts layouts (add_layout layout 0 groups)

  unfoldable pub group_layouts : List CuttingLayout → List LayoutGroup
  unfolding add_layouts
  group_layouts layouts = map (λ e. e.1) (add_layouts layouts [])
