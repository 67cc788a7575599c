-- ===== src/LayerShell/Geometry.antt =====
-- src/layer_shell.c: apply_exclusive and arrange_layer. Coordinates are `int`s without overflow; the
-- anchor, a set of four edges, is four flags. What is sent to clients is a list of actions.
use phoc.Prelude.{ℕ, Bool, true, false, not, ◌&&◌, ◌||◌, List, [], ◌∷◌, ◌++◌, if◌then◌else◌}
use phoc.Prelude.Int.{ℤ, pos, negsuc, ◌+ℤ◌, ◌-ℤ◌, half, ltb_ℤ, eqb_ℤ, of_u32}

-- wlr_box
pub record Box : Type 0 where
  pub x : ℤ
  pub y : ℤ
  pub width : ℤ
  pub height : ℤ

pub record Anchor : Type 0 where
  pub top : Bool
  pub bottom : Bool
  pub left : Bool
  pub right : Bool

pub record Margin : Type 0 where
  pub top : ℤ
  pub right : ℤ
  pub bottom : ℤ
  pub left : ℤ

pub data Layer : Type 0 where
  background bottom top overlay : Layer

-- A roots_layer_surface with what the code reads of its wlr_layer_surface_v1 (`state` is `current`).
pub record LayerSurface : Type 0 where
  pub id : ℕ
  pub is_osk : Bool  -- its namespace is "osk"
  pub mapped : Bool
  pub pending_layer : Layer  -- client_pending.layer
  pub anchor : Anchor
  pub exclusive_zone : ℤ
  pub margin : Margin
  pub desired_width : ℕ  -- uint32_t
  pub desired_height : ℕ  -- uint32_t
  pub keyboard_interactive : Bool
  pub geo : Box

pub data Action : Type 0 where
  close : ℕ → Action
  configure : ℕ → ℤ → ℤ → Action
  update_cursors : ℕ → Action

abbrev pub positive : ℤ → Bool
positive a = ltb_ℤ (pos 0) a

-- The four entries of `edges`, in order; each tests the exclusive zone with its own margin.
abbrev pub edge_top : Anchor → ℤ → Margin → Box → Box
edge_top a z m u =
    if (a.left && a.right && a.top) && positive (z +ℤ m.top)
    then record u { y = u.y +ℤ (z +ℤ m.top); height = u.height -ℤ (z +ℤ m.top) }
    else u

abbrev pub edge_bottom : Anchor → ℤ → Margin → Box → Box
edge_bottom a z m u =
    if (a.left && a.right && a.bottom) && positive (z +ℤ m.bottom)
    then record u { height = u.height -ℤ (z +ℤ m.bottom) }
    else u

abbrev pub edge_left : Anchor → ℤ → Margin → Box → Box
edge_left a z m u =
    if (a.left && a.top && a.bottom) && positive (z +ℤ m.left)
    then record u { x = u.x +ℤ (z +ℤ m.left); width = u.width -ℤ (z +ℤ m.left) }
    else u

abbrev pub edge_right : Anchor → ℤ → Margin → Box → Box
edge_right a z m u =
    if (a.right && a.top && a.bottom) && positive (z +ℤ m.right)
    then record u { width = u.width -ℤ (z +ℤ m.right) }
    else u

unfoldable pub apply_exclusive : Box → Anchor → ℤ → Margin → Box
apply_exclusive usable a z m =
    if positive z
    then edge_right a z m (edge_left a z m (edge_bottom a z m (edge_top a z m usable)))
    else usable

-- One axis of the box: `low` and `high` are the anchors, `size` the desired size. The code has this
-- once for the horizontal and once for the vertical axis.
pub record Span : Type 0 where
  pub at : ℤ
  pub size : ℤ

unfoldable pub place_axis : Bool → Bool → ℤ → Span → Span
place_axis low high size bounds =
    if (low || high) && eqb_ℤ size (pos 0)
    then bounds
    else if low
    then record { at = bounds.at; size = size }
    else if high
    then record { at = bounds.at +ℤ (bounds.size -ℤ size); size = size }
    else record { at = bounds.at +ℤ (half bounds.size -ℤ half size); size = size }

unfoldable pub margin_axis : Bool → Bool → ℤ → ℤ → Span → Span
margin_axis low high margin_low margin_high s =
    if low && high
    then record { at = s.at +ℤ margin_low; size = s.size -ℤ (margin_low +ℤ margin_high) }
    else if low
    then record s { at = s.at +ℤ margin_low }
    else if high
    then record s { at = s.at -ℤ margin_high }
    else s

abbrev pub horizontal : LayerSurface → Box → Span
horizontal s b = margin_axis s.anchor.left s.anchor.right s.margin.left s.margin.right (
    place_axis s.anchor.left s.anchor.right (of_u32 s.desired_width)
      (record { at = b.x; size = b.width }))

abbrev pub vertical : LayerSurface → Box → Span
vertical s b = margin_axis s.anchor.top s.anchor.bottom s.margin.top s.margin.bottom (
    place_axis s.anchor.top s.anchor.bottom (of_u32 s.desired_height)
      (record { at = b.y; size = b.height }))

-- The box within the bounds.
unfoldable pub place : LayerSurface → Box → Box
place s b = record {
  x = (horizontal s b).at;
  y = (vertical s b).at;
  width = (horizontal s b).size;
  height = (vertical s b).size;
}

abbrev pub bounds_of : LayerSurface → Box → Box → Box
bounds_of s full usable = if eqb_ℤ s.exclusive_zone (negsuc 0) then full else usable

abbrev pub same_place : Box → Box → Bool
same_place a b = eqb_ℤ a.x b.x && eqb_ℤ a.y b.y

pub record Arranged : Type 0 where
  pub surface : LayerSurface
  pub usable : Box
  pub actions : List Action

abbrev pub negative : ℤ → Bool
negative a = ltb_ℤ a (pos 0)

-- The part of the loop behind the box: `Apply`.
unfoldable pub apply_box : LayerSurface → Box → Box → Arranged
apply_box s usable box =
    if negative box.width || negative box.height
    then record {
      surface = record s { mapped = false };
      usable = usable;
      actions = close s.id ∷ [];
    }
    else record {
      surface = record s { geo = box };
      usable =
          if s.mapped then apply_exclusive usable s.anchor s.exclusive_zone s.margin else usable;
      actions =
          configure s.id box.width box.height
          ∷ (if same_place box s.geo then [] else update_cursors s.id ∷ []);
    }

-- Whether the pass over exclusive surfaces, or the other one, is for the surface.
abbrev pub in_pass : Bool → LayerSurface → Bool
in_pass true s = positive s.exclusive_zone
in_pass false s = not (positive s.exclusive_zone)

unfoldable pub arrange_one : Box → Bool → LayerSurface → Box → Arranged
unfolding apply_box
arrange_one full exclusive s usable =
    if in_pass exclusive s
    then apply_box s usable (place s (bounds_of s full usable))
    else record { surface = s; usable = usable; actions = [] }

pub record Pass : Type 0 where
  pub surfaces : List LayerSurface
  pub usable : Box
  pub actions : List Action

abbrev pub add_to : Pass → Arranged → Pass
add_to p a = record {
  surfaces = a.surface ∷ p.surfaces;
  usable = a.usable;
  actions = p.actions ++ a.actions;
}

-- wl_list_for_each_reverse: the end of the list is arranged first.
unfoldable pub arrange_layer : Box → Bool → List LayerSurface → Box → Pass
unfolding arrange_one
arrange_layer full exclusive [] usable = record { surfaces = []; usable = usable; actions = [] }
arrange_layer full exclusive (s ∷ ss) usable =
    let rest = arrange_layer full exclusive ss usable in
    add_to rest (arrange_one full exclusive s rest.usable)
