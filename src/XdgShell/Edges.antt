-- ===== src/XdgShell/Edges.antt =====
-- Sizes and edges of src/xdg_shell.c: what a client's limits and its late commit make of a resize.
use phoc.Prelude.{ℕ, ◌≤◌, ◌<◌, ◌≡◌, ◌≢◌, ◌⊎◌, inl, inr, true, false, not, arith}
use phoc.Prelude.Int.{int_laws, ℤ, pos, ◌+ℤ◌, ◌-ℤ◌, eqb_ℤ-cases}
use phoc.View.State.{Numbers}
use phoc.View.Exact.{IsExact}
use phoc.XdgShell.{XdgToplevel, apply_size_constraints, constrained_at, committed_at}

-- Below the least size, or above a largest one that is a limit.
abbrev pub Outside : ℕ → ℕ → ℕ → Type 0
Outside a min max = (a < min) ⊎ ((max ≢ 0) × (max < a))

-- A largest size of 0 is no limit; with that, or with a largest size not below the least one, along both
-- axes: what the client is sent for a size is not below its least size, and not above its largest unless that
-- is no limit; a width or height within the limits is sent as it is; and what has been constrained once is
-- not changed again.
pub apply_size_constraints_lem :
    (t : XdgToplevel) (w h : ℕ)
    → (t.max_width ≡ 0) ⊎ (t.min_width ≤ t.max_width)
    → (t.max_height ≡ 0) ⊎ (t.min_height ≤ t.max_height)
    → (t.min_width ≤ (apply_size_constraints t w h).0)
      × (t.min_height ≤ (apply_size_constraints t w h).1)
      × ((t.max_width ≡ 0) ⊎ ((apply_size_constraints t w h).0 ≤ t.max_width))
      × ((t.max_height ≡ 0) ⊎ ((apply_size_constraints t w h).1 ≤ t.max_height))
      × (Outside w t.min_width t.max_width ⊎ ((apply_size_constraints t w h).0 ≡ w))
      × (Outside h t.min_height t.max_height ⊎ ((apply_size_constraints t w h).1 ≡ h))
      × (apply_size_constraints t (apply_size_constraints t w h).0 (apply_size_constraints t w h).1
          ≡ apply_size_constraints t w h)
unfolding apply_size_constraints
apply_size_constraints_lem t w h p q = ground arith

regained :
    (x : ℤ) (asked given : ℕ) (size : ℤ)
    → (((x +ℤ pos asked) -ℤ pos given) +ℤ pos given) -ℤ size +ℤ size ≡ x +ℤ pos asked
regained x asked given size = grind int_laws

-- Along one axis: where the box begins afterwards, for a place and a size that were asked for.
abbrev pub KeepsEdge : ℤ → ℤ → ℕ → ℤ → ℤ → Type 0
KeepsEdge before x asked now size =
    ((x ≡ before) × (now ≡ before)) ⊎ ((x ≢ before) × (now +ℤ size ≡ x +ℤ pos asked))

module _ {D : Type 0} where
  module _ (F : Numbers D) (exact : IsExact F) where
    -- The far edge, whatever the constraint and the size that the client takes.
    kept_edge :
        (x : ℤ) (asked given : ℕ) (size now : ℤ)
        → F.to_int
              (committed_at F true (constrained_at F true (F.of_int x) asked given) given size now)
            +ℤ size
          ≡ x +ℤ pos asked
    kept_edge x asked given size now =
        rw (exact.add, exact.sub, exact.add, exact.sub, exact.to_int) (regained x asked given size)

    kept_place :
        (p : D) (asked : ℕ) (size now : ℤ) → F.to_int (committed_at F false p asked size now) ≡ now
    kept_place p asked size now = exact.to_int now

    pub axis_kept :
        (before x : ℤ) (asked given : ℕ) (size : ℤ)
        → KeepsEdge before x asked
            (F.to_int (
              committed_at F
                (not (F.same (F.of_int x) (F.of_int before)))
                (constrained_at F
                  (not (F.same (F.of_int x) (F.of_int before)))
                  (F.of_int x)
                  asked
                  given)
                given
                size
                before))
            size
    axis_kept before x asked given size = elim (eqb_ℤ-cases x before) [
      | inl (h, e) ↦
          rw (exact.same x before, h) (inl (e, kept_place (F.of_int x) given size before))
      | inr (h, e) ↦ rw (exact.same x before, h) (inr (e, kept_edge x asked given size before))
    ]
