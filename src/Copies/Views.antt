-- ===== src/Copies/Views.antt =====
-- What is read at an address, as a tree, and the range of addresses that the reading touches.
use pluma_opeartor.Base.{
  ℕ, zero, suc, ◌≤◌, ◌<◌, String, ◌≡◌, refl, ◌∙◌, Option, none, some, List, [], ◌∷◌, arith,
}
use pluma_opeartor.Copies.{Addr, AppFields, message, app, Heap}

mutual
  pub data Tree : Type 0 where
    node : ℕ → Trees → Tree

  pub data Trees : Type 0 where
    nil : Trees
    cons : Tree → Trees → Trees

abbrev mutual
  -- At `a` stands the tree, and all its addresses are from `lo` on and below `hi`.
  pub Views : ℕ → ℕ → Heap → Addr → Tree → Type 0
  Views lo hi h a (node content ts) =
      (lo ≤ a)
      × (a < hi)
      × ((parts : List Addr) × (h.cell a ≡ some (message content parts))
          × AllViews lo hi h parts ts)

  pub AllViews : ℕ → ℕ → Heap → List Addr → Trees → Type 0
  AllViews lo hi h [] nil = Unit
  AllViews lo hi h (a ∷ parts) (cons t ts) = Views lo hi h a t × AllViews lo hi h parts ts
  AllViews lo hi h _ _ = ⊥

-- A nil pointer shows no tree.
abbrev pub ViewsOption : ℕ → ℕ → Heap → Option Addr → Option Tree → Type 0
ViewsOption lo hi h none none = Unit
ViewsOption lo hi h (some a) (some t) = Views lo hi h a t
ViewsOption lo hi h _ _ = ⊥

-- What a HelmApp holds.
pub record AppTree : Type 0 where
  pub type_meta : String
  pub meta : Tree
  pub spec : Option Tree
  pub status : Option Tree

abbrev pub FieldsView : ℕ → ℕ → Heap → AppFields → AppTree → Type 0
FieldsView lo hi h fields t =
    (fields.type_meta ≡ t.type_meta)
    × Views lo hi h fields.meta t.meta
    × ViewsOption lo hi h fields.spec t.spec
    × ViewsOption lo hi h fields.status t.status

-- At `a` stands a HelmApp, all of whose addresses are from `lo` on and below `hi`.
abbrev pub AppView : ℕ → ℕ → Heap → Addr → AppTree → Type 0
AppView lo hi h a t =
    (lo ≤ a)
    × (a < hi)
    × ((fields : AppFields) × (h.cell a ≡ some (app fields)) × FieldsView lo hi h fields t)

abbrev mutual
  -- The tree has at most so many levels.
  pub Within : ℕ → Tree → Type 0
  Within zero t = ⊥
  Within (suc n) (node content ts) = AllWithin n ts

  pub AllWithin : ℕ → Trees → Type 0
  AllWithin n nil = Unit
  AllWithin n (cons t ts) = Within n t × AllWithin n ts

abbrev pub WithinOption : ℕ → Option Tree → Type 0
WithinOption n none = Unit
WithinOption n (some t) = Within n t

abbrev pub AppWithin : ℕ → AppTree → Type 0
AppWithin n t = Within n t.meta × WithinOption n t.spec × WithinOption n t.status

abbrev pub AppWithinOption : ℕ → Option AppTree → Type 0
AppWithinOption n none = Unit
AppWithinOption n (some t) = AppWithin n t

-- The heaps have the same cells in the range.
pub record Agree (lo hi : ℕ) (h h' : Heap) : Type 0 where
  pub same : (x : Addr) → lo ≤ x → x < hi → h'.cell x ≡ h.cell x

-- From `h` to `h'`, cells were added and those that were there stayed.
pub record Extends (h h' : Heap) : Type 0 where
  pub grows : h.next ≤ h'.next
  pub same : (x : Addr) → x < h.next → h'.cell x ≡ h.cell x

pub Extends-refl : (h : Heap) → Extends h h
Extends-refl h = record { grows = omega arith; same = λ x l. refl }

pub Extends-trans : {h h' h'' : Heap} → Extends h h' → Extends h' h'' → Extends h h''
Extends-trans s t = record {
  grows = omega (arith, s.grows, t.grows);
  same = λ x l. t.same x (omega (arith, l, s.grows)) ∙ s.same x l;
}

-- A view depends on the cells of its range only, and a wider range does as well.
module _ (lo hi lo' hi' : ℕ) (h h' : Heap) (down : lo' ≤ lo) (up : hi ≤ hi')
    (agree : Agree lo hi h h') where
  mutual
    pub Views-move : (a : Addr) (t : Tree) → Views lo hi h a t → Views lo' hi' h' a t
    Views-move a (node content ts) (l, u, (parts, e, v)) =
        (omega arith, omega arith, (parts, agree.same a l u ∙ e, AllViews-move parts ts v))

    pub AllViews-move :
        (parts : List Addr) (ts : Trees) → AllViews lo hi h parts ts → AllViews lo' hi' h' parts ts
    AllViews-move [] nil v = tt
    AllViews-move (a ∷ parts) (cons t ts) (v, vs) = (Views-move a t v, AllViews-move parts ts vs)
    AllViews-move [] (cons t ts) v = absurd v
    AllViews-move (a ∷ parts) nil v = absurd v

  pub ViewsOption-move :
      (a : Option Addr) (t : Option Tree) → ViewsOption lo hi h a t → ViewsOption lo' hi' h' a t
  ViewsOption-move none none v = tt
  ViewsOption-move (some a) (some t) v = Views-move a t v
  ViewsOption-move none (some t) v = absurd v
  ViewsOption-move (some a) none v = absurd v

  pub FieldsView-move :
      (fields : AppFields) (t : AppTree)
      → FieldsView lo hi h fields t
      → FieldsView lo' hi' h' fields t
  FieldsView-move fields t (e, m, s, u) = (
    e,
    Views-move fields.meta t.meta m,
    ViewsOption-move fields.spec t.spec s,
    ViewsOption-move fields.status t.status u,
  )

  pub AppView-move : (a : Addr) (t : AppTree) → AppView lo hi h a t → AppView lo' hi' h' a t
  AppView-move a t (l, u, (fields, e, v)) =
      (omega arith, omega arith, (fields, agree.same a l u ∙ e, FieldsView-move fields t v))
