-- ===== src/Copies/App.antt =====
-- The copy of a HelmApp.
use pluma_opeartor.Base.{ℕ, suc, ◌≤◌, refl, ◌∙◌, Option, none, some, eqb_refl, arith}
use pluma_opeartor.Copies.{
  Addr, AppFields, app, Heap, write, alloc, Cloning, app_deep_copy_into, app_copy_new,
  app_deep_copy,
}
use pluma_opeartor.Copies.Views.{
  Tree, AppTree, AppWithin, AppWithinOption, Views, ViewsOption, FieldsView, AppView, Agree,
  Extends, Extends-refl, Extends-trans, Views-move, ViewsOption-move, FieldsView-move, AppView-move,
}
use pluma_opeartor.Copies.Message.{
  CloningLaws, Extends-alloc, Extends-write, Agree-write, Agree-Extends,
  message_deep_copy-IsCopyOption,
}

pub record IsFieldsCopy (h : Heap) (fields : AppFields) (h' : Heap) (t : AppTree) : Type 0 where
  pub extends : Extends h h'
  pub view : FieldsView h.next h'.next h' fields t

-- The address `b` of `h'` holds the HelmApp in cells that were not there in `h`, whose cells stay.
pub record IsAppCopy (h : Heap) (b : Addr) (h' : Heap) (t : AppTree) : Type 0 where
  pub extends : Extends h h'
  pub view : AppView h.next h'.next h' b t

-- A pointer that may be nil shows a HelmApp or nothing.
abbrev pub AppViewOption : ℕ → ℕ → Heap → Option Addr → Option AppTree → Type 0
AppViewOption lo hi h none none = Unit
AppViewOption lo hi h (some a) (some t) = AppView lo hi h a t
AppViewOption lo hi h _ _ = ⊥

pub record IsAppCopyOption (h : Heap) (b : Option Addr) (h' : Heap) (t : Option AppTree)
    : Type 0 where
  pub extends : Extends h h'
  pub view : AppViewOption h.next h'.next h' b t

-- Views in a heap that has the same cells.
AppViewOption-Agree :
    (lo hi : ℕ) (h later : Heap)
    → Agree lo hi h later
    → (a : Option Addr) (t : Option AppTree) → AppViewOption lo hi h a t
    → AppViewOption lo hi later a t
AppViewOption-Agree lo hi h later agree none none v = tt
AppViewOption-Agree lo hi h later agree (some a) (some t) v =
    AppView-move lo hi lo hi h later (omega arith) (omega arith) agree a t v
AppViewOption-Agree lo hi h later agree none (some t) v = absurd v
AppViewOption-Agree lo hi h later agree (some a) none v = absurd v

Agree-trans :
    {lo hi : ℕ} {h h' h'' : Heap} → Agree lo hi h h' → Agree lo hi h' h'' → Agree lo hi h h''
Agree-trans s t = record { same = λ x l u. t.same x l u ∙ s.same x l u }

-- A view of what was there stays when cells are added, and its range may be widened.
module _ (lo lo' : ℕ) {h h' : Heap} (down : lo' ≤ lo) (s : Extends h h') where
  pub Views-onward : (a : Addr) (t : Tree) → Views lo h.next h a t → Views lo' h'.next h' a t
  Views-onward = Views-move lo h.next lo' h'.next h h' down s.grows (Agree-Extends lo s)

  ViewsOption-onward :
      (a : Option Addr) (t : Option Tree)
      → ViewsOption lo h.next h a t
      → ViewsOption lo' h'.next h' a t
  ViewsOption-onward = ViewsOption-move lo h.next lo' h'.next h h' down s.grows (Agree-Extends lo s)

  FieldsView-onward :
      (fields : AppFields) (t : AppTree)
      → FieldsView lo h.next h fields t
      → FieldsView lo' h'.next h' fields t
  FieldsView-onward = FieldsView-move lo h.next lo' h'.next h h' down s.grows (Agree-Extends lo s)

  pub AppView-onward :
      (a : Addr) (t : AppTree) → AppView lo h.next h a t → AppView lo' h'.next h' a t
  AppView-onward = AppView-move lo h.next lo' h'.next h h' down s.grows (Agree-Extends lo s)

module _ (k : Cloning) (L : CloningLaws k) where
  app_deep_copy_into-IsFieldsCopy :
      (fields : AppFields) (h : Heap) (t : AppTree)
      → AppWithin k.limit t
      → FieldsView 0 h.next h fields t
      → IsFieldsCopy h (app_deep_copy_into k fields h).0 (app_deep_copy_into k fields h).1 t
  unfolding app_deep_copy_into
  app_deep_copy_into-IsFieldsCopy fields h t (dm, ds, du) (e, vm, vs, vu) =
      let m = L.copy_meta-IsCopy fields.meta h t.meta dm vm in
      let s =
        message_deep_copy-IsCopyOption k L fields.spec _ t.spec ds
          (ViewsOption-onward 0 0 (omega arith) m.extends _ _ vs) in
      let to_spec = Extends-trans m.extends s.extends in
      let u =
        message_deep_copy-IsCopyOption k L fields.status _ t.status du
          (ViewsOption-onward 0 0 (omega arith) to_spec _ _ vu) in
      record {
        extends = Extends-trans to_spec u.extends;
        view = (
          e,
          Views-onward _ h.next (omega arith) (Extends-trans s.extends u.extends) _ _ m.view,
          ViewsOption-onward _ h.next (omega (arith, m.extends.grows)) u.extends _ _ s.view,
          ViewsOption-onward _ h.next (omega (arith, to_spec.grows)) (Extends-refl _) _ _ u.view,
        );
      }

  app_into_new :
      (h h1 : Heap) (fields : AppFields) (t : AppTree)
      → IsFieldsCopy (alloc h).1 fields h1 t
      → IsAppCopy h h.next (write h.next (some (app fields)) h1) t
  app_into_new h h1 fields t c = record {
    extends = Extends-write h h1 h.next _ (omega arith) (Extends-trans (Extends-alloc h) c.extends);
    view = (
      omega arith,
      omega (arith, c.extends.grows),
      (
        fields,
        rw (eqb_refl h.next) refl,
        FieldsView-move (suc h.next) h1.next h.next h1.next h1 _ (omega arith) (omega arith)
            (Agree-write (suc h.next) h1.next h1 h.next _ (omega arith)) fields t c.view,
      ),
    );
  }

  pub app_copy_new-IsAppCopy :
      (fields : AppFields) (h : Heap) (t : AppTree)
      → AppWithin k.limit t
      → FieldsView 0 h.next h fields t
      → IsAppCopy h (app_copy_new k fields h).0 (app_copy_new k fields h).1 t
  unfolding app_copy_new
  app_copy_new-IsAppCopy fields h t d v = app_into_new h _ _ t (
      app_deep_copy_into-IsFieldsCopy fields (alloc h).1 t d
        (FieldsView-onward 0 0 (omega arith) (Extends-alloc h) fields t v))

  -- What `app_deep_copy` gives: nil for nil, and otherwise a copy.
  pub app_deep_copy-IsAppCopyOption :
      (a : Option Addr) (h : Heap) (t : Option AppTree)
      → AppWithinOption k.limit t
      → AppViewOption 0 h.next h a t
      → IsAppCopyOption h (app_deep_copy k a h).0 (app_deep_copy k a h).1 t
  unfolding app_deep_copy
  app_deep_copy-IsAppCopyOption none h none d v = record { extends = Extends-refl h; view = tt }
  app_deep_copy-IsAppCopyOption (some a) h (some t) d (l, u, (fields, e, v)) =
      let c = app_copy_new-IsAppCopy fields h t d v in
      rw (app_deep_copy, e) (record { extends = c.extends; view = c.view })
  app_deep_copy-IsAppCopyOption none h (some t) d v = absurd v
  app_deep_copy-IsAppCopyOption (some a) h none d v = absurd v

  -- A HelmApp whose metadata, spec and status are all in place and not deeper than `proto.Clone` and
  -- the copy of the metadata recurse, and its deep copy: whatever is written afterwards to the cells that were there before, the copy shows what the original
  -- held, and whatever is written to the cells of the copy, the original does. It is assumed that
  -- these two make deep copies.
  pub app_deep_copy-separate :
      (a : Addr) (h : Heap) (t : AppTree) (later : Heap)
      → AppWithin k.limit t
      → AppView 0 h.next h a t
      → (Agree h.next (app_deep_copy k (some a) h).1.next (app_deep_copy k (some a) h).1 later
          → AppViewOption h.next
              (app_deep_copy k (some a) h).1.next
              later
              (app_deep_copy k (some a) h).0
              (some t))
        × (Agree 0 h.next (app_deep_copy k (some a) h).1 later → AppView 0 h.next later a t)
  app_deep_copy-separate a h t later d v =
      let c = app_deep_copy-IsAppCopyOption (some a) h (some t) d v in
      (
        λ agree. AppViewOption-Agree _ _ _ _ agree _ _ c.view,
        λ agree.
            AppView-move 0 h.next 0 h.next h later (omega arith) (omega arith)
              (Agree-trans (Agree-Extends 0 c.extends) agree) a t v,
      )
