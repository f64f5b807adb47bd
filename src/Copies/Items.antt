-- ===== src/Copies/Items.antt =====
-- The copy of a HelmAppList.
use pluma_opeartor.Base.{ℕ, String, ◌≤◌, ◌≡◌, Option, none, some, List, [], ◌∷◌, arith}
use pluma_opeartor.Copies.{
  Addr, Heap, Cloning, AppList, items_deep_copy, slice_deep_copy, list_deep_copy_into,
}
use pluma_opeartor.Copies.Views.{
  Tree, AppTree, Within, AppWithinOption, Views, Extends, Extends-refl, Extends-trans,
}
use pluma_opeartor.Copies.Message.{CloningLaws}
use pluma_opeartor.Copies.App.{
  AppViewOption, AppView-onward, Views-onward, app_deep_copy-IsAppCopyOption,
}

-- The pointers of `Items`, each of which is nil or shows a HelmApp.
abbrev pub ItemsView : ℕ → ℕ → Heap → List (Option Addr) → List (Option AppTree) → Type 0
ItemsView lo hi h [] [] = Unit
ItemsView lo hi h (a ∷ items) (t ∷ ts) = AppViewOption lo hi h a t × ItemsView lo hi h items ts
ItemsView lo hi h _ _ = ⊥

-- A nil slice shows no list.
abbrev pub ItemsViewOption :
    ℕ → ℕ → Heap → Option (List (Option Addr)) → Option (List (Option AppTree)) → Type 0
ItemsViewOption lo hi h none none = Unit
ItemsViewOption lo hi h (some items) (some ts) = ItemsView lo hi h items ts
ItemsViewOption lo hi h _ _ = ⊥

-- What a HelmAppList holds.
pub record ListTree : Type 0 where
  pub type_meta : String
  pub meta : Tree
  pub items : Option (List (Option AppTree))

abbrev pub ListView : ℕ → ℕ → Heap → AppList → ListTree → Type 0
ListView lo hi h list t =
    (list.type_meta ≡ t.type_meta)
    × Views lo hi h list.meta t.meta
    × ItemsViewOption lo hi h list.items t.items

abbrev pub ItemsWithin : ℕ → List (Option AppTree) → Type 0
ItemsWithin n [] = Unit
ItemsWithin n (t ∷ ts) = AppWithinOption n t × ItemsWithin n ts

abbrev pub ItemsWithinOption : ℕ → Option (List (Option AppTree)) → Type 0
ItemsWithinOption n none = Unit
ItemsWithinOption n (some ts) = ItemsWithin n ts

pub record IsItemsCopy (h : Heap) (items : List (Option Addr)) (h' : Heap)
    (ts : List (Option AppTree)) : Type 0 where
  pub extends : Extends h h'
  pub view : ItemsView h.next h'.next h' items ts

pub record IsSliceCopy (h : Heap) (items : Option (List (Option Addr))) (h' : Heap)
    (ts : Option (List (Option AppTree))) : Type 0 where
  pub extends : Extends h h'
  pub view : ItemsViewOption h.next h'.next h' items ts

pub record IsListCopy (h : Heap) (list : AppList) (h' : Heap) (t : ListTree) : Type 0 where
  pub extends : Extends h h'
  pub view : ListView h.next h'.next h' list t

module _ (lo lo' : ℕ) {h h' : Heap} (down : lo' ≤ lo) (s : Extends h h') where
  AppViewOption-onward :
      (a : Option Addr) (t : Option AppTree)
      → AppViewOption lo h.next h a t
      → AppViewOption lo' h'.next h' a t
  AppViewOption-onward none none v = tt
  AppViewOption-onward (some a) (some t) v = AppView-onward lo lo' down s a t v
  AppViewOption-onward none (some t) v = absurd v
  AppViewOption-onward (some a) none v = absurd v

  ItemsView-onward :
      (items : List (Option Addr)) (ts : List (Option AppTree))
      → ItemsView lo h.next h items ts
      → ItemsView lo' h'.next h' items ts
  ItemsView-onward [] [] v = tt
  ItemsView-onward (a ∷ items) (t ∷ ts) (v, vs) =
      (AppViewOption-onward a t v, ItemsView-onward items ts vs)
  ItemsView-onward [] (t ∷ ts) v = absurd v
  ItemsView-onward (a ∷ items) [] v = absurd v

  ItemsViewOption-onward :
      (items : Option (List (Option Addr))) (ts : Option (List (Option AppTree)))
      → ItemsViewOption lo h.next h items ts
      → ItemsViewOption lo' h'.next h' items ts
  ItemsViewOption-onward none none v = tt
  ItemsViewOption-onward (some items) (some ts) v = ItemsView-onward items ts v
  ItemsViewOption-onward none (some ts) v = absurd v
  ItemsViewOption-onward (some items) none v = absurd v

module _ (k : Cloning) (L : CloningLaws k) where
  items_deep_copy-IsItemsCopy :
      (items : List (Option Addr)) (h : Heap) (ts : List (Option AppTree))
      → ItemsWithin k.limit ts
      → ItemsView 0 h.next h items ts
      → IsItemsCopy h (items_deep_copy k items h).0 (items_deep_copy k items h).1 ts
  unfolding items_deep_copy
  items_deep_copy-IsItemsCopy [] h [] d v = record { extends = Extends-refl h; view = tt }
  items_deep_copy-IsItemsCopy (a ∷ items) h (t ∷ ts) (d, ds) (v, vs) =
      let c = app_deep_copy-IsAppCopyOption k L a h t d v in
      let r =
        items_deep_copy-IsItemsCopy items _ ts ds
          (ItemsView-onward 0 0 (omega arith) c.extends items ts vs) in
      record {
        extends = Extends-trans c.extends r.extends;
        view = (
          AppViewOption-onward _ h.next (omega arith) r.extends _ _ c.view,
          ItemsView-onward _ h.next (omega (arith, c.extends.grows)) (Extends-refl _) _ _ r.view,
        );
      }
  items_deep_copy-IsItemsCopy [] h (t ∷ ts) d v = absurd v
  items_deep_copy-IsItemsCopy (a ∷ items) h [] d v = absurd v

  slice_deep_copy-IsSliceCopy :
      (items : Option (List (Option Addr))) (h : Heap) (ts : Option (List (Option AppTree)))
      → ItemsWithinOption k.limit ts
      → ItemsViewOption 0 h.next h items ts
      → IsSliceCopy h (slice_deep_copy k items h).0 (slice_deep_copy k items h).1 ts
  unfolding slice_deep_copy
  slice_deep_copy-IsSliceCopy none h none d v = record { extends = Extends-refl h; view = tt }
  slice_deep_copy-IsSliceCopy (some items) h (some ts) d v =
      let c = items_deep_copy-IsItemsCopy items h ts d v in
      record { extends = c.extends; view = c.view }
  slice_deep_copy-IsSliceCopy none h (some ts) d v = absurd v
  slice_deep_copy-IsSliceCopy (some items) h none d v = absurd v

  -- The deep copy of a HelmAppList shows what the list held, its nil pointers and a nil slice
  -- included, in cells that were not there before, and it leaves those that were as they are. It is
  -- assumed that `proto.Clone` and the copy of the metadata make deep copies, of what is not
  -- deeper than they recurse, and that the list is not.
  pub list_deep_copy_into-IsListCopy :
      (list : AppList) (h : Heap) (t : ListTree)
      → Within k.limit t.meta × ItemsWithinOption k.limit t.items
      → ListView 0 h.next h list t
      → IsListCopy h (list_deep_copy_into k list h).0 (list_deep_copy_into k list h).1 t
  unfolding list_deep_copy_into
  list_deep_copy_into-IsListCopy list h t (dm, ds) (e, vm, vs) =
      let m = L.copy_meta-IsCopy list.meta h t.meta dm vm in
      let s =
        slice_deep_copy-IsSliceCopy list.items _ t.items ds
          (ItemsViewOption-onward 0 0 (omega arith) m.extends _ _ vs) in
      record {
        extends = Extends-trans m.extends s.extends;
        view = (
          e,
          Views-onward _ h.next (omega arith) s.extends _ _ m.view,
          ItemsViewOption-onward _ h.next (omega (arith, m.extends.grows)) (Extends-refl _) _ _
              s.view,
        );
      }
