-- ===== src/Tests/Copying.antt =====
-- A recursive `proto.Clone`, and the copies that are made with it.
use pluma_opeartor.Base.{
  ℕ, zero, suc, ◌≤◌, refl, none, some, List, [], ◌∷◌, eqb, eqb_refl, if◌then◌else◌, arith,
}
use pluma_opeartor.Copies.{
  Addr, AppFields, message, app, Heap, write, alloc, Cloning, AppList, app_deep_copy,
  list_deep_copy_into,
}
use pluma_opeartor.Copies.Views.{
  Tree, node, Trees, nil, cons, AppTree, Views, AllViews, Within, AllWithin, FieldsView, AppView,
  Agree, Extends, Extends-refl, Extends-trans, Views-move, AllViews-move,
}
use pluma_opeartor.Copies.Message.{IsCopy, CloningLaws, Extends-alloc, Extends-write, Agree-Extends}
use pluma_opeartor.Copies.App.{AppViewOption, app_deep_copy-separate}
use pluma_opeartor.Copies.Items.{ListTree, IsListCopy, list_deep_copy_into-IsListCopy}

unfoldable copy_each : (Addr → Heap → Addr × Heap) → List Addr → Heap → List Addr × Heap
copy_each f [] h = ([], h)
copy_each f (a ∷ parts) h =
    let (copy, h') = f a h in let (copies, h'') = copy_each f parts h' in (copy ∷ copies, h'')

-- The parts are copied first, and then a cell is made that points to the copies.
unfoldable clone : ℕ → Addr → Heap → Addr × Heap
unfolding copy_each
clone zero a h = (a, h)
clone (suc n) a h = elim (h.cell a) [
  | some (message content parts) ↦
      let (copies, h') = copy_each (clone n) parts h in
      (h'.next, write h'.next (some (message content copies)) (alloc h').1)
  | _ ↦ (a, h)
]

record IsAllCopy (h : Heap) (parts : List Addr) (h' : Heap) (ts : Trees) : Type 0 where
  extends : Extends h h'
  view : AllViews h.next h'.next h' parts ts

Views-onward :
    (lo lo' : ℕ) {h h' : Heap} (a : Addr) (t : Tree)
    → lo' ≤ lo
    → Extends h h'
    → Views lo h.next h a t
    → Views lo' h'.next h' a t
Views-onward lo lo' {h} {h'} a t l s =
    Views-move lo h.next lo' h'.next h h' l s.grows (Agree-Extends lo s) a t

AllViews-onward :
    (lo lo' : ℕ) {h h' : Heap} (parts : List Addr) (ts : Trees)
    → lo' ≤ lo
    → Extends h h'
    → AllViews lo h.next h parts ts
    → AllViews lo' h'.next h' parts ts
AllViews-onward lo lo' {h} {h'} parts ts l s =
    AllViews-move lo h.next lo' h'.next h h' l s.grows (Agree-Extends lo s) parts ts

-- The cell that `clone` makes at the end.
cell-IsCopy :
    (h h' : Heap) (content : ℕ) (copies : List Addr) (ts : Trees)
    → IsAllCopy h copies h' ts
    → IsCopy h h'.next
        (write h'.next (some (message content copies)) (alloc h').1)
        (node content ts)
cell-IsCopy h h' content copies ts c =
    let s =
      Extends-write h' (alloc h').1 h'.next (some (message content copies)) (omega arith)
        (Extends-alloc h') in
    record {
      extends = Extends-trans c.extends s;
      view = (
        omega (arith, c.extends.grows),
        omega arith,
        (
          copies,
          rw (eqb_refl h'.next) refl,
          AllViews-onward h.next h.next copies ts (omega arith) s c.view,
        ),
      );
    }

copy_each-IsAllCopy :
    (n : ℕ) (f : Addr → Heap → Addr × Heap)
    → ((a : Addr) (h : Heap) (t : Tree)
        → Within n t
        → Views 0 h.next h a t
        → IsCopy h (f a h).0 (f a h).1 t)
    → (parts : List Addr) (h : Heap) (ts : Trees) → AllWithin n ts
    → AllViews 0 h.next h parts ts
    → IsAllCopy h (copy_each f parts h).0 (copy_each f parts h).1 ts
unfolding copy_each
copy_each-IsAllCopy n f k [] h nil d v = record { extends = Extends-refl h; view = tt }
copy_each-IsAllCopy n f k (a ∷ parts) h (cons t ts) (d, ds) (v, vs) =
    let c = k a h t d v in
    let r =
      copy_each-IsAllCopy n f k parts _ ts ds
        (AllViews-onward 0 0 parts ts (omega arith) c.extends vs) in
    record {
      extends = Extends-trans c.extends r.extends;
      view = (
        Views-onward _ h.next _ t (omega arith) r.extends c.view,
        AllViews-onward _ h.next _ ts (omega (arith, c.extends.grows)) (Extends-refl _) r.view,
      );
    }
copy_each-IsAllCopy n f k [] h (cons t ts) d v = absurd v
copy_each-IsAllCopy n f k (a ∷ parts) h nil d v = absurd v

clone-IsCopy :
    (n : ℕ) (a : Addr) (h : Heap) (t : Tree)
    → Within n t
    → Views 0 h.next h a t
    → IsCopy h (clone n a h).0 (clone n a h).1 t
unfolding clone
clone-IsCopy zero a h t d v = absurd d
clone-IsCopy (suc n) a h (node content ts) d (l, u, (parts, e, vs)) =
    rw (clone, e)
      (cell-IsCopy h _ content _ ts
        (copy_each-IsAllCopy n (clone n) (clone-IsCopy n) parts h ts d vs))

abbrev cloning : Cloning
cloning = record { limit = 3; clone = clone 3; copy_meta = clone 3 }

cloning_laws : CloningLaws cloning
cloning_laws = record { clone-IsCopy = clone-IsCopy 3; copy_meta-IsCopy = clone-IsCopy 3 }

-- A HelmApp at 3, with metadata at 0, a spec at 2 that points to the message at 1, and no status.
abbrev fields : AppFields
fields = record { type_meta = "HelmApp"; meta = 0; spec = some 2; status = none }

abbrev heap : Heap
heap = record {
  next = 4;
  cell = λ a.
      if eqb a 0
      then some (message 10 [])
      else (if eqb a 1
          then some (message 11 [])
          else (if eqb a 2
              then some (message 12 (1 ∷ []))
              else (if eqb a 3 then some (app fields) else none)));
}

abbrev tree : AppTree
tree = record {
  type_meta = "HelmApp";
  meta = node 10 nil;
  spec = some (node 12 (cons (node 11 nil) nil));
  status = none;
}

abbrev fields_view : FieldsView 0 4 heap fields tree
fields_view = (
  refl,
  (omega arith, omega arith, ([], refl, tt)),
  (omega arith, omega arith, (1 ∷ [], refl, ((omega arith, omega arith, ([], refl, tt)), tt))),
  tt,
)

abbrev app_view : AppView 0 4 heap 3 tree
app_view = (omega arith, omega arith, (fields, refl, fields_view))

-- What is written over the original's metadata and spec, after the copy.
abbrev later : Heap
later = write 0 none (write 1 (some (message 99 [])) (app_deep_copy cloning (some 3) heap).1)

app_deep_copy-separate_example :
    (Agree 4
        (app_deep_copy cloning (some 3) heap).1.next
        (app_deep_copy cloning (some 3) heap).1
        later
      → AppViewOption 4
          (app_deep_copy cloning (some 3) heap).1.next
          later
          (app_deep_copy cloning (some 3) heap).0
          (some tree))
    × (Agree 0 4 (app_deep_copy cloning (some 3) heap).1 later → AppView 0 4 later 3 tree)
app_deep_copy-separate_example =
    app_deep_copy-separate cloning cloning_laws 3 heap tree later (tt, (tt, tt), tt) app_view

-- A list of a nil pointer and the HelmApp, over the metadata at 0.
abbrev two_items : AppList
two_items = record { type_meta = "HelmAppList"; meta = 0; items = some (none ∷ some 3 ∷ []) }

abbrev list_tree : ListTree
list_tree = record {
  type_meta = "HelmAppList";
  meta = node 10 nil;
  items = some (none ∷ some tree ∷ []);
}

list_deep_copy_into-IsListCopy_example :
    IsListCopy heap
      (list_deep_copy_into cloning two_items heap).0
      (list_deep_copy_into cloning two_items heap).1
      list_tree
list_deep_copy_into-IsListCopy_example =
    list_deep_copy_into-IsListCopy cloning cloning_laws two_items heap list_tree
      (tt, (tt, ((tt, (tt, tt), tt), tt)))
      (refl, (omega arith, omega arith, ([], refl, tt)), (tt, (app_view, tt)))
