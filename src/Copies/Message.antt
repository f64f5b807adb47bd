-- ===== src/Copies/Message.antt =====
-- The copy of a protobuf message.
use pluma_opeartor.Base.{
  ℕ, suc, ◌≤◌, ◌<◌, ◌≡◌, refl, false, Option, none, some, eqb, eqb_refl, arith,
}
use pluma_opeartor.Copies.{
  Addr, Cell, Heap, write, alloc, Cloning, message_deep_copy_into, message_deep_copy,
}
use pluma_opeartor.Copies.Views.{
  Tree, node, Views, ViewsOption, Within, WithinOption, Agree, Extends, Extends-refl, Extends-trans,
  Views-move, AllViews-move,
}

-- The address `b` of `h'` holds the tree in cells that were not there in `h`, whose cells stay.
pub record IsCopy (h : Heap) (b : Addr) (h' : Heap) (t : Tree) : Type 0 where
  pub extends : Extends h h'
  pub view : Views h.next h'.next h' b t

pub record IsCopyOption (h : Heap) (b : Option Addr) (h' : Heap) (t : Option Tree) : Type 0 where
  pub extends : Extends h h'
  pub view : ViewsOption h.next h'.next h' b t

-- What is documented of `proto.Clone` and of the copies of metadata: they are deep copies.
pub record CloningLaws (k : Cloning) : Type 0 where
  pub clone-IsCopy :
      (a : Addr) (h : Heap) (t : Tree)
      → Within k.limit t
      → Views 0 h.next h a t
      → IsCopy h (k.clone a h).0 (k.clone a h).1 t
  pub copy_meta-IsCopy :
      (a : Addr) (h : Heap) (t : Tree)
      → Within k.limit t
      → Views 0 h.next h a t
      → IsCopy h (k.copy_meta a h).0 (k.copy_meta a h).1 t

apart : (a b : ℕ) → a < b → eqb a b ≡ false
apart a b l = ground arith

apart_sym : (a b : ℕ) → b < a → eqb a b ≡ false
apart_sym a b l = ground arith

pub Extends-alloc : (h : Heap) → Extends h (alloc h).1
Extends-alloc h = record { grows = omega arith; same = λ x l. rw (apart_sym h.next x l) refl }

-- A write to a cell that was not there.
pub Extends-write :
    (h h' : Heap) (out : Addr) (x : Option Cell)
    → h.next ≤ out
    → Extends h h'
    → Extends h (write out x h')
Extends-write h h' out x l s = record {
  grows = s.grows;
  same = λ y m. rw (apart_sym out y (omega arith)) (s.same y m);
}

pub Agree-write :
    (lo hi : ℕ) (h : Heap) (out : Addr) (x : Option Cell) → out < lo → Agree lo hi h (write out x h)
Agree-write lo hi h out x l = record { same = λ y m n. rw (apart out y (omega arith)) refl }

pub Agree-Extends : (lo : ℕ) {h h' : Heap} → Extends h h' → Agree lo h.next h h'
Agree-Extends lo s = record { same = λ x l u. s.same x u }

-- A view of what is there stays, and what is new comes on top.
pub Views-Extends :
    (lo : ℕ) {h h' : Heap} (a : Addr) (t : Tree)
    → Extends h h'
    → Views lo h.next h a t
    → Views lo h'.next h' a t
Views-Extends lo {h} {h'} a t s v =
    Views-move lo h.next lo h'.next h h' (omega arith) s.grows (Agree-Extends lo s) a t v

module _ (k : Cloning) (L : CloningLaws k) where
  into_new :
      (h h1 : Heap) (p : Addr) (t : Tree)
      → IsCopy (alloc h).1 p h1 t
      → IsCopy h h.next (write h.next (h1.cell p) h1) t
  into_new h h1 p (node content ts) c =
      let (l, u, (parts, e, vs)) = c.view in
      record {
        extends =
            Extends-write h h1 h.next (h1.cell p) (omega arith)
              (Extends-trans (Extends-alloc h) c.extends);
        view = (
          omega arith,
          omega (arith, c.extends.grows),
          (
            parts,
            rw (eqb_refl h.next) e,
            AllViews-move (suc h.next) h1.next h.next h1.next h1 _ (omega arith) (omega arith)
                (Agree-write (suc h.next) h1.next h1 h.next (h1.cell p) (omega arith)) parts ts vs,
          ),
        );
      }

  -- The copy of a message at `a` stands at a new address.
  pub message_deep_copy_into-IsCopy :
      (a : Addr) (h : Heap) (t : Tree)
      → Within k.limit t
      → Views 0 h.next h a t
      → IsCopy h h.next (message_deep_copy_into k a h.next (alloc h).1) t
  unfolding message_deep_copy_into
  message_deep_copy_into-IsCopy a h t d v =
      into_new h _ _ t (L.clone-IsCopy a (alloc h).1 t d (Views-Extends 0 a t (Extends-alloc h) v))

  -- A pointer that may be nil, and its copy.
  pub message_deep_copy-IsCopyOption :
      (a : Option Addr) (h : Heap) (t : Option Tree)
      → WithinOption k.limit t
      → ViewsOption 0 h.next h a t
      → IsCopyOption h (message_deep_copy k a h).0 (message_deep_copy k a h).1 t
  unfolding message_deep_copy
  message_deep_copy-IsCopyOption none h none d v = record { extends = Extends-refl h; view = tt }
  message_deep_copy-IsCopyOption (some a) h (some t) d v =
      let c = message_deep_copy_into-IsCopy a h t d v in
      record { extends = c.extends; view = c.view }
  message_deep_copy-IsCopyOption none h (some t) d v = absurd v
  message_deep_copy-IsCopyOption (some a) h none d v = absurd v
