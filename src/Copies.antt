-- ===== src/Copies.antt =====
-- The deep copies of apis/operator/v1alpha1: zz_generated.deepcopy.go for HelmApp and HelmAppList,
-- helmapp_deepcopy.gen.go for the protobuf messages. Objects stand at the addresses of a heap, so
-- that it shows what a copy shares with its original.
pub mod Views
pub mod Message
pub mod App
pub mod Items
use pluma_opeartor.Base.{
  ℕ, suc, ◌+◌, String, Bool, Option, none, some, List, [], ◌∷◌, eqb, if◌then◌else◌,
}

abbrev pub Addr : Type 0
Addr = ℕ

-- The struct of a HelmApp. The maps and slices of its `ObjectMeta` stand at the address `meta`.
pub record AppFields : Type 0 where
  pub type_meta : String
  pub meta : Addr
  pub spec : Option Addr
  pub status : Option Addr

-- A message has its plain fields, by a number, and points to its parts.
pub data Cell : Type 0 where
  message : ℕ → List Addr → Cell
  app : AppFields → Cell

pub record Heap : Type 0 where
  pub next : ℕ
  pub cell : Addr → Option Cell

abbrev pub write : Addr → Option Cell → Heap → Heap
write a x h = record h { cell = λ b. if eqb a b then x else h.cell b }

-- `new(T)`: the cell is written before anything reads it.
abbrev pub alloc : Heap → Addr × Heap
alloc h =
    (h.next, record { next = suc h.next; cell = λ b. if eqb h.next b then none else h.cell b })

-- What the copies call: `proto.Clone`, and `DeepCopyInto` of `ObjectMeta` and `ListMeta`. Both recurse
-- into the parts, `limit` deep at most.
pub record Cloning : Type 0 where
  pub limit : ℕ
  pub clone : Addr → Heap → Addr × Heap
  pub copy_meta : Addr → Heap → Addr × Heap

module _ (k : Cloning) where
  -- `p := proto.Clone(in); *out = *p`
  unfoldable pub message_deep_copy_into : Addr → Addr → Heap → Heap
  message_deep_copy_into from out h = let (p, h') = k.clone from h in write out (h'.cell p) h'

  -- `DeepCopy` of a message that may be nil
  unfoldable pub message_deep_copy : Option Addr → Heap → Option Addr × Heap
  unfolding message_deep_copy_into
  message_deep_copy none h = (none, h)
  message_deep_copy (some from) h =
      let (out, h') = alloc h in (some out, message_deep_copy_into from out h')

  unfoldable pub message_deep_copy_interface : Option Addr → Heap → Option Addr × Heap
  unfolding message_deep_copy
  message_deep_copy_interface from h = message_deep_copy from h

  -- The three methods stand in the file once for each message: those of HelmAppSpec are above.
  unfoldable pub helm_component_copies : Option Addr → Heap → Option Addr × Heap
  unfolding message_deep_copy_interface
  helm_component_copies = message_deep_copy_interface

  unfoldable pub helm_repo_copies : Option Addr → Heap → Option Addr × Heap
  unfolding message_deep_copy_interface
  helm_repo_copies = message_deep_copy_interface

  unfoldable pub helm_app_status_copies : Option Addr → Heap → Option Addr × Heap
  unfolding message_deep_copy_interface
  helm_app_status_copies = message_deep_copy_interface

  unfoldable pub helm_component_status_copies : Option Addr → Heap → Option Addr × Heap
  unfolding message_deep_copy_interface
  helm_component_status_copies = message_deep_copy_interface

  unfoldable pub helm_resource_status_copies : Option Addr → Heap → Option Addr × Heap
  unfolding message_deep_copy_interface
  helm_resource_status_copies = message_deep_copy_interface

  -- `DeepCopyInto` of a HelmApp: the fields that it leaves in `out`.
  unfoldable pub app_deep_copy_into : AppFields → Heap → AppFields × Heap
  unfolding message_deep_copy
  app_deep_copy_into fields h =
      let (meta, h1) = k.copy_meta fields.meta h in
      let (spec, h2) = message_deep_copy fields.spec h1 in
      let (status, h3) = message_deep_copy fields.status h2 in
      (record { type_meta = fields.type_meta; meta = meta; spec = spec; status = status }, h3)

  -- `out := new(HelmApp); in.DeepCopyInto(out)`, from the fields of `in`
  unfoldable pub app_copy_new : AppFields → Heap → Addr × Heap
  unfolding app_deep_copy_into
  app_copy_new fields h =
      let (out, h') = alloc h in
      let (copied, h'') = app_deep_copy_into fields h' in (out, write out (some (app copied)) h'')

  -- `DeepCopy` of a HelmApp that may be nil. At an address of something else the code would not run.
  unfoldable pub app_deep_copy : Option Addr → Heap → Option Addr × Heap
  unfolding app_copy_new
  app_deep_copy none h = (none, h)
  app_deep_copy (some a) h = elim (h.cell a) [
    | some (app fields) ↦ let (out, h') = app_copy_new fields h in (some out, h')
    | _ ↦ (none, h)
  ]

  -- `DeepCopyObject`: nil stays nil, and not an object that holds nil.
  unfoldable pub app_deep_copy_object : Option Addr → Heap → Option Addr × Heap
  unfolding app_deep_copy
  app_deep_copy_object a h =
      let (copied, h') = app_deep_copy a h in
      elim copied [ some out ↦ (some out, h') | none ↦ (none, h') ]

  -- The loop over `Items`: a nil pointer stays nil.
  unfoldable pub items_deep_copy : List (Option Addr) → Heap → List (Option Addr) × Heap
  unfolding app_deep_copy
  items_deep_copy [] h = ([], h)
  items_deep_copy (a ∷ items) h =
      let (copied, h') = app_deep_copy a h in
      let (rest, h'') = items_deep_copy items h' in (copied ∷ rest, h'')

-- The struct of a HelmAppList, whose `Items` may be nil.
pub record AppList : Type 0 where
  pub type_meta : String
  pub meta : Addr
  pub items : Option (List (Option Addr))

module _ (k : Cloning) where
  -- `Items`: a nil slice stays nil.
  unfoldable pub slice_deep_copy :
      Option (List (Option Addr)) → Heap → Option (List (Option Addr)) × Heap
  slice_deep_copy none h = (none, h)
  slice_deep_copy (some items) h = let (copied, h') = items_deep_copy k items h in (some copied, h')

  -- `DeepCopyInto` of a HelmAppList: what it leaves in `out`.
  unfoldable pub list_deep_copy_into : AppList → Heap → AppList × Heap
  unfolding slice_deep_copy
  list_deep_copy_into list h =
      let (meta, h1) = k.copy_meta list.meta h in
      let (items, h2) = slice_deep_copy list.items h1 in
      (record { type_meta = list.type_meta; meta = meta; items = items }, h2)

  -- `DeepCopy` of a list that may be nil, and `DeepCopyObject`, which leaves nil as nil.
  unfoldable pub list_deep_copy : Option AppList → Heap → Option AppList × Heap
  unfolding list_deep_copy_into
  list_deep_copy none h = (none, h)
  list_deep_copy (some list) h = let (out, h') = list_deep_copy_into list h in (some out, h')

  unfoldable pub list_deep_copy_object : Option AppList → Heap → Option AppList × Heap
  unfolding list_deep_copy
  list_deep_copy_object list h =
      let (copied, h') = list_deep_copy list h in
      elim copied [ some out ↦ (some out, h') | none ↦ (none, h') ]
