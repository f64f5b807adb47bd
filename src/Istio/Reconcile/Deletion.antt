-- ===== src/Istio/Reconcile/Deletion.antt =====
-- The finalizer of a deleted IstioOperator and the HelmApp that was made for it.
use pluma_opeartor.Base.{
  String, ◌≡◌, ◌⊎◌, inl, inr, true, false, ◌==◌, ◌&&◌, Option, none, some, Bool-cases,
}
use pluma_opeartor.Effects.{
  GoError, Result, ok, err, pure, call, is_api_not_found, Returns, bind-Returns, ◌>>=◌,
  if_error-Returns, if_err-Returns,
}
use pluma_opeartor.Api.{HelmApp}
use pluma_opeartor.Istio.Resource.{IstioOperator}
use pluma_opeartor.Istio.Reconcile.{
  Cluster, is_managed, delete_existing, remove_helm_app, reconcile_delete,
}

-- What the proof relies on of the server. `Standing w ns name` says that a HelmApp of that name bears
-- the operator's label and was not marked for deletion, and `Finalized w` is any property that only
-- an update of an IstioOperator can end, such as that it bears the finalizer.
pub record DeletionLaws (c : Cluster) : Type 1 where
  pub Standing : c.World → String → String → Type 0
  pub Finalized : c.World → Type 0
  -- a read finds what stands there
  pub not_found :
      (ns name : String) (w : c.World) (e : GoError)
      → (c.get_app ns name w).0 ≡ err e
      → is_api_not_found e ≡ true
      → ¬ Standing (c.get_app ns name w).1 ns name
  pub found_other :
      (ns name : String) (w : c.World) (app : HelmApp)
      → (c.get_app ns name w).0 ≡ ok app
      → (app.meta.name == name && is_managed app) ≡ false
      → ¬ Standing (c.get_app ns name w).1 ns name
  -- a deletion that the server accepted marks what was read
  pub deleted :
      (ns name : String) (w : c.World) (app : HelmApp)
      → (c.get_app ns name w).0 ≡ ok app
      → (c.delete_app app (c.get_app ns name w).1).0 ≡ none
      → ¬ Standing (c.delete_app app (c.get_app ns name w).1).1 ns name
  -- an update of an IstioOperator makes no HelmApp
  pub update_iop-Standing :
      (iop : IstioOperator) (w : c.World) (ns name : String)
      → Standing (c.update_iop iop w).1 ns name
      → Standing w ns name
  pub get_app-Finalized :
      (ns name : String) (w : c.World) → Finalized w → Finalized (c.get_app ns name w).1
  pub delete_app-Finalized :
      (app : HelmApp) (w : c.World) → Finalized w → Finalized (c.delete_app app w).1

module _ (c : Cluster) (L : DeletionLaws c) (iop : IstioOperator) where
  abbrev read : c.World → Result HelmApp × c.World
  read w = c.get_app iop.meta.namespace iop.meta.name w

  abbrev Stands : c.World → Type 0
  Stands w = L.Standing w iop.meta.namespace iop.meta.name

  -- The finalizer is still on, and without an error the HelmApp is gone.
  record Removed (e : Option GoError) (w : c.World) : Type 0 where
    finalized : L.Finalized w
    gone : e ≡ none → ¬ Stands w

  delete_existing-Removed :
      (app : HelmApp) (w : c.World)
      → (read w).0 ≡ ok app
      → L.Finalized w
      → Returns (delete_existing c iop app (read w).1) Removed
  unfolding delete_existing ◌>>=◌
  delete_existing-Removed app w f k =
      let after : L.Finalized (read w).1 = L.get_app-Finalized _ _ w k in
      elim (Bool-cases (app.meta.name == iop.meta.name && is_managed app)) [
        | inr b ↦
            rw (b, delete_existing)
              (record { finalized = after; gone = λ h. L.found_other _ _ w app f b })
        | inl b ↦
            rw (b, delete_existing)
              (if_error-Returns Removed _ _ _ _
                (λ x q. record {
                  finalized = L.delete_app-Finalized app _ after;
                  gone = λ h. absurd (cc);
                })
                (λ q. record {
                  finalized = L.delete_app-Finalized app _ after;
                  gone = λ h. L.deleted _ _ w app f q;
                }))
      ]

  remove_helm_app-Removed :
      (w : c.World) → L.Finalized w → Returns (remove_helm_app c iop w) Removed
  unfolding remove_helm_app ◌>>=◌
  remove_helm_app-Removed w k =
      let after : L.Finalized (read w).1 = L.get_app-Finalized _ _ w k in
      if_err-Returns Removed (read w).0 _ _ _
        (λ e f. elim (Bool-cases (is_api_not_found e)) [
          | inl b ↦ rw b (record { finalized = after; gone = λ h. L.not_found _ _ w e f b })
          | inr b ↦ rw b (record { finalized = after; gone = λ h. absurd (cc) })
        ])
        (λ app f. delete_existing-Removed app w f k)

  abbrev IsSafe : Option GoError → c.World → Type 0
  IsSafe e w = L.Finalized w ⊎ (¬ Stands w)

  stop-IsSafe : (x : GoError) (v : c.World) → L.Finalized v → Returns (pure (some x) v) IsSafe
  unfolding pure
  stop-IsSafe x v k = inl k

  finish-IsSafe :
      (updated : IstioOperator) (v : c.World)
      → ¬ Stands v
      → Returns ((call (c.update_iop updated) >>= λ r. pure r.0) v) IsSafe
  unfolding ◌>>=◌
  finish-IsSafe updated v n = inr (λ s. n (L.update_iop-Standing updated v _ _ s))

  -- Given the laws of the server: the deletion of an IstioOperator returns in every world that bears
  -- its finalizer, and afterwards the finalizer is still on, or no HelmApp of its name that bears
  -- the operator's label is left that is not marked for deletion.
  pub finalizer_guards_helm_app :
      (w : c.World)
      → L.Finalized w
      → Returns
          (reconcile_delete c iop w)
          (λ e v. L.Finalized v ⊎ (¬ L.Standing v iop.meta.namespace iop.meta.name))
  unfolding reconcile_delete
  finalizer_guards_helm_app w k =
      bind-Returns Removed IsSafe (remove_helm_app c iop) _ w (remove_helm_app-Removed w k)
        (λ e v r.
          if_error-Returns IsSafe e _ _ v (λ x q. stop-IsSafe x v r.finalized)
            (λ q. finish-IsSafe _ v (r.gone q)))
