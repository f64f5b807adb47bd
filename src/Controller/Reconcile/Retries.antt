-- ===== src/Controller/Reconcile/Retries.antt =====
-- A deletion that is retried comes to its end, if the uninstalls fail only so many times.
use pluma_opeartor.Base.{
  ℕ, zero, suc, ◌<◌, String, ◌≡◌, refl, Option, none, arith, inl, inr, if◌then◌else◌,
}
use pluma_opeartor.Effects.{
  GoError, Action, pure, ◌>>=◌, if_err, Returns, Returns_map, bind-Returns,
}
use pluma_opeartor.Cluster.{Cluster}
use pluma_opeartor.Controller.Delete.{CtrlResult, finished, retry}
use pluma_opeartor.Controller.Delete.Retries.{
  FiniteFailures, Released, Round, Round-mono, deletion-Round,
}
use pluma_opeartor.Controller.Reconcile.{reconcile}

module _ (c : Cluster) (ns n : String) where
  -- The reconciles of a HelmApp for as long as they ask to be called again at once, `k` at most.
  unfoldable pub rounds : ℕ → Action c.World (CtrlResult × Option GoError)
  rounds zero = pure (retry, none)
  rounds (suc k) = do
    let next = rounds k
    r ← reconcile c ns n
    if r.0.requeue then next else pure r

  module _ (L : FiniteFailures c ns n) where
    reconcile-Round : (w : c.World) → L.Deleting w → Returns (reconcile c ns n w) (Round c ns n L w)
    unfolding reconcile if_err ◌>>=◌
    reconcile-Round w d =
        let (app, status, found, marked, has) = L.get-found w d in
        let (d', fewer) = L.get-kept w d in
        rw (found, marked)
          (Returns_map (Round c ns n L (c.get ns n w).1) (Round c ns n L w) _
            (deletion-Round c ns n L app status _ has d')
            (λ r v h. Round-mono c ns n L _ w r v fewer h))

    -- Given that all calls but the uninstalls succeed, and that uninstalls fail only finitely often:
    -- the reconciles of a HelmApp that has a status and is marked for deletion end, at the latest
    -- when one more of them has run than there are failures left, without an error and without a
    -- wish to be called again, and the last call is the update that takes the finalizer off.
    pub rounds-finish :
        (k : ℕ) (w : c.World)
        → L.Deleting w
        → L.left w < k
        → Returns (rounds k w) (λ r v. (r ≡ (finished, none)) × Released c v)
    unfolding rounds pure
    rounds-finish zero w d h = absurd (omega arith)
    rounds-finish (suc k) w d h =
        bind-Returns (Round c ns n L w) (λ r v. (r ≡ (finished, none)) × Released c v)
          (reconcile c ns n) _ w (reconcile-Round w d)
          (λ r v o. elim o [
            | inl (e, h') ↦ rw e (refl, h')
            | inr (e, d', l) ↦ rw e (rounds-finish k v d' (omega (arith, l, h)))
          ])
