-- ===== src/Controller/Delete/Retries.antt =====
-- One deletion, if the uninstalls fail only so many times: it finishes, or fewer failures are left.
use mathlib.Core.List.{reverse}
use pluma_opeartor.Base.{
  ℕ, ◌<◌, ◌≤◌, String, ◌≡◌, ◌⊎◌, inl, inr, refl, sym, subst, Bool, true, false, ◌==◌, Option, none,
  some, List, [], ◌∷◌, length, arith, Bool-cases, if◌then◌else◌,
}
use pluma_opeartor.Effects.{
  GoError, ok, pure, ◌>>=◌, if_error, if_err, Returns, Returns_map, bind-Returns, if_error-Returns,
}
use pluma_opeartor.Api.{HelmApp, HelmAppStatus, HelmComponentStatus}
use pluma_opeartor.Constants.{helm_app_finalizer}
use pluma_opeartor.Cluster.{Cluster, Release}
use pluma_opeartor.Controller.Uninstall.{
  other_error, uninstall_found, uninstall_component, new_action_configuration,
}
use pluma_opeartor.Controller.Delete.{
  CtrlResult, finished, retry, delete_one, delete_loop, release_app, finish_delete,
  delete_components, delete_with, reconcile_delete,
}
use pluma_opeartor.Controller.Delete.Loop.{delete_reversed, delete_loop-refines}

-- What the proof relies on. `Deleting w` says that the HelmApp is there, is marked for deletion and
-- has a status, and `left w` bounds how often an uninstall can still fail. Everything but the
-- uninstalls succeeds.
pub record FiniteFailures (c : Cluster) (ns n : String) : Type 1 where
  pub Deleting : c.World → Type 0
  pub left : c.World → ℕ
  pub get-found :
      (w : c.World)
      → Deleting w
      → (app : HelmApp) × (status : HelmAppStatus) × ((c.get ns n w).0 ≡ ok app)
        × (c.is_zero app.meta.deletion_timestamp ≡ false)
        × (app.status ≡ some status)
  pub get-kept :
      (w : c.World) → Deleting w → Deleting (c.get ns n w).1 × (left (c.get ns n w).1 ≤ left w)
  pub registry :
      (w : c.World)
      → Deleting w
      → (client : c.Registry) × ((c.new_registry_client w).0 ≡ ok client)
        × Deleting (c.new_registry_client w).1
        × (left (c.new_registry_client w).1 ≤ left w)
  pub init :
      (cfg : c.Config) (namespace : String) (w : c.World)
      → Deleting w
      → ((c.init cfg namespace w).0.0 ≡ none)
        × Deleting (c.init cfg namespace w).1
        × (left (c.init cfg namespace w).1 ≤ left w)
  pub get_release :
      (cfg : c.Config) (name : String) (w : c.World)
      → Deleting w
      → (other_error (c.get_release cfg name w).0.1 ≡ none)
        × Deleting (c.get_release cfg name w).1
        × (left (c.get_release cfg name w).1 ≤ left w)
  pub uninstall :
      (cfg : c.Config) (name : String) (w : c.World)
      → Deleting w
      → Deleting (c.uninstall cfg name w).1
        × (left (c.uninstall cfg name w).1 ≤ left w)
        × ((other_error (c.uninstall cfg name w).0 ≡ none)
            ⊎ (left (c.uninstall cfg name w).1 < left w))
  pub update_status :
      (app : HelmApp) (status : HelmAppStatus) (w : c.World)
      → app.status ≡ some status
      → Deleting w
      → ((c.update_status app w).0.0 ≡ none)
        × Deleting (c.update_status app w).1
        × (left (c.update_status app w).1 ≤ left w)
  pub update : (app : HelmApp) (w : c.World) → Deleting w → (c.update app w).0.0 ≡ none

no_error : {o : Option GoError} {x : GoError} → o ≡ none → o ≡ some x → ⊥
no_error e f = cc

module _ (c : Cluster) where
  abbrev pub unfinalized : HelmApp → HelmApp
  unfinalized app = record app {
    meta = record app.meta {
      finalizers = c.remove_finalizer app.meta.finalizers helm_app_finalizer;
    };
  }

  -- The last call was the update that takes the finalizer off.
  abbrev pub Released : c.World → Type 0
  Released v = (app : HelmApp) × (u : c.World) × (v ≡ (c.update (unfinalized app) u).1)

module _ (c : Cluster) (ns n : String) where
  module _ (L : FiniteFailures c ns n) where
    -- No more failures are left at `v` than at `w`, and fewer if a flag went down in between.
    record Spent (before : Bool) (w : c.World) (all : Bool) (v : c.World) : Type 0 where
      deleting : L.Deleting v
      fewer : L.left v ≤ L.left w
      cost : before ≡ true → (all ≡ true) ⊎ (L.left v < L.left w)

    Spent-step :
        (before clean all : Bool) (u v w : c.World)
        → Spent true u clean v
        → Spent (if clean then before else false) v all w
        → Spent before u all w
    Spent-step before true all u v w s t = record {
      deleting = t.deleting;
      fewer = omega (arith, s.fewer, t.fewer);
      cost = λ h. elim (t.cost h) [ inl e ↦ inl e | inr l ↦ inr (omega (arith, l, s.fewer)) ];
    }
    Spent-step before false all u v w s t = record {
      deleting = t.deleting;
      fewer = omega (arith, s.fewer, t.fewer);
      cost =
          λ h. elim (s.cost refl) [ inl e ↦ absurd (cc) | inr l ↦ inr (omega (arith, l, t.fewer)) ];
    }

    -- After an uninstall: the HelmApp is still there, and an error was paid for.
    record Paid (w : c.World) (e : Option GoError) (v : c.World) : Type 0 where
      deleting : L.Deleting v
      fewer : L.left v ≤ L.left w
      cost : (e ≡ none) ⊎ (L.left v < L.left w)

    uninstall_found-Paid :
        (cfg : c.Config) (name : String) (w : c.World) (release : Option Release)
        → L.Deleting w
        → Returns (uninstall_found c cfg name none release w) (Paid w)
    unfolding uninstall_found ◌>>=◌
    uninstall_found-Paid cfg name w none d = record {
      deleting = d;
      fewer = omega arith;
      cost = inl refl;
    }
    uninstall_found-Paid cfg name w (some release) d =
        let (deleting, fewer, cost) = L.uninstall cfg name w d in
        record { deleting = deleting; fewer = fewer; cost = cost }

    uninstall_component-Paid :
        (cfg : c.Config) (name : String) (w : c.World)
        → L.Deleting w
        → Returns (uninstall_component c cfg name w) (Paid w)
    unfolding uninstall_component ◌>>=◌
    uninstall_component-Paid cfg name w d =
        let (e, deleting, fewer) = L.get_release cfg name w d in
        rw e (
          Returns_map (Paid (c.get_release cfg name w).1) (Paid w) _
            (uninstall_found-Paid cfg name _ _ deleting)
            (λ x v p. record {
              deleting = p.deleting;
              fewer = omega (arith, p.fewer, fewer);
              cost = elim p.cost [ inl h ↦ inl h | inr l ↦ inr (omega (arith, l, fewer)) ];
            }))

    delete_one-Spent :
        (cfg : c.Config) (component : HelmComponentStatus) (w : c.World)
        → L.Deleting w
        → Returns (delete_one c cfg component w) (λ r v. Spent true w r.1 v)
    unfolding delete_one
    delete_one-Spent cfg component w d = elim (Bool-cases (component.name == "")) [
      | inl e ↦
          rw (e, delete_one) (record { deleting = d; fewer = omega arith; cost = λ h. inl refl })
      | inr e ↦
          rw (e, delete_one)
            (bind-Returns (Paid w) (λ r v. Spent true w r.1 v)
              (uninstall_component c cfg component.name) _ w
              (uninstall_component-Paid cfg component.name w d)
              (elim [
                | none ↦
                    λ v p. record { deleting = p.deleting; fewer = p.fewer; cost = λ h. inl refl }
                | some x ↦ λ v p. record {
                  deleting = p.deleting;
                  fewer = p.fewer;
                  cost = λ h. elim p.cost [ inl q ↦ absurd (cc) | inr l ↦ inr l ];
                }
              ]))
    ]

    delete_reversed-Spent :
        (cfg : c.Config) (cs kept : List HelmComponentStatus) (before : Bool) (w : c.World)
        → L.Deleting w
        → Returns (delete_reversed c cfg cs kept before w) (λ r v. Spent before w r.1 v)
    unfolding delete_reversed
    delete_reversed-Spent cfg [] kept before w d = record {
      deleting = d;
      fewer = omega arith;
      cost = λ h. inl h;
    }
    delete_reversed-Spent cfg (component ∷ cs) kept before w d =
        bind-Returns (λ r v. Spent true w r.1 v) (λ r v. Spent before w r.1 v)
          (delete_one c cfg component) _ w (delete_one-Spent cfg component w d)
          (λ (component', clean) v s.
            Returns_map (λ r u. Spent (if clean then before else false) v r.1 u)
              (λ r u. Spent before w r.1 u) _
              (delete_reversed-Spent cfg cs _ (if clean then before else false) v s.deleting)
              (λ r u t. Spent-step before clean r.1 w v u s t))

    delete_loop-Spent :
        (cfg : c.Config) (cs : List HelmComponentStatus) (w : c.World)
        → L.Deleting w
        → Returns (delete_loop c cfg (length cs) cs true w) (λ r v. Spent true w r.1 v)
    delete_loop-Spent cfg cs w d =
        rw (delete_loop-refines c cfg cs w) (delete_reversed-Spent cfg (reverse cs) [] true w d)

    -- The deletion is finished, or is to be tried again with fewer failures left.
    abbrev pub Round : c.World → CtrlResult × Option GoError → c.World → Type 0
    Round w r v =
        ((r ≡ (finished, none)) × Released c v)
        ⊎ ((r ≡ (retry, none)) × L.Deleting v × (L.left v < L.left w))

    release_app-Round :
        (app : HelmApp) (all : Bool) (w v : c.World)
        → L.Deleting v
        → (all ≡ true) ⊎ (L.left v < L.left w)
        → Returns (release_app c app all v) (Round w)
    unfolding release_app ◌>>=◌
    release_app-Round app false w v d (inl h) = cc
    release_app-Round app false w v d (inr l) = inr (refl, d, l)
    release_app-Round app true w v d h =
        if_error-Returns (Round w) _ _ _ _ (λ x e. absurd (no_error (L.update _ v d) e))
          (λ e. inl (refl, (app, v, refl)))

    abbrev with_status : HelmApp → HelmAppStatus → HelmApp
    with_status app status = record app { status = some status }

    finish_delete-Round :
        (app : HelmApp) (status : HelmAppStatus) (all : Bool) (w v : c.World)
        → Spent true w all v
        → Returns (finish_delete c (with_status app status) all v) (Round w)
    unfolding finish_delete ◌>>=◌
    finish_delete-Round app status all w v s =
        if_error-Returns (Round w) _ _ _ _
          (λ x e. absurd (no_error (L.update_status _ _ v refl s.deleting).0 e))
          (λ e.
            let (none_failed, deleting, fewer) = L.update_status _ _ v refl s.deleting in
            release_app-Round _ all w _ deleting
              (elim (s.cost refl) [ inl h ↦ inl h | inr l ↦ inr (omega (arith, l, fewer)) ]))

    -- The loop leaves a status, and has spent failures if it could not clean up.
    record Emptied (app : HelmApp) (w : c.World) (r : HelmApp × Bool) (v : c.World) : Type 0 where
      rest : HelmAppStatus
      is_rest : r.0 ≡ with_status app rest
      spent : Spent true w r.1 v

    delete_components-Emptied :
        (app : HelmApp) (status : HelmAppStatus) (cfg : c.Config) (w : c.World)
        → L.Deleting w
        → Returns (delete_components c cfg (with_status app status) w) (Emptied app w)
    unfolding delete_components pure
    delete_components-Emptied app status cfg w d =
        bind-Returns (λ r v. Spent true w r.1 v) (Emptied app w)
          (delete_loop c cfg (length status.components) status.components true) _ w
          (delete_loop-Spent cfg status.components w d)
          (λ (cs, all) v s. record {
            rest = record status { components = cs };
            is_rest = refl;
            spent = s;
          })

    delete_with-Round :
        (app : HelmApp) (status : HelmAppStatus) (cfg : c.Config) (w : c.World)
        → L.Deleting w
        → Returns (delete_with c cfg (with_status app status) w) (Round w)
    unfolding delete_with
    delete_with-Round app status cfg w d =
        bind-Returns (Emptied app w) (Round w) (delete_components c cfg (with_status app status)) _
          w (delete_components-Emptied app status cfg w d)
          (λ (app', all) v r. rw r.is_rest (finish_delete-Round app r.rest all w v r.spent))

    pub Round-mono :
        (u w : c.World) (r : CtrlResult × Option GoError) (v : c.World)
        → L.left u ≤ L.left w
        → Round u r v
        → Round w r v
    Round-mono u w r v h (inl e) = inl e
    Round-mono u w r v h (inr (e, d, l)) = inr (e, d, omega (arith, h, l))

    reconcile_delete-Round :
        (app : HelmApp) (status : HelmAppStatus) (w : c.World)
        → L.Deleting w
        → Returns (reconcile_delete c (with_status app status) w) (Round w)
    unfolding reconcile_delete new_action_configuration ◌>>=◌ if_err if_error
    reconcile_delete-Round app status w d =
        let (client, up, d', fewer) = L.registry w d in
        let (ready, d'', fewer') = L.init (c.configuration client) app.meta.namespace _ d' in
        rw (up, ready)
          (Returns_map (Round _) (Round w) _ (delete_with-Round app status _ _ d'')
            (λ r v h. Round-mono _ w r v (omega (arith, fewer, fewer')) h))

    -- One deletion of a HelmApp that has a status.
    pub deletion-Round :
        (app : HelmApp) (status : HelmAppStatus) (w : c.World)
        → app.status ≡ some status
        → L.Deleting w
        → Returns (reconcile_delete c app w) (Round w)
    deletion-Round app status w e d =
        subst (λ o. Returns (reconcile_delete c (record app { status = o }) w) (Round w)) (sym e)
          (reconcile_delete-Round app status w d)
