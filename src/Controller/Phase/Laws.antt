-- ===== src/Controller/Phase/Laws.antt =====
-- What the phase of a HelmApp says of its component statuses.
use pluma_opeartor.Base.{
  ◌≡◌, ◌≢◌, ◌↔◌, ◌⊎◌, true, List, [], ◌∷◌, eq_iff, arith, All, inl, inr, Bool-cases,
}
use pluma_opeartor.Api.{HelmApp, HelmComponentStatus, reconciling, succeeded, failed}
use pluma_opeartor.Cluster.{Cluster}
use pluma_opeartor.Controller.Phase.{
  Flags, no_status, note_status, scan_statuses, overall, calculate_overall_phase, IsDeployed,
  HasFailed,
}

module _ (c : Cluster) where
  -- The loop records a failure exactly if there was one before or the list has one.
  scan_statuses-has_failure :
      (f : Flags) (statuses : List HelmComponentStatus)
      → ((scan_statuses c f statuses).has_failure ≡ true)
        ↔ ((f.has_failure ≡ true) ⊎ HasFailed c statuses)
  unfolding scan_statuses note_status
  scan_statuses-has_failure f [] = ground arith
  scan_statuses-has_failure f (s ∷ statuses) = ground (
    arith,
    scan_statuses-has_failure (note_status c f s) statuses,
    eq_iff s.status c.status_failed,
  )

  -- Without a failure in the list, the other flag stays up exactly if all are deployed.
  scan_statuses-all_deployed :
      c.status_failed ≢ c.status_deployed
      → (f : Flags) (statuses : List HelmComponentStatus) → ¬ HasFailed c statuses
      → ((scan_statuses c f statuses).all_deployed ≡ true)
        ↔ ((f.all_deployed ≡ true) × All (IsDeployed c) statuses)
  unfolding scan_statuses note_status
  scan_statuses-all_deployed d f [] n = ground arith
  scan_statuses-all_deployed d f (s ∷ statuses) n = ground (
    arith,
    scan_statuses-all_deployed d (note_status c f s) statuses (λ h. n (inr h)),
    eq_iff s.status c.status_failed,
    eq_iff s.status c.status_deployed,
  )

  failed-not-IsDeployed :
      c.status_failed ≢ c.status_deployed
      → (statuses : List HelmComponentStatus) → HasFailed c statuses
      → ¬ All (IsDeployed c) statuses
  failed-not-IsDeployed d [] h a = h
  failed-not-IsDeployed d (s ∷ statuses) (inl e) a = d (cc)
  failed-not-IsDeployed d (s ∷ statuses) (inr h) a = failed-not-IsDeployed d statuses h a.1

-- The three verdicts, from what the flags stand for.
overall_lem :
    {F D : Type 0} (f : Flags)
    → ((f.has_failure ≡ true) ↔ F)
    → (¬ F → (f.all_deployed ≡ true) ↔ D)
    → (F → ¬ D)
    → ((overall f ≡ failed) ↔ F)
      × ((overall f ≡ succeeded) ↔ D)
      × ((overall f ≡ reconciling) ↔ ((¬ F) × (¬ D)))
unfolding overall
overall_lem {F} {D} f h k x = elim (Bool-cases f.has_failure) [
  | inl e ↦
      let i : F = h.0 e in
      (
        (λ _. i, λ _. rw e),
        (λ p. absurd (ground arith), λ d. absurd (x i d)),
        (λ p. absurd (ground arith), λ n. absurd (n.0 i)),
      )
  | inr e ↦
      let n : ¬ F = λ i. ground (arith, h.1 i) in
      elim (Bool-cases f.all_deployed) [
        | inl g ↦ (
          (λ p. absurd (ground arith), λ i. absurd (n i)),
          (λ p. (k n).0 g, λ d. rw (e, g)),
          (λ p. absurd (ground arith), λ m. absurd (m.1 ((k n).0 g))),
        )
        | inr g ↦
            let m : ¬ D = λ d. ground (arith, (k n).1 d) in
            (
              (λ p. absurd (ground arith), λ i. absurd (n i)),
              (λ p. absurd (ground arith), λ d. absurd (m d)),
              (λ p. (n, m), λ q. rw (e, g)),
            )
      ]
]

module _ (c : Cluster) (distinct : c.status_failed ≢ c.status_deployed) where
  started :
      (statuses : List HelmComponentStatus)
      → ((scan_statuses c no_status statuses).has_failure ≡ true) ↔ HasFailed c statuses
  started statuses = ground (arith, scan_statuses-has_failure c no_status statuses)

  -- The phase of an app that is not being deleted and has a component status is FAILED exactly if a
  -- status is a failure, SUCCEEDED exactly if every status is deployed, and RECONCILING exactly if
  -- neither holds, provided that Helm's words for the two states differ.
  pub phase_verdict :
      (app : HelmApp) (s : HelmComponentStatus) (statuses : List HelmComponentStatus)
      → c.is_zero app.meta.deletion_timestamp ≡ true
      → let p = calculate_overall_phase c app (s ∷ statuses) in
        ((p ≡ failed) ↔ HasFailed c (s ∷ statuses))
        × ((p ≡ succeeded) ↔ All (IsDeployed c) (s ∷ statuses))
        × ((p ≡ reconciling)
            ↔ ((¬ HasFailed c (s ∷ statuses)) × (¬ All (IsDeployed c) (s ∷ statuses))))
  unfolding calculate_overall_phase
  phase_verdict app s statuses z = rw z (
      overall_lem (scan_statuses c no_status (s ∷ statuses)) (started (s ∷ statuses))
        (λ n. grind (arith, scan_statuses-all_deployed c distinct no_status (s ∷ statuses) n))
        (failed-not-IsDeployed c distinct (s ∷ statuses)))
