-- ===== src/Controller/Uninstall.antt =====
-- `uninstallComponent` and `newActionConfiguration`.
use pluma_opeartor.Base.{String, Option, none, some, if◌then◌else◌}
use pluma_opeartor.Effects.{
  GoError, Result, ok, err, Action, pure, call, ◌>>=◌, is_release_not_found, errorf,
}
use pluma_opeartor.Cluster.{Cluster, Release}

-- `err != nil && !errors.Is(err, driver.ErrReleaseNotFound)`: the error that counts.
unfoldable pub other_error : Option GoError → Option GoError
other_error none = none
other_error (some e) = if is_release_not_found e then none else some e

module _ (c : Cluster) where
  unfoldable pub new_action_configuration : Action c.World (Result c.Config)
  unfolding ◌>>=◌
  new_action_configuration = do
    r ← call c.new_registry_client
    pure (elim r [
      | err e ↦ err (errorf "initializing new helm registry client: " e)
      | ok client ↦ ok (c.configuration client)
    ])

  -- Behind the two checks: a failure of the look-up, no release, or a release to uninstall.
  unfoldable pub uninstall_found :
      c.Config → String → Option GoError → Option Release → Action c.World (Option GoError)
  unfolding ◌>>=◌
  uninstall_found cfg name (some failure) release = pure (some failure)
  uninstall_found cfg name none none = pure none
  uninstall_found cfg name none (some release) = do
    e ← call (c.uninstall cfg name)
    pure (other_error e)

  unfoldable pub uninstall_component : c.Config → String → Action c.World (Option GoError)
  unfolding ◌>>=◌
  uninstall_component cfg name = do
    (release, e) ← call (c.get_release cfg name)
    uninstall_found cfg name (other_error e) release
