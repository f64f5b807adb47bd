-- ===== src/Client/Sets/Limits.antt =====
-- The rate limiter of the clients of a client set.
use pluma_opeartor.Base.{
  true, false, ◌||◌, ◌≡◌, refl, ◌∙◌, ◌⊎◌, inl, inr, subst, Option, none, some, ◌==◌, is_some,
  Bool-cases,
}
use pluma_opeartor.Effects.{
  Result, ok, err, pure, call, ◌>>=◌, if_err, Returns, bind-Returns, Returns_map, if_err-Returns,
}
use pluma_opeartor.Client.Sets.{
  ClientGo, RestConfig, OperatorClient, Clientset, float_positive, int_not_positive,
  with_user_agent, set_config_defaults, operator_new_for_config_and_client, limit_rate,
  with_limiter, make_clients, new_for_config_and_client,
}

-- What is documented of client-go: a client made from a configuration that has a limiter uses that one.
pub record LimiterLaws {W : Type 0} (g : ClientGo W) : Type 0 where
  pub rest_limiter : g.RestClient → Option g.Limiter
  pub discovery_limiter : g.DiscoveryClient → Option g.Limiter
  pub rest_uses :
      (c : RestConfig g) (http : g.HttpClient) (w : W) (r : g.RestClient) (l : g.Limiter)
      → (g.rest_client_for c http w).0 ≡ ok r
      → c.rate_limiter ≡ some l
      → rest_limiter r ≡ some l
  pub discovery_uses :
      (c : RestConfig g) (http : g.HttpClient) (w : W) (d : g.DiscoveryClient) (l : g.Limiter)
      → (g.discovery_for c http w).0 ≡ ok d
      → c.rate_limiter ≡ some l
      → discovery_limiter d ≡ some l

-- A value has the property, and there may be an error instead.
abbrev pub OnOk : {A : Type 0} → (A → Type 0) → Result A → Type 0
OnOk P (ok a) = P a
OnOk P (err e) = Unit

OnOk-map :
    {A : Type 0} (P Q : A → Type 0) (r : Result A) → ((a : A) → P a → Q a) → OnOk P r → OnOk Q r
OnOk-map P Q (ok a) f h = f a h
OnOk-map P Q (err e) f h = tt

module _ {W : Type 0} (g : ClientGo W) where
  -- The limiter is the one that is given, or else a new one for the rate and the burst.
  abbrev pub Origin : W → Option g.Limiter → RestConfig g → g.Limiter → Type 0
  Origin w given c l =
      (given ≡ some l)
      ⊎ ((given ≡ none)
          × (int_not_positive c.burst ≡ false)
          × (l ≡ (g.new_limiter c.qps c.burst w).0))

  abbrev Limited : W → Option g.Limiter → RestConfig g → RestConfig g → Type 0
  Limited w given c config = (l : g.Limiter) × (config.rate_limiter ≡ some l) × Origin w given c l

  with_user_agent-rate_limiter :
      (c : RestConfig g) → (with_user_agent g c).rate_limiter ≡ c.rate_limiter
  with_user_agent-rate_limiter c = elim (Bool-cases (c.user_agent == "")) [
    | inl e ↦ rw e refl
    | inr e ↦ rw e refl
  ]

  set_config_defaults-rate_limiter :
      (c : RestConfig g) → (set_config_defaults g c).rate_limiter ≡ c.rate_limiter
  unfolding set_config_defaults
  set_config_defaults-rate_limiter c = with_user_agent-rate_limiter _

  limit_rate-Limited :
      (given : Option g.Limiter) (c : RestConfig g) (w : W)
      → c.rate_limiter ≡ given
      → (is_some given || float_positive c.qps) ≡ true
      → Returns (limit_rate g given c w) (λ r v. OnOk (Limited w given c) r)
  unfolding limit_rate ◌>>=◌
  limit_rate-Limited (some l) c w e h = (l, e, inl refl)
  limit_rate-Limited none c w e h = elim (Bool-cases (int_not_positive c.burst)) [
    | inl b ↦ rw (h, b) tt
    | inr b ↦ rw (h, b) (_, refl, inr (refl, b, refl))
  ]

module _ {W : Type 0} (g : ClientGo W) (L : LimiterLaws g) where
  abbrev pub UsesLimiter : g.Limiter → Clientset g → Type 0
  UsesLimiter l cs =
      (L.rest_limiter cs.operator_v1alpha1.rest_client ≡ some l)
      × (L.discovery_limiter cs.discovery_client ≡ some l)

  abbrev pub SharesLimiter : W → RestConfig g → Clientset g → Type 0
  SharesLimiter w c cs = (l : g.Limiter) × Origin g w c.rate_limiter c l × UsesLimiter l cs

  operator_client-limiter :
      (c : RestConfig g) (http : g.HttpClient) (l : g.Limiter) (w : W)
      → c.rate_limiter ≡ some l
      → Returns
          (operator_new_for_config_and_client g c http w)
          (λ r v. OnOk (λ o. L.rest_limiter o.rest_client ≡ some l) r)
  unfolding operator_new_for_config_and_client ◌>>=◌
  operator_client-limiter c http l w e =
      if_err-Returns (λ r v. OnOk (λ o. L.rest_limiter o.rest_client ≡ some l) r) _ _ _ _
        (λ x e'. tt)
        (λ r e'. L.rest_uses _ http w r l e' (set_config_defaults-rate_limiter g c ∙ e))

  discovery-limiter :
      (c : RestConfig g) (http : g.HttpClient) (l : g.Limiter) (o : OperatorClient g) (w : W)
      → c.rate_limiter ≡ some l
      → L.rest_limiter o.rest_client ≡ some l
      → Returns
          ((call (g.discovery_for c http) >>= λ discovery.
              if_err discovery
                (λ e. pure (err e))
                (λ d. pure (ok (record { discovery_client = d; operator_v1alpha1 = o }))))
            w)
          (λ r v. OnOk (UsesLimiter l) r)
  unfolding ◌>>=◌
  discovery-limiter c http l o w e h =
      if_err-Returns (λ r v. OnOk (UsesLimiter l) r) _ _ _ _ (λ x e'. tt)
        (λ d e'. (h, L.discovery_uses c http w d l e' e))

  make_clients-limiter :
      (c : RestConfig g) (http : g.HttpClient) (l : g.Limiter) (w : W)
      → c.rate_limiter ≡ some l
      → Returns (make_clients g c http w) (λ r v. OnOk (UsesLimiter l) r)
  unfolding make_clients pure
  make_clients-limiter c http l w e =
      bind-Returns (λ r v. OnOk (λ o. L.rest_limiter o.rest_client ≡ some l) r)
        (λ r v. OnOk (UsesLimiter l) r) (operator_new_for_config_and_client g c http) _ w
        (operator_client-limiter c http l w e)
        (λ r v h.
          if_err-Returns (λ r' u. OnOk (UsesLimiter l) r') r _ _ v (λ x e'. tt)
            (λ o e'.
              discovery-limiter c http l o v e
                (subst (OnOk (λ o'. L.rest_limiter o'.rest_client ≡ some l)) e' h)))

  -- A configuration that has a limiter or a positive rate: making a client set of it returns, and
  -- if it gives one, its two clients use the same limiter, which is that of the configuration,
  -- or, if there is none, the new one for the rate and the burst, which is then positive. The
  -- documented law of client-go is assumed, that a client uses the limiter of its configuration.
  pub clients_share_limiter :
      (c : RestConfig g) (http : g.HttpClient) (w : W)
      → (is_some c.rate_limiter || float_positive c.qps) ≡ true
      → Returns (new_for_config_and_client g c http w) (λ r v. OnOk (SharesLimiter w c) r)
  unfolding new_for_config_and_client with_limiter pure
  clients_share_limiter c http w h =
      bind-Returns (λ r v. OnOk (Limited g w c.rate_limiter c) r) _ (with_limiter g c) _ w
        (limit_rate-Limited g c.rate_limiter c w refl h)
        (λ r v k.
          if_err-Returns (λ r' u. OnOk (SharesLimiter w c) r') r _ _ v (λ x e. tt)
            (λ config e.
              let (l, limited, origin) = subst (OnOk (Limited g w c.rate_limiter c)) e k in
              Returns_map (λ r' u. OnOk (UsesLimiter l) r') (λ r' u. OnOk (SharesLimiter w c) r') _
                (make_clients-limiter config http l v limited)
                (λ r' u.
                  OnOk-map (UsesLimiter l) (SharesLimiter w c) r' (λ cs uses. (l, origin, uses)))))
