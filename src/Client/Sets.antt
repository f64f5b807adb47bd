-- ===== src/Client/Sets.antt =====
-- How the clients are made: apis/client/clientset/versioned/clientset.go, and operator_client.go of
-- typed/operator/v1alpha1, whose functions bear `operator` here. A pointer that may be nil is an
-- `Option`.
pub mod Limits
use pluma_opeartor.Base.{
  ℕ, ◌^◌, String, Bool, true, false, not, ◌&&◌, Option, none, some, ◌==◌, ltb, if◌then◌else◌,
}
use pluma_opeartor.Effects.{
  GoError, plain, Result, ok, err, Action, pure, panic, call, ◌>>=◌, if_err,
}
use pluma_opeartor.Client.{HelmApps, new_helm_apps}

-- The fields of rest.Config that the code reads or writes, and the other ones. `qps`, a float32, and
-- `burst`, an int, are bit patterns.
pub record Config (Limiter Serializer : Type 0) : Type 0 where
  pub user_agent : String
  pub qps : ℕ
  pub burst : ℕ
  pub rate_limiter : Option Limiter
  pub group_version : Option (String × String)
  pub api_path : String
  pub negotiated_serializer : Option Serializer
  pub others : String

-- What the code takes from client-go. A limiter is an object with a state, so making one is a step.
pub record ClientGo (W : Type 0) : Type 1 where
  pub HttpClient : Type 0
  pub RestClient : Type 0
  pub DiscoveryClient : Type 0
  pub Limiter : Type 0
  pub Serializer : Type 0
  pub default_user_agent : String
  pub without_conversion : Serializer
  pub new_limiter : ℕ → ℕ → W → Limiter × W
  pub http_client_for : Config Limiter Serializer → W → Result HttpClient × W
  pub rest_client_for : Config Limiter Serializer → HttpClient → W → Result RestClient × W
  pub discovery_for : Config Limiter Serializer → HttpClient → W → Result DiscoveryClient × W
  pub new_discovery : RestClient → DiscoveryClient

-- `x > 0` of a float32: the sign is not set, and it is neither 0 nor NaN.
unfoldable pub float_positive : ℕ → Bool
float_positive x = ltb 0 x && ltb x 2_139_095_041

-- `x <= 0` of an int
unfoldable pub int_not_positive : ℕ → Bool
int_not_positive x = not (ltb 0 x && ltb x (2 ^ 63))

abbrev pub burst_required : GoError
burst_required = record {
  kind = plain;
  message =
      "burst is required to be greater than 0 when RateLimiter is not set and QPS is set to greater than 0";
}

-- `NewForConfigOrDie` of either package
unfoldable pub or_die : {W A : Type 0} → Result A → Action W A
or_die (ok a) = pure a
or_die (err e) = panic

module _ {W : Type 0} (g : ClientGo W) where
  abbrev pub RestConfig : Type 0
  RestConfig = Config g.Limiter g.Serializer

  pub record OperatorClient : Type 0 where
    pub rest_client : g.RestClient

  pub record Clientset : Type 0 where
    pub discovery_client : g.DiscoveryClient
    pub operator_v1alpha1 : OperatorClient

  abbrev with_user_agent : RestConfig → RestConfig
  with_user_agent c =
      if c.user_agent == "" then record c { user_agent = g.default_user_agent } else c

  -- It never gives an error.
  unfoldable pub set_config_defaults : RestConfig → RestConfig
  set_config_defaults c = with_user_agent (record c {
    group_version = some ("operator.pluma.io", "v1alpha1");
    api_path = "/apis";
    negotiated_serializer = some g.without_conversion;
  })

  abbrev pub operator_new : g.RestClient → OperatorClient
  operator_new client = record { rest_client = client }

  unfoldable pub operator_new_for_config_and_client :
      RestConfig → g.HttpClient → Action W (Result OperatorClient)
  unfolding set_config_defaults
  operator_new_for_config_and_client c http =
      call (g.rest_client_for (set_config_defaults c) http) >>= λ client.
      if_err client (λ e. pure (err e)) (λ r. pure (ok (record { rest_client = r })))

  unfoldable pub operator_new_for_config : RestConfig → Action W (Result OperatorClient)
  unfolding set_config_defaults operator_new_for_config_and_client
  operator_new_for_config c =
      let config = set_config_defaults c in
      call (g.http_client_for config) >>= λ http.
      if_err http (λ e. pure (err e)) (operator_new_for_config_and_client config)

  unfoldable pub operator_new_for_config_or_die : RestConfig → Action W OperatorClient
  operator_new_for_config_or_die c = operator_new_for_config c >>= or_die

  abbrev pub rest_client_of : Option OperatorClient → Option g.RestClient
  rest_client_of none = none
  rest_client_of (some c) = some c.rest_client

  -- `HelmApps(namespace)`: the REST client of `c`, and the client over it.
  abbrev pub helm_apps_over : Option OperatorClient → String → Option g.RestClient × HelmApps
  helm_apps_over c namespace = (rest_client_of c, new_helm_apps namespace)

  -- The limiter that the shallow copy of the configuration gets, if it needs one.
  unfoldable pub limit_rate : Option g.Limiter → RestConfig → Action W (Result RestConfig)
  limit_rate (some limiter) c = pure (ok c)
  limit_rate none c =
      if float_positive c.qps
      then (if int_not_positive c.burst
          then pure (err burst_required)
          else (call (g.new_limiter c.qps c.burst) >>= λ l.
              pure (ok (record c { rate_limiter = some l }))))
      else pure (ok c)

  unfoldable pub with_limiter : RestConfig → Action W (Result RestConfig)
  unfolding limit_rate
  with_limiter c = limit_rate c.rate_limiter c

  -- `NewForConfigAndClient` behind the limiter
  unfoldable pub make_clients : RestConfig → g.HttpClient → Action W (Result Clientset)
  make_clients c http = operator_new_for_config_and_client c http >>= λ made.
      if_err made (λ e. pure (err e))
        (λ operator. call (g.discovery_for c http) >>= λ discovery.
          if_err discovery (λ e. pure (err e))
            (λ d. pure (ok (record { discovery_client = d; operator_v1alpha1 = operator }))))

  unfoldable pub new_for_config_and_client : RestConfig → g.HttpClient → Action W (Result Clientset)
  unfolding with_limiter make_clients
  new_for_config_and_client c http = with_limiter c >>= λ limited.
      if_err limited (λ e. pure (err e)) (λ config. make_clients config http)

  unfoldable pub new_for_config : RestConfig → Action W (Result Clientset)
  unfolding new_for_config_and_client
  new_for_config c =
      let config = with_user_agent c in
      call (g.http_client_for config) >>= λ http.
      if_err http (λ e. pure (err e)) (new_for_config_and_client config)

  unfoldable pub new_for_config_or_die : RestConfig → Action W Clientset
  unfolding new_for_config
  new_for_config_or_die c = new_for_config c >>= or_die

  abbrev pub new : g.RestClient → Clientset
  new client = record {
    discovery_client = g.new_discovery client;
    operator_v1alpha1 = operator_new client;
  }

  abbrev pub operator_v1alpha1_of : Clientset → OperatorClient
  operator_v1alpha1_of cs = cs.operator_v1alpha1

  abbrev pub discovery_of : Option Clientset → Option g.DiscoveryClient
  discovery_of none = none
  discovery_of (some cs) = some cs.discovery_client
