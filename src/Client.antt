-- ===== src/Client.antt =====
-- The typed client of HelmApps: apis/client/clientset/versioned/typed/operator/v1alpha1/helmapp.go.
-- Each method chains calls on a request of client-go's `rest.Interface` and sends it. A method here
-- is the sequence of its calls up to `Do` or `Watch`.
pub mod Fake
pub mod Requests
pub mod Timeout
pub mod Sets
use pluma_opeartor.Base.{ℕ, ◌*◌, ◌%◌, ◌^◌, String, Bool, true, Option, none, some, List, [], ◌∷◌}
use pluma_opeartor.Constants.{second}
use pluma_opeartor.Api.{HelmApp}

-- The fields of metav1.ListOptions that the clients look at, and the other ones. An int64 is its
-- bit pattern.
pub record ListOptions : Type 0 where
  pub label_selector : String
  pub field_selector : String
  pub timeout_seconds : Option ℕ
  pub watch : Bool
  pub others : String

-- The clients hand on the other options as they are.
pub data Options : Type 0 where
  get_options create_options update_options patch_options : String → Options
  list_options : ListOptions → Options

pub data Body : Type 0 where
  app_body : HelmApp → Body
  delete_options : String → Body
  patch_data : String → Body

pub data Call : Type 0 where
  get_call post_call put_call delete_call : Call
  patch_call : String → Call
  namespace_call resource_call name_call : String → Call
  sub_resource_call : List String → Call
  versioned_params : Options → Call
  timeout_call : ℕ → Call
  body_call : Body → Call

-- A call of `HelmAppInterface`.
pub data Method : Type 0 where
  get : String → String → Method
  list : ListOptions → Method
  watch : ListOptions → Method
  create : HelmApp → String → Method
  update : HelmApp → String → Method
  update_status : HelmApp → String → Method
  delete : String → String → Method
  delete_collection : String → ListOptions → Method
  patch : String → String → String → String → List String → Method

-- `time.Duration(*opts.TimeoutSeconds) * time.Second`, and 0 where there is none.
unfoldable pub list_timeout : ListOptions → ℕ
list_timeout opts = elim opts.timeout_seconds [
  | some seconds ↦ (seconds * second) % 2 ^ 64
  | none ↦ 0
]

-- `helmApps`, but for the REST client that sends the requests.
pub record HelmApps : Type 0 where
  pub ns : String

abbrev pub new_helm_apps : String → HelmApps
new_helm_apps namespace = record { ns = namespace }

module _ (c : HelmApps) where
  unfoldable pub get_request : String → String → List Call
  get_request name options =
      get_call
      ∷ namespace_call c.ns
      ∷ resource_call "helmapps"
      ∷ name_call name
      ∷ versioned_params (get_options options)
      ∷ []

  unfoldable pub list_request : ListOptions → List Call
  unfolding list_timeout
  list_request opts =
      get_call
      ∷ namespace_call c.ns
      ∷ resource_call "helmapps"
      ∷ versioned_params (list_options opts)
      ∷ timeout_call (list_timeout opts)
      ∷ []

  unfoldable pub watch_request : ListOptions → List Call
  unfolding list_timeout
  watch_request opts =
      get_call
      ∷ namespace_call c.ns
      ∷ resource_call "helmapps"
      ∷ versioned_params (list_options (record opts { watch = true }))
      ∷ timeout_call (list_timeout opts)
      ∷ []

  unfoldable pub create_request : HelmApp → String → List Call
  create_request app opts =
      post_call
      ∷ namespace_call c.ns
      ∷ resource_call "helmapps"
      ∷ versioned_params (create_options opts)
      ∷ body_call (app_body app)
      ∷ []

  unfoldable pub update_request : HelmApp → String → List Call
  update_request app opts =
      put_call
      ∷ namespace_call c.ns
      ∷ resource_call "helmapps"
      ∷ name_call app.meta.name
      ∷ versioned_params (update_options opts)
      ∷ body_call (app_body app)
      ∷ []

  unfoldable pub update_status_request : HelmApp → String → List Call
  update_status_request app opts =
      put_call
      ∷ namespace_call c.ns
      ∷ resource_call "helmapps"
      ∷ name_call app.meta.name
      ∷ sub_resource_call ("status" ∷ [])
      ∷ versioned_params (update_options opts)
      ∷ body_call (app_body app)
      ∷ []

  unfoldable pub delete_request : String → String → List Call
  delete_request name opts =
      delete_call
      ∷ namespace_call c.ns
      ∷ resource_call "helmapps"
      ∷ name_call name
      ∷ body_call (delete_options opts)
      ∷ []

  unfoldable pub delete_collection_request : String → ListOptions → List Call
  unfolding list_timeout
  delete_collection_request opts list_opts =
      delete_call
      ∷ namespace_call c.ns
      ∷ resource_call "helmapps"
      ∷ versioned_params (list_options list_opts)
      ∷ timeout_call (list_timeout list_opts)
      ∷ body_call (delete_options opts)
      ∷ []

  unfoldable pub patch_request : String → String → String → String → List String → List Call
  patch_request name patch_type data_ opts subresources =
      patch_call patch_type
      ∷ namespace_call c.ns
      ∷ resource_call "helmapps"
      ∷ name_call name
      ∷ sub_resource_call subresources
      ∷ versioned_params (patch_options opts)
      ∷ body_call (patch_data data_)
      ∷ []

  unfoldable pub request : Method → List Call
  unfolding get_request list_request watch_request create_request update_request
      update_status_request delete_request delete_collection_request patch_request
  request (get name opts) = get_request name opts
  request (list opts) = list_request opts
  request (watch opts) = watch_request opts
  request (create app opts) = create_request app opts
  request (update app opts) = update_request app opts
  request (update_status app opts) = update_status_request app opts
  request (delete name opts) = delete_request name opts
  request (delete_collection opts list_opts) = delete_collection_request opts list_opts
  request (patch name patch_type data_ opts subs) = patch_request name patch_type data_ opts subs
