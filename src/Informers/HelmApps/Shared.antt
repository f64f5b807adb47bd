-- ===== src/Informers/HelmApps/Shared.antt =====
-- That all ways to the informer of HelmApps lead to one, and what that informer reads.
use pluma_opeartor.Base.{ℕ, String, false, ◌≡◌, refl, ap, inl, inr, some, Bool-cases}
use pluma_opeartor.Base.Dict
use pluma_opeartor.Effects.{Result, ok, err}
use pluma_opeartor.Client.{ListOptions, request}
use pluma_opeartor.Client.Fake.{Resource, helmapps_resource}
use pluma_opeartor.Client.Requests.{Verb, list_verb, watch_verb, Operation, nothing_set, asked}
use pluma_opeartor.Informers.{
  Cache, Factory, new_filtered_factory, new_factory_with_options, apply_options, apply_option,
  informer_for, resync_period,
}
use pluma_opeartor.Informers.Once.{informer_for_again}
use pluma_opeartor.Informers.HelmApps.{
  ListWatch, list_watch, new_filtered_informer, SharedCache, Access, GenericInformer, operator,
  v1alpha1, helm_apps_of, same_resource, default_informer, informer, lister, for_resource,
  generic_lister,
}

-- The operation on the HelmApps of a namespace that some options select.
abbrev pub selection : Verb → String → ListOptions → Operation
selection verb namespace options = record nothing_set {
  verb = some verb;
  namespace = namespace;
  resource = "helmapps";
  label_selector = options.label_selector;
  field_selector = options.field_selector;
}

module _ {c : Cache} (s : SharedCache c) where
  abbrev typed : Factory c → Access c
  typed f = helm_apps_of (v1alpha1 (operator f))

  -- What there is after `ForResource`.
  abbrev pub SharesInformer :
      (Resource → String) → Resource → Factory c → Result (GenericInformer c) × Factory c → Type 0
  SharesInformer show r f (ok g, f') =
      (informer s (helm_apps_of (v1alpha1 (operator f'))) f' ≡ (g.informer, f'))
      × (lister s (helm_apps_of (v1alpha1 (operator f'))) f' ≡ ((generic_lister s g).0, f'))
      × (for_resource s show r f' ≡ (ok g, f'))
  SharesInformer show r f (err e, f') = (same_resource r helmapps_resource ≡ false) × (f' ≡ f)

  informer_again :
      (a b : Access c) (f : Factory c) → informer s b (informer s a f).1 ≡ informer s a f
  unfolding informer
  informer_again a b f = informer_for_again _ (default_informer s a) (default_informer s b) f

  lister_again :
      (a b : Access c) (f : Factory c)
      → lister s b (informer s a f).1 ≡ (s.get_indexer (informer s a f).0, (informer s a f).1)
  unfolding lister
  lister_again a b f = ap (λ r. (s.get_indexer r.0, r.1)) (informer_again a b f)

  -- `ForResource` of any resource, on any factory. If it gives a generic informer, the factory then
  -- hands out the same informer to `Operator().V1alpha1().HelmApps()`, whose lister reads the
  -- index of the generic one, and to another `ForResource`, and none of these changes the factory.
  -- Otherwise the resource is not that of the HelmApps, and the factory is as before.
  pub for_resource-SharesInformer :
      (show : Resource → String) (r : Resource) (f : Factory c)
      → SharesInformer show r f (for_resource s show r f)
  unfolding for_resource
  for_resource-SharesInformer show r f = elim (Bool-cases (same_resource r helmapps_resource)) [
    | inl e ↦ rw e (
      informer_again (typed f) _ f,
      lister_again (typed f) _ f,
      rw e (
          ap (λ p. (ok (record { informer = p.0; group = r.group; resource = r.resource }), p.1))
            (informer_again (typed f) _ f)),
    )
    | inr e ↦ rw e (e, refl)
  ]

  -- The informer lists and watches the HelmApps of a namespace through a client, and selects them by
  -- the options that the tweak makes of what it is called with.
  pub record ReadsHelmApps (client : c.Client) (namespace : String) (tweak : c.Tweak) (resync : ℕ)
      (i : c.Informer) : Type 0 where
    pub reads : ListWatch c
    pub made : i ≡ s.new_shared_index_informer reads resync s.namespace_indexers
    pub list_client : (options : ListOptions) → (reads.list_func options).client ≡ client
    pub watch_client : (options : ListOptions) → (reads.watch_func options).client ≡ client
    pub list_asks :
        (options : ListOptions)
        → (s.tweak tweak options).watch ≡ false
        → asked (request (reads.list_func options).helm_apps (reads.list_func options).method)
          ≡ selection list_verb namespace (s.tweak tweak options)
    pub watch_asks :
        (options : ListOptions)
        → asked (request (reads.watch_func options).helm_apps (reads.watch_func options).method)
          ≡ selection watch_verb namespace (s.tweak tweak options)

  -- From a new factory for a namespace and a tweak, `ForResource` gives a generic informer of HelmApps.
  -- It is made with the factory's resync period and lists and watches through the factory's client.
  -- On the API server, its list, if the tweaked options do not ask for a watch, is a list, and its
  -- watch is a watch in any case, both of the HelmApps of that namespace that the tweaked options
  -- select.
  pub filtered_factory-ReadsHelmApps :
      (show : Resource → String) (client : c.Client) (resync : ℕ) (namespace : String)
      (tweak : c.Tweak)
      → (g : GenericInformer c) × (f : Factory c) × (for_resource s show helmapps_resource
            (new_filtered_factory client resync namespace tweak)
          ≡ (ok g, f))
        × ReadsHelmApps client namespace tweak resync g.informer
  unfolding for_resource informer informer_for resync_period default_informer new_filtered_informer
      list_watch asked request new_filtered_factory new_factory_with_options apply_options
      apply_option Dict.lookup
  filtered_factory-ReadsHelmApps show client resync namespace tweak = (
    _,
    _,
    refl,
    record {
      reads = list_watch s client namespace (some tweak);
      made = refl;
      list_client = λ options. refl;
      watch_client = λ options. refl;
      list_asks = λ options h. rw h refl;
      watch_asks = λ options. refl;
    },
  )
