-- ===== src/Client/Requests.antt =====
-- What a request of the client asks of the API server.
use pluma_opeartor.Base.{String, Option, none, some, List, [], ◌∷◌, ◌++◌, if◌then◌else◌}
use pluma_opeartor.Api.{HelmApp}
use pluma_opeartor.Client.{
  ListOptions, list_options, app_body, patch_data, Call, get_call, post_call, put_call, delete_call,
  patch_call, namespace_call, resource_call, name_call, sub_resource_call, versioned_params,
  timeout_call, body_call,
}

-- The API server's verbs.
pub data Verb : Type 0 where
  get_verb list_verb watch_verb create_verb update_verb patch_verb delete_verb
        delete_collection_verb :
      Verb

-- An operation of the API on a resource, less the options that only tune it.
pub record Operation : Type 0 where
  pub verb : Option Verb
  pub namespace : String
  pub resource : String
  pub name : Option String
  pub subresources : List String
  pub label_selector : String
  pub field_selector : String
  pub app : Option HelmApp
  pub patch_type : String
  pub patch_data : String

-- A request before any call: none of its parts is set.
abbrev pub nothing_set : Operation
nothing_set = record {
  verb = none;
  namespace = "";
  resource = "";
  name = none;
  subresources = [];
  label_selector = "";
  field_selector = "";
  app = none;
  patch_type = "";
  patch_data = "";
}

-- Of a GET and of a DELETE, the server's verb is about one object if the request names one. A GET
-- of several objects with `watch` set is a watch.
abbrev select : ListOptions → Operation → Operation
select opts o = record o {
  verb = elim o.verb [
    | some list_verb ↦ some (if opts.watch then watch_verb else list_verb)
    | v ↦ v
  ];
  label_selector = opts.label_selector;
  field_selector = opts.field_selector;
}

abbrev singular : Option Verb → Option Verb
singular (some list_verb) = some get_verb
singular (some delete_collection_verb) = some delete_verb
singular v = v

-- How client-go and the API server read the calls of a request, one after the other.
abbrev read_call : Call → Operation → Operation
read_call get_call o = record o { verb = some list_verb }
read_call post_call o = record o { verb = some create_verb }
read_call put_call o = record o { verb = some update_verb }
read_call delete_call o = record o { verb = some delete_collection_verb }
read_call (patch_call t) o = record o { verb = some patch_verb; patch_type = t }
read_call (namespace_call ns) o = record o { namespace = ns }
read_call (resource_call r) o = record o { resource = r }
read_call (name_call n) o = record o { name = some n; verb = singular o.verb }
read_call (sub_resource_call subs) o = record o { subresources = o.subresources ++ subs }
read_call (versioned_params (list_options opts)) o = select opts o
read_call (versioned_params _) o = o
read_call (timeout_call t) o = o
read_call (body_call (app_body a)) o = record o { app = some a }
read_call (body_call (patch_data d)) o = record o { patch_data = d }
read_call (body_call _) o = o

abbrev read_calls : List Call → Operation → Operation
read_calls [] o = o
read_calls (c ∷ calls) o = read_calls calls (read_call c o)

-- The operation that a request asks for.
unfoldable pub asked : List Call → Operation
asked calls = read_calls calls nothing_set
