-- ===== src/Tests/WebTools.antt =====
-- A concrete web, registry of images and driver values for the examples on the store drivers.
use artifact_controller.Prelude.{ℕ, String, true, false, none, some, [], ◌∷◌, ◌*◌}
use artifact_controller.Prelude.Int.{pos, second}
use artifact_controller.Prelude.Result.{ok}
use artifact_controller.Api.Json.{Value}
use artifact_controller.Api.ArtifactClass.{
  HttpAuthSpec, HttpAuthType, HttpRequestSpec, HttpStoreSpec, RepoManagerStoreSpec, ArtifactClass,
}
use artifact_controller.Web.{Web, Reply, Response, Outcome}
use artifact_controller.Store.Http.State.{HttpDriver}
use artifact_controller.Store.Ami.{AmiDriver}
use artifact_controller.Store.Oci.{OciDriver}
use artifact_controller.Store.Oci.Client.{Remote, MediaType, done}
use artifact_controller.Store.RepoManager.Driver.{Flavour, RepoDriver}
use artifact_controller.Store.S3.{Sdk, refused, answered}
use artifact_controller.Tests.Fixtures.{class}

-- A reply with a status and a body.
abbrev pub reply_of : ℕ → String → Reply
reply_of code body = record { code = code; headers = ("ETag", "v1") ∷ []; read = λ n. ok body }

-- Every request is answered with 200; the token of every exchange is "t", for an hour.
abbrev pub web : Web
web = record {
  base64 = λ s. s;
  query_escape = λ s. s;
  path_escape = λ s. s;
  encode_form = λ form. "form";
  canonical_header = λ name. name;
  check_request = λ method url. ok tt;
  execute_url = λ tmpl key. ok tmpl;
  unmarshal_any = λ body. ok Value.null;
  unmarshal_token = λ body. ok (record { access_token = "t"; expires_in = pos 3600 });
  unmarshal_storage = λ body. ok (record { sha256 = "d1"; properties = [] });
  unmarshal_assets = λ body. ok (record { id = "i"; path = "p"; sha256 = "d1" } ∷ []);
  unmarshal_images = λ body. ok (
      record {
        image_id = "ami-1";
        name = "image";
        state = "available";
        tags = [];
        snapshots = "snap-1" ∷ "" ∷ "snap-2" ∷ [];
      }
      ∷ []);
  unmarshal_failures = λ body. ok [];
  new_env = ok tt;
  Ast = String;
  Program = String;
  compile = λ e. ok e;
  program = λ a. ok a;
  eval = λ p r. ok (Outcome.text p);
  type_name = λ out. "T";
  format_value = λ out. "v";
  send = λ log r. ok (reply_of 200 "{}");
  secret = λ log name. ok (("token", "s") ∷ ("clientId", "a") ∷ ("clientSecret", "b") ∷ []);
  now = λ log. pos 0;
  AwsConfig = String;
  Credentials = String;
  load_aws_config = λ log region. ok region;
  retrieve = λ log cfg. ok cfg;
  sign_http = λ creds r hash service region now. ok r;
}

-- The client-credentials scheme, with the default names of the secret's keys.
abbrev pub client_auth : HttpAuthSpec
client_auth = record {
  type = HttpAuthType.client_credentials;
  secret_ref = some "creds";
  token_key = "";
  username_key = "";
  password_key = "";
  header_name = "";
  region = "";
  service = "";
  token_url = "https://id";
  client_id_key = "";
  client_secret_key = "";
  scopes = "read" ∷ [];
}

abbrev request : HttpRequestSpec
request = record { method = ""; url = "https://store"; headers = ("X-A", "1") ∷ [] }

-- A store whose stamp is read from the expression "sha256:h", under a key of its own.
abbrev pub http_spec : HttpStoreSpec
http_spec = record {
  observe = request;
  delete = some (record request { method = "DELETE" });
  exists = "";
  digest = "";
  stamp = "sha256:h";
  stamp_key = "x-own-stamp";
  auth = some client_auth;
  timeout = none;
}

abbrev pub http_driver : HttpDriver
http_driver = record { cfg = http_spec; timeout = pos (30 * second); has_secrets = true }

abbrev pub response : Response
response = record { code = 200; headers = ("etag", "v1") ∷ []; body = "{}"; json = Value.null }

-- A registry that has every tag as an image manifest, with a stamp among the labels.
abbrev pub remote : Remote
remote = record {
  new_repository = λ insecure s. ok s;
  new_tag = λ insecure s. ok s;
  new_digest = λ insecure s. ok s;
  unmarshal_annotations = λ manifest. ok (("Title", "a") ∷ []);
  get = λ log ref. done (record {
    digest = "sha256:d1";
    manifest = "{}";
    media_type = MediaType.oci_manifest_schema1;
    image = ok "image";
  });
  head = λ log ref. done "sha256:d1";
  delete = λ log ref. done tt;
  config_labels = λ log image. ok (("Stamp", "sha256:h") ∷ ("title", "b") ∷ []);
}

abbrev pub oci_driver : OciDriver
oci_driver = record { repo = "registry/repo"; insecure = false; stamp_anno = "stamp" }

abbrev pub ami_driver : AmiDriver
ami_driver = record {
  endpoint = "https://ec2";
  region = "eu-1";
  owner = "self";
  delete_snapshots = true;
}

abbrev pub repo_spec : RepoManagerStoreSpec
repo_spec = record {
  base_url = "https://nexus/";
  repository = "raw";
  secret_ref = some "creds";
  stamp_property_key = "";
  timeout = none;
}

abbrev pub repo_driver : RepoDriver
repo_driver = record {
  flavour = Flavour.nexus;
  cfg = repo_spec;
  timeout = pos (30 * second);
  auth = λ r. r;
  stamp_key = "artifact-spec-hash";
}

-- The class of the Nexus repository.
abbrev pub repo_class : ArtifactClass
repo_class = record class {
  store = record class.store { driver = "nexus"; repo_manager = some repo_spec };
}

-- An object store without objects.
abbrev pub sdk : Sdk
sdk = record {
  load_default_config = λ region. ok tt;
  head_object = λ log client bucket key. refused (record { text = ""; code = some "NotFound" });
  delete_object = λ log client bucket key. answered tt;
}
