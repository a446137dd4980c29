-- ===== src/Examples/Cluster.antt =====
-- A cluster for tests beside the server of the small world: the Secret of the certificate is there
-- from the time 5.
use kmp_issuer.Base.{
  ℕ, suc, false, [], ◌∷◌, none, some, ok, err, map_ok, if◌then◌else◌, ltb, pos, ℤ,
}
use kmp_issuer.Text.{codes, str_eq}
use kmp_issuer.Api.Issuers.{SigningSpec, IssuerSpec, KmpIssuer}
use kmp_issuer.Api.Certificates.{
  KmpCertificateSpec, KmpCertificateStatus, KmpCertificate, Condition, condition_true,
}
use kmp_issuer.Cluster.Access.{not_found, Secret, Cluster, Library}
use kmp_issuer.Client.Config.{Net}
use kmp_issuer.Adapter.{builders}
use kmp_issuer.Reconciler.{Reconciler}
use kmp_issuer.Examples.Equality.{status_eq}
use kmp_issuer.Examples.World.{platform, key_platform, server, clock, leaf, kmp_url}

abbrev pub whole : ℤ → ℤ
whole d = d

abbrev pub net : Net
net = record { parse_url = λ s. ok kmp_url; append_certs = λ s. false }

abbrev pub signing_spec : SigningSpec
signing_spec = record {
  sign_type = [];
  server_name = codes "ca-host";
  ca_name = codes "ca";
  template_name = codes "web";
  agent_name = [];
  agent_response_timeout_seconds = none;
  root_certificate_common_name = [];
  root_certificate_serial_number = [];
  validity_days = none;
  is_intermediate = none;
  email = [];
  csr_lookup_operation = codes "listCSR";
}

abbrev pub issuer_spec : IssuerSpec
issuer_spec = record {
  url = codes "https://kmp/";
  auth_secret_name = codes "auth";
  signing = signing_spec;
  insecure_skip_tls_verify = false;
  request_timeout = none;
}

abbrev pub kmp : KmpIssuer
kmp = record { namespace = codes "ns"; name = codes "kmp"; spec = issuer_spec }

abbrev pub auth_secret : Secret
auth_secret = record {
  namespace = codes "ns";
  name = codes "auth";
  secret_type = codes "Opaque";
  contents = (codes "authtoken", codes "token") ∷ [];
  owner = none;
}

abbrev pub tls_secret : Secret
tls_secret = record {
  namespace = codes "ns";
  name = codes "tls";
  secret_type = codes "kubernetes.io/tls";
  contents = (codes "tls.crt", codes "lr") ∷ (codes "tls.key", codes "k") ∷ [];
  owner = some (codes "web");
}

abbrev pub web_spec : KmpCertificateSpec
web_spec = record {
  secret_name = codes "tls";
  issuer_ref = record { name = codes "kmp"; kind = [] };
  common_name = codes "A.b";
  dns_names = codes "a.b" ∷ [];
  ip_addresses = [];
  subject = record {
    organization = [];
    organizational_unit = [];
    locality = [];
    province = [];
    country = [];
  };
  private_key = record {
    algorithm = codes "RSA";
    size = some (pos 2048);
    signature_algorithm = [];
    store_type = [];
  };
  validity_days = none;
  validity_type = [];
  renew_before = none;
  key_store_password_secret_ref = none;
}

abbrev pub new_status : KmpCertificateStatus
new_status = record {
  conditions = [];
  serial_number = [];
  csr_id = [];
  not_before = none;
  not_after = none;
  renewal_time = none;
}

abbrev pub web : KmpCertificate
web = record {
  namespace = codes "ns";
  name = codes "web";
  generation = pos 1;
  is_deleted = false;
  spec = web_spec;
  status = new_status;
}

abbrev pub ready : Condition
ready = record {
  condition_type = codes "Ready";
  status = condition_true;
  observed_generation = pos 1;
  last_transition_time = 3;
  reason = codes "Issued";
  message = codes "The Secret holds a current certificate";
}

-- A certificate as an earlier run left it.
abbrev pub kept_web : KmpCertificate
kept_web = record web { status = record new_status { conditions = ready ∷ [] } }

abbrev pub cluster : KmpCertificate → Cluster ℕ
cluster certificate = record {
  get_certificate = λ name s. (ok certificate, s);
  get_issuer = λ name s. (ok (record kmp { namespace = name.namespace }), s);
  get_cluster_issuer = λ name s. (err (not_found []), s);
  get_secret = λ name s. (
    if str_eq name.name (codes "auth")
        then ok auth_secret
        else if ltb 4 s
        then ok tls_secret
        else err (not_found []),
    s,
  );
  create_or_update = λ name fill s. (map_ok (λ _. tt) (fill tls_secret), suc s);
  update_status = λ certificate s. (ok tt, suc s);
  event = λ kind reason message s. s;
  random = λ s. (ok (codes "seed"), s);
}

abbrev pub library : Library
library = record {
  split_chain = λ chain. ok (chain, codes "r");
  decode_chain = λ chain. ok (leaf ∷ []);
  set_owner = λ certificate secret. ok (record secret { owner = some certificate.name });
  deep_equal = status_eq;
  base64_url = λ s. s;
  rfc3339 = λ t. [];
}

abbrev pub reconciler : KmpCertificate → Reconciler ℕ
reconciler certificate = record {
  platform = platform;
  cluster = cluster certificate;
  library = library;
  builders = builders platform key_platform net server clock whole;
  cluster_resource_namespace = codes "cert-manager";
  clock = none;
  time_now = λ s. s;
}
