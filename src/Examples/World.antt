-- ===== src/Examples/World.antt =====
-- A platform and a server for tests: documents are numbered, a PEM block is one letter, and the
-- server answers each operation with one document.
use kmp_issuer.Base.{
  ℕ, ◌+◌, arith, false, List, [], ◌∷◌, Option, none, some, Result, ok, err, if◌then◌else◌, ◌==◌,
  ltb, pos, leb,
}
use mathlib.Core.Option.{none-ne-some}
use native.Mathlib.Nat.{le_refl}
use kmp_issuer.Text.{Bytes, codes, Unicode, str_eq}
use kmp_issuer.Json.{Json, obj, arr, str, num, whole, Fields, field, end, cons, nil}
use kmp_issuer.X509.{
  Certificate, CertificateRequest, Platform, Block, comparable, DecodesShorter, Subject,
}
use kmp_issuer.Client.Call.{Url, over_tls, Client, Server, answered}
use kmp_issuer.PrivateKey.Pem.{Key, KeyPlatform}
use kmp_issuer.Signer.Options.{Signer, SigningOptions}
use kmp_issuer.Signer.Fetch.{Clock}
use kmp_issuer.Signer.Fetch.Laws.{IsMonotonic}
use kmp_issuer.Signer.Resolve.{Request}

abbrev pub plain_unicode : Unicode
plain_unicode = record { lower = λ s. s; fold_eq = str_eq; quote = λ s. s }

abbrev pub imported_doc : Json
imported_doc = obj (field (codes "status") (str (codes "success")) end)

abbrev pub record_fields : ℕ → Fields
record_fields id =
    field (codes "commonName") (str (codes "a.b"))
      (field (codes "CSR_ID") (num (whole (pos id))) end)

abbrev pub list_doc : Json
list_doc = arr (cons (obj (record_fields 3)) (cons (obj (record_fields 7)) nil))

abbrev pub signed_doc : Json
signed_doc = obj (
    field (codes "commonName") (str (codes "a.b"))
      (field (codes "serialNumber") (str (codes "5")) end))

abbrev pub certificates_text : Bytes
certificates_text = codes "-----BEGIN-l-----BEGIN-r"

abbrev pub certificates_doc : Json
certificates_doc = obj (field (codes "pem") (str certificates_text) end)

abbrev pub decode : Bytes → Result Bytes Json
decode [] = err (codes "empty")
decode (c ∷ s) =
    if c == 1
    then ok imported_doc
    else if c == 2
    then ok list_doc
    else if c == 3
    then ok signed_doc
    else if c == 4
    then ok certificates_doc
    else if c == 5
    then ok (obj end)
    else if c == 6
    then ok (str (codes "-----BEGIN-k"))
    else err (codes "not a document")

abbrev pub block_of : ℕ → Block
block_of c = record {
  block_type =
      if c == b'k'
      then codes "PRIVATE KEY"
      else if c == b'R'
      then codes "CERTIFICATE REQUEST"
      else if leb b'a' c
      then codes "CERTIFICATE"
      else codes "OTHER";
  headers = [];
  bytes = c ∷ [];
}

abbrev pub decode_block : Bytes → Option (Block × Bytes)
decode_block [] = none
decode_block (c ∷ s) = some (block_of c, s)

abbrev pub subject_of : Bytes → Subject
subject_of name = record { common_name = name; organization = []; organizational_unit = [] }

abbrev pub cert : Bytes → Bytes → Bytes → Certificate
cert raw issuer name = record {
  raw = raw;
  raw_subject = raw;
  raw_issuer = issuer;
  subject = subject_of name;
  dns_names = codes "A.b" ∷ [];
  ip_addresses = [];
  email_addresses = [];
  uris = [];
  not_before = 0;
  not_after = 9;
  public_key = comparable raw;
}

abbrev pub leaf : Certificate
leaf = cert (codes "l") (codes "r") (codes "a.b")

abbrev pub root : Certificate
root = cert (codes "r") (codes "r") (codes "root")

abbrev pub csr : CertificateRequest
csr = record {
  subject = subject_of (codes "a.B");
  dns_names = codes "a.b" ∷ [];
  ip_addresses = [];
  email_addresses = [];
  uris = [];
  public_key = some (comparable (codes "l"));
}

abbrev pub parse_certificate : Bytes → Result Bytes Certificate
parse_certificate s =
    if str_eq s (codes "l")
    then ok leaf
    else if str_eq s (codes "r")
    then ok root
    else err (codes "no certificate")

abbrev pub platform : Platform
platform = record {
  unicode = plain_unicode;
  unmarshal = decode;
  marshal = λ j. ok (codes "{}");
  pem_decode = decode_block;
  pem_encode = λ b. b.bytes;
  base64_decode = λ s. none;
  parse_certificate = parse_certificate;
  parse_certificate_request = λ s. ok csr;
  check_signature = λ r. ok tt;
  signed_by = λ child parent. str_eq child.raw_issuer parent.raw_subject;
  parse_ip = λ s. if str_eq s (codes "1.2.3.4") then some (1 ∷ 2 ∷ 3 ∷ 4 ∷ []) else none;
  ip_string = λ ip. ip;
}

abbrev pub escrowed : Key
escrowed = record { material = codes "k"; public_key = some (comparable (codes "l")) }

abbrev pub key_platform : KeyPlatform
key_platform = record {
  parse_pkcs8 = λ der. ok escrowed;
  parse_pkcs1 = λ der. err [];
  parse_ec = λ der. err [];
  marshal_pkcs8 = λ key. ok key.material;
  is_encrypted = λ block. false;
  decrypt = λ block password. err [];
}

-- The certificate is published at the time 1.
abbrev pub answer_to : Bytes → ℕ → Bytes
answer_to op now =
    if str_eq op (codes "importCSR")
    then 1 ∷ []
    else if str_eq op (codes "listCSR")
    then 2 ∷ []
    else if str_eq op (codes "signCSR")
    then 3 ∷ []
    else if str_eq op (codes "exportCSR")
    then 6 ∷ []
    else if ltb 0 now
    then 4 ∷ []
    else 5 ∷ []

abbrev pub op_of : List Bytes → Bytes
op_of (base ∷ api ∷ op ∷ rest) = op
op_of path = []

abbrev pub server : Server
server = record {
  State = ℕ;
  exchange = λ req now. (answered 200 (answer_to (op_of req.path) now), now);
}

abbrev pub clock : Clock server
clock = record { now = λ t. t; wait = λ d t. (none, t + d) }

abbrev pub kmp_url : Url
kmp_url = record {
  scheme = codes "https";
  opaque_part = [];
  user = none;
  host = codes "kmp";
  path = codes "/";
  raw_path = [];
  force_query = false;
  fragment = [];
  raw_fragment = [];
}

abbrev pub client : Client
client = record {
  base_url = kmp_url;
  auth_token = codes "token";
  transport = over_tls false none;
  timeout = pos 30;
  user_agent = codes "test";
}

abbrev pub options : SigningOptions
options = record {
  sign_type = [];
  server_name = codes "ca-host";
  ca_name = codes "ca";
  template_name = codes "web";
  agent_name = [];
  agent_response_timeout_seconds = none;
  root_certificate_common_name = [];
  root_certificate_serial_number = [];
  validity_days = none;
  is_intermediate = none;
  email = [];
  csr_lookup_operation = codes "listCSR";
}

abbrev pub signer : Signer
signer = record { client = client; opts = options; poll_interval = pos 1; poll_timeout = pos 4 }

abbrev pub request : Request
request = record { csr_pem = codes "R"; duration = pos 0; is_ca = false }

pub shorter : DecodesShorter platform
shorter [] b rest h = absurd (none-ne-some _ h)
shorter (c ∷ s) b rest h = ground arith

pub monotonic : IsMonotonic server clock
monotonic = record { exchange_le = λ r s. le_refl s; wait_le = λ d s h. le_refl _ }
