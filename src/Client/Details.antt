-- ===== src/Client/Details.antt =====
-- internal/kmp/client.go and internal/kmp/create.go: the arguments of the operations, as the
-- `Details` object of INPUT_DATA.
use kmp_issuer.Base.{Bool, List, Option, none, some, if◌then◌else◌, is_nil, ℤ, pos, ltz}
use kmp_issuer.Text.{Bytes, codes, str_eq, join}
use kmp_issuer.Text.Decimal.{format_int}
use kmp_issuer.Json.{Json, boolean, num, str, whole, Fields, end, field}

-- An int32 is an integer in its range.
pub record SignRequest : Type 0 where
  pub csr_id : Bytes
  pub sign_type : Bytes
  pub server_name : Bytes
  pub ca_name : Bytes
  pub template_name : Bytes
  pub agent_name : Bytes
  pub agent_response_timeout_seconds : Option ℤ
  pub root_certificate_common_name : Bytes
  pub root_certificate_serial_number : Bytes
  pub validity_days : Option ℤ
  pub is_intermediate : Option Bool

abbrev pub sign_type_msca : Bytes
sign_type_msca = codes "MSCA"

abbrev pub sign_type_msca_using_agent : Bytes
sign_type_msca_using_agent = codes "MSCAusingAgent"

abbrev pub sign_type_with_root : Bytes
sign_type_with_root = codes "signWithRoot"

-- The default of an empty sign type, of `SignRequest.details` and of `SigningOptions.signType`.
unfoldable pub default_sign_type : Bytes → Bytes
default_sign_type sign_type = if is_nil sign_type then sign_type_msca else sign_type

abbrev pub text_field : Bytes → Bytes → Fields → Fields
text_field key value rest = field key (str value) rest

-- `if value != "" { details[key] = value }`
abbrev pub set_field : Bytes → Bytes → Fields → Fields
set_field key value rest = if is_nil value then rest else text_field key value rest

-- `if value != nil { details[key] = f(*value) }`
abbrev pub given_field {ℓ} : {A : Type ℓ} → Bytes → (A → Json) → Option A → Fields → Fields
given_field key f none rest = rest
given_field key f (some value) rest = field key (f value) rest

-- `strconv.Itoa`
abbrev pub itoa : ℤ → Json
itoa z = str (format_int z)

unfoldable pub msca_fields : SignRequest → Fields → Fields
msca_fields r rest =
    text_field (codes "serverName") r.server_name (
      text_field (codes "caName") r.ca_name
        (text_field (codes "templateName") r.template_name rest))

unfoldable pub with_root_fields : SignRequest → Fields
with_root_fields r = text_field (codes "rootCertificateCommonName") r.root_certificate_common_name (
    set_field (codes "rootCertificateSerialNumber") r.root_certificate_serial_number (
      given_field (codes "Validity") itoa r.validity_days
        (given_field (codes "isIntermediate") boolean r.is_intermediate end)))

unfoldable pub using_agent_fields : SignRequest → Fields
unfolding msca_fields
using_agent_fields r = msca_fields r (
    text_field (codes "agentName") r.agent_name (
      given_field (codes "agentResponseTimeout") (λ z. num (whole z))
        r.agent_response_timeout_seconds end))

-- The entries in the order of the source's assignments, each under a key of its own.
unfoldable pub sign_details : SignRequest → Fields
sign_details r =
    let sign_type = default_sign_type r.sign_type in
    text_field (codes "CSR_ID") r.csr_id (
      text_field (codes "signType") sign_type (
        if str_eq sign_type sign_type_with_root
        then with_root_fields r
        else if str_eq sign_type sign_type_msca_using_agent
        then using_agent_fields r
        else msca_fields r end))

pub record CreateCsrRequest : Type 0 where
  pub common_name : Bytes
  pub alt_names : List Bytes
  pub organization : Bytes
  pub organizational_unit : Bytes
  pub location : Bytes
  pub state : Bytes
  pub country : Bytes
  pub password : Bytes
  pub key_algorithm : Bytes
  pub key_length : ℤ
  pub signature_algorithm : Bytes
  pub store_type : Bytes
  pub validity_type : Bytes
  pub validity_days : Option ℤ

-- `if r.KeyLength > 0`
abbrev pub length_field : CreateCsrRequest → Fields → Fields
length_field r rest =
    if ltz (pos 0) r.key_length then field (codes "LEN") (itoa r.key_length) rest else rest

-- The optional entries stand in a map: their order here is that of the source's text.
unfoldable pub create_details : CreateCsrRequest → Fields
create_details r = text_field (codes "CNAME") r.common_name (
    set_field (codes "ALT_NAMES") (join r.alt_names (codes ",")) (
      set_field (codes "ORG") r.organization (
        set_field (codes "ORGUNIT") r.organizational_unit (
          set_field (codes "LOCATION") r.location (
            set_field (codes "STATE") r.state (
              set_field (codes "COUNTRY") r.country (
                set_field (codes "PASSWORD") r.password (
                  set_field (codes "ALG") r.key_algorithm (
                    set_field (codes "SIGALG") r.signature_algorithm (
                      set_field (codes "StoreType") r.store_type (
                        length_field r (
                          set_field (codes "VALIDITY_TYPE") r.validity_type
                            (given_field (codes "VALIDITY") itoa r.validity_days end)))))))))))))
