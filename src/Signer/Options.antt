-- ===== src/Signer/Options.antt =====
-- internal/kmp/signer.go: `SigningOptions`, `NewSigner` and the fields of `Signer`.
pub mod Laws
use kmp_issuer.Base.{
  List, [], ◌∷◌, ◌++◌, Bool, true, false, Option, none, some, Result, ok, err, if◌then◌else◌,
  is_nil, ℤ,
}
use kmp_issuer.Text.{Bytes, codes, Unicode, str_eq, join}
use kmp_issuer.Errors.{GoError, invalid_config, wrap}
use kmp_issuer.Client.Call.{Client}
use kmp_issuer.Client.Details.{
  default_sign_type, sign_type_msca, sign_type_msca_using_agent, sign_type_with_root,
}

-- An int32 is an integer in its range.
pub record SigningOptions : Type 0 where
  pub sign_type : Bytes
  pub server_name : Bytes
  pub ca_name : Bytes
  pub template_name : Bytes
  pub agent_name : Bytes
  pub agent_response_timeout_seconds : Option ℤ
  pub root_certificate_common_name : Bytes
  pub root_certificate_serial_number : Bytes
  pub validity_days : Option ℤ
  pub is_intermediate : Option Bool
  pub email : Bytes
  pub csr_lookup_operation : Bytes

-- Durations are nanoseconds.
pub record Signer : Type 0 where
  pub client : Client
  pub opts : SigningOptions
  pub poll_interval : ℤ
  pub poll_timeout : ℤ

abbrev pub invalid : Bytes → GoError
invalid text = wrap [] invalid_config text

-- `if value == "" { missing = append(missing, name) }`, before the later ones.
abbrev pub if_missing : Bytes → Bytes → List Bytes → List Bytes
if_missing value name rest = if is_nil value then name ∷ rest else rest

unfoldable pub missing_msca_fields : SigningOptions → List Bytes
missing_msca_fields o = if_missing o.server_name (codes "signing.serverName") (
    if_missing o.ca_name (codes "signing.caName")
      (if_missing o.template_name (codes "signing.templateName") []))

-- `%v` of a list of texts is the texts between brackets, with spaces.
unfoldable pub require_msca_fields : SigningOptions → Result GoError (Unit {0})
require_msca_fields o =
    let missing = missing_msca_fields o in
    if is_nil missing
    then ok tt
    else err (
        invalid (
          codes ": signType "
          ++ default_sign_type o.sign_type
          ++ codes " requires ["
          ++ join missing (codes " ")
          ++ codes "]"))

abbrev pub agent_missing : GoError
agent_missing =
    invalid
      (codes ": signType " ++ sign_type_msca_using_agent ++ codes " requires signing.agentName")

abbrev pub root_missing : GoError
root_missing = invalid (
    codes ": signType "
    ++ sign_type_with_root
    ++ codes " requires signing.rootCertificateCommonName")

abbrev pub unknown_sign_type : Unicode → Bytes → GoError
unknown_sign_type u sign_type = invalid (
    codes ": unknown signType "
    ++ Unicode.quote u sign_type
    ++ codes ", expected one of "
    ++ join (sign_type_msca ∷ sign_type_msca_using_agent ∷ sign_type_with_root ∷ []) (codes ", "))

-- The case of agents: the fields of a Microsoft CA, then the agent.
abbrev pub and_agent : SigningOptions → Result GoError (Unit {0}) → Result GoError (Unit {0})
and_agent o (err e) = err e
and_agent o (ok _) = if is_nil o.agent_name then err agent_missing else ok tt

unfoldable pub validate : Unicode → SigningOptions → Result GoError (Unit {0})
validate u o =
    let sign_type = default_sign_type o.sign_type in
    if str_eq sign_type sign_type_msca
    then require_msca_fields o
    else if str_eq sign_type sign_type_msca_using_agent
    then and_agent o (require_msca_fields o)
    else if str_eq sign_type sign_type_with_root
    then (if is_nil o.root_certificate_common_name then err root_missing else ok tt)
    else err (unknown_sign_type u o.sign_type)

-- `NewSigner`. A nil client is `none`.
unfoldable pub new_signer : Unicode → Option Client → SigningOptions → Result GoError Signer
new_signer u none o = err (invalid (codes ": no key manager plus client"))
new_signer u (some c) o = elim (validate u o) [
  | err e ↦ err e
  | ok _ ↦ ok (record { client = c; opts = o; poll_interval = ℤ.pos 0; poll_timeout = ℤ.pos 0 })
]
