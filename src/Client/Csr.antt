-- ===== src/Client/Csr.antt =====
-- internal/kmp/client.go and internal/kmp/create.go: `ImportCSR`, `CreateCSR`, `FindCSRID` and
-- `ExportCSR`.
pub mod Laws
use kmp_issuer.Base.{
  Bool, true, false, ◌&&◌, List, [], ◌∷◌, ◌++◌, Option, none, some, Result, ok, err, map_err,
  if◌then◌else◌, is_nil,
}
use kmp_issuer.Text.{Bytes, codes, Unicode, trim_space}
use kmp_issuer.Json.{Fields, end}
use kmp_issuer.X509.{Platform}
use kmp_issuer.Errors.{GoError, plain, api_caused}
use kmp_issuer.Response.Keys.{csr_id_keys, common_name_keys}
use kmp_issuer.Response.Find.{find_string}
use kmp_issuer.Response.Collect.{collect_strings_for}
use kmp_issuer.Response.Identify.{find_id_for_common_name}
use kmp_issuer.Response.Status.{Response, truncated_body, message, or_empty}
use kmp_issuer.Client.Call.{
  get, post, Server, Client, Run, ◌>>=◌, return, throw, lift, failure, input_data, call, call_raw,
}
use kmp_issuer.Client.Details.{text_field, set_field, CreateCsrRequest, create_details}

-- A stored request (`CSR` of the source).
pub record Csr : Type 0 where
  pub id : Bytes
  pub common_name : Bytes
  pub response : Bytes

abbrev pub op_import_csr : Bytes
op_import_csr = codes "importCSR"

abbrev pub op_create_csr : Bytes
op_create_csr = codes "createCSR"

abbrev pub op_export_csr : Bytes
op_export_csr = codes "exportCSR"

-- `&Error{Op: op, Permanent: permanent, Err: e}`
abbrev pub op_error : Bytes → Bool → GoError → GoError
op_error op permanent e = api_caused (failure op 0 permanent) e

-- `inputData`, with its error as the operation returns it.
abbrev pub encoded : Platform → Bytes → Fields → Result GoError Bytes
encoded p op details = map_err (op_error op true) (input_data p details)

-- The content type that `writer.FormDataContentType` gives, without its random boundary.
abbrev pub form_data : Bytes
form_data = codes "multipart/form-data"

abbrev pub search : Platform → Response → List Bytes → Bytes
search p r keys = or_empty (find_string (Platform.unicode p) r.doc keys)

-- `len(ids) == 1` and `len(names) == 0`
abbrev pub lone_id : List Bytes → List Bytes → Option Bytes
lone_id (id ∷ []) [] = some id
lone_id (id ∷ []) (name ∷ names) = none
lone_id (id ∷ other ∷ ids) names = none
lone_id [] names = none

-- What `FindCSRID` makes of a response: the identifier, or that there is none.
unfoldable pub id_in_response : Platform → Bytes → Response → Option Bytes
id_in_response p common_name r =
    let u = Platform.unicode p in
    elim (find_id_for_common_name u r.doc common_name csr_id_keys common_name_keys) [
      | some id ↦ some id
      | none ↦
          lone_id (collect_strings_for u r.doc csr_id_keys)
            (collect_strings_for u r.doc common_name_keys)
    ]

-- What `CreateCSR` returns of a response.
unfoldable pub created : Platform → CreateCsrRequest → Response → Csr
created p req r =
    let common_name = search p r common_name_keys in
    record {
      id = search p r csr_id_keys;
      common_name = if is_nil common_name then req.common_name else common_name;
      response = truncated_body r;
    }

module _ (p : Platform) (srv : Server) (c : Client) where
  unfoldable pub import_csr : Bytes → Bytes → Run (Server.State srv) Csr
  import_csr csr_pem email =
      if is_nil csr_pem
      then throw (op_error op_import_csr true (plain (codes "CSR is empty")))
      else (do
        input ← lift (encoded p op_import_csr (set_field (codes "Email") email end))
        parsed ←
            call p srv c post op_import_csr none
              (some (record { csr_file = csr_pem; input_data_field = input })) form_data
        return (record {
          id = search p parsed csr_id_keys;
          common_name = search p parsed common_name_keys;
          response = truncated_body parsed;
        }))

  unfoldable pub create_csr : CreateCsrRequest → Run (Server.State srv) Csr
  create_csr req =
      if is_nil (trim_space req.common_name)
      then throw (op_error op_create_csr true (plain (codes "the request has no common name")))
      else (do
        input ← lift (encoded p op_create_csr (create_details req))
        parsed ← call p srv c post op_create_csr (some input) none []
        return (created p req parsed))

  abbrev pub not_listed : Bytes → Bytes → Response → GoError
  not_listed op name r =
      api_caused
        (record (failure op 0 false) {
          message = message (Platform.unicode p) r;
          body = truncated_body r;
        })
        (plain (
          codes "no CSR id for common name "
          ++ Unicode.quote (Platform.unicode p) name
          ++ codes " in the response"))

  unfoldable pub listed_id : Bytes → Bytes → Response → Result GoError Bytes
  listed_id operation common_name r = elim (id_in_response p common_name r) [
    | some id ↦ ok id
    | none ↦ err (not_listed operation common_name r)
  ]

  unfoldable pub find_csr_id : Bytes → Bytes → Run (Server.State srv) Bytes
  find_csr_id operation common_name =
      if is_nil operation
      then throw (
          op_error (codes "findCSRID") true (plain (codes "no CSR lookup operation is configured")))
      else if is_nil common_name
      then throw
          (op_error operation true (plain (codes "the request has no common name to look up")))
      else (do
        input ← lift (
            encoded p operation (
              text_field (codes "common_name") common_name
                (text_field (codes "CNAME") common_name end)))
        parsed ← call p srv c get operation (some input) none []
        lift (listed_id operation common_name parsed))

  unfoldable pub export_csr : Bytes → Bytes → Run (Server.State srv) Bytes
  export_csr csr_id file_type =
      if is_nil csr_id
      then throw (op_error op_export_csr true (plain (codes "no CSR id to export")))
      else (do
        input ← lift (
            encoded p op_export_csr (
              text_field (codes "CSR_ID") csr_id (
                text_field (codes "fileType")
                  (if is_nil file_type then codes "PrivateKey" else file_type) end)))
        call_raw p srv c get op_export_csr (some input))
