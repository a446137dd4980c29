-- ===== src/Client/Sign.antt =====
-- internal/kmp/client.go: `SignCSR`.
pub mod Laws
use kmp_issuer.Base.{
  Bool, true, false, ◌&&◌, [], none, some, Result, ok, err, if◌then◌else◌, is_nil,
}
use kmp_issuer.Text.{Bytes, codes}
use kmp_issuer.X509.{Platform}
use kmp_issuer.Errors.{GoError, plain, api_caused}
use kmp_issuer.Response.Keys.{common_name_keys, serial_number_keys, certificate_id_keys}
use kmp_issuer.Response.Status.{Response, truncated_body, message}
use kmp_issuer.Client.Call.{post, Server, Client, Run, ◌>>=◌, return, throw, lift, failure, call}
use kmp_issuer.Client.Details.{SignRequest, sign_details}
use kmp_issuer.Client.Csr.{op_error, encoded, search}

pub record SignResult : Type 0 where
  pub certificate_id : Bytes
  pub common_name : Bytes
  pub serial_number : Bytes

abbrev pub op_sign_csr : Bytes
op_sign_csr = codes "signCSR"

-- The last test of `SignCSR`.
abbrev pub identifies_nothing : SignResult → Bool
identifies_nothing r = is_nil r.common_name && (is_nil r.serial_number && is_nil r.certificate_id)

abbrev pub unidentified : Platform → Response → GoError
unidentified p r =
    api_caused
      (record (failure op_sign_csr 0 true) {
        message = message (Platform.unicode p) r;
        body = truncated_body r;
      })
      (plain (codes "the response identifies no signed certificate"))

-- What `SignCSR` makes of a response.
unfoldable pub sign_result : Platform → Response → Result GoError SignResult
sign_result p r =
    let result : SignResult = record {
      certificate_id = search p r certificate_id_keys;
      common_name = search p r common_name_keys;
      serial_number = search p r serial_number_keys;
    } in
    if identifies_nothing result then err (unidentified p r) else ok result

module _ (p : Platform) (srv : Server) (c : Client) where
  unfoldable pub sign_csr : SignRequest → Run (Server.State srv) SignResult
  sign_csr req =
      if is_nil req.csr_id
      then throw (op_error op_sign_csr true (plain (codes "CSR id is empty")))
      else (do
        input ← lift (encoded p op_sign_csr (sign_details req))
        parsed ← call p srv c post op_sign_csr (some input) none []
        lift (sign_result p parsed))
