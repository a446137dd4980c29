-- ===== src/Chain/Request.antt =====
-- internal/kmp/chain.go: `ParseCSR`.
use kmp_issuer.Base.{not, ◌&&◌, ◌++◌, [], none, some, Result, ok, err, if◌then◌else◌}
use kmp_issuer.Text.{Bytes, codes, Unicode, str_eq}
use kmp_issuer.X509.{CertificateRequest, Platform}
use kmp_issuer.Errors.{GoError, plain, wrap}

unfoldable pub parse_csr : Platform → Bytes → Result GoError CertificateRequest
parse_csr p csr_pem = elim (Platform.pem_decode p csr_pem) [
  | none ↦ err (plain (codes "the request is not PEM encoded"))
  | some (block, rest) ↦
      if not (str_eq block.block_type (codes "CERTIFICATE REQUEST"))
        && not (str_eq block.block_type (codes "NEW CERTIFICATE REQUEST"))
      then err (
          plain (
            codes "expected a CERTIFICATE REQUEST PEM block, got "
            ++ Unicode.quote (Platform.unicode p) block.block_type))
      else elim (Platform.parse_certificate_request p block.bytes) [
        | err e ↦ err (wrap (codes "parsing certificate request: ") (plain e) [])
        | ok csr ↦ elim (Platform.check_signature p csr) [
          | err e ↦
              err (wrap (codes "checking the signature of the certificate request: ") (plain e) [])
          | ok _ ↦ ok csr
        ]
      ]
]
