-- ===== src/Lib.antt =====
-- kmp-issuer: the client of Key Manager Plus (internal/kmp), the controllers that use it
-- (internal/controllers) and what joins them (internal/signer).
--
-- The program. A cert-manager issuer hands a certificate request to a `Signer`
-- (internal/kmp/signer.go), which stores it with the server (importCSR), looks its identifier up
-- where the answer has none, has it signed (signCSR), polls for the certificate (getCertificate),
-- picks the chain of the request's key out of what it got (internal/kmp/chain.go) and checks the
-- names of the leaf (internal/kmp/verify.go). The other flow (internal/kmp/provision.go) lets the
-- server make the key, exports it (internal/kmp/privatekey.go) and checks it against the leaf. The
-- client (internal/kmp/client.go, internal/kmp/create.go) sends the requests and searches the
-- answers (internal/kmp/response.go), whose layout differs between builds of the server. Its errors
-- (internal/kmp/errors.go) say whether a repetition can help.
--
-- Two controllers use these flows. issuer-lib calls Check and Sign of internal/controllers/signer.go,
-- which read the credentials of an issuer from a Secret, check the server and sign a request; their
-- errors tell issuer-lib whether to try again. Reconcile of
-- internal/controllers/kmpcertificate_controller.go keeps the Secret of a KMPCertificate: it asks
-- whether the certificate in it is there, suits the spec and is not due for renewal, has Key Manager
-- Plus make another one if not, writes the Secret, and reports in the condition Ready.
-- internal/signer/kmp.go builds the health checker, the signer and the provisioner that both are
-- given from the spec of the issuer and the Secret.
--
-- The files.
--   Base, Text: shared names, lists, results, the texts and the functions on them; Text.Decimal has
--     the int64 numerals of strconv, Text.Order the sorting by keys.
--   Json: documents as json.Unmarshal leaves them. X509: certificates, and the `Platform`.
--   Response: Keys (normalizeKey, scalarString), Find (findString), Collect (collectStrings,
--     collectStringsFor), Identify (findIDForCommonName, recordMatches), Status (the outcome).
--   Errors: `Error`, errors.Is, errors.As, IsPermanent, IsAuthFailure.
--   Chain: Build (BuildBundle, findLeaf, popIssuer), Extract (certificatesFromStrings,
--     parsePEMCertificates, parseBase64Certificate), Request (ParseCSR).
--   Verify: verifyRequestedNames.
--   Client: Call (do, call, callRaw; Accepted and Permanent
--     say how an exchange ends), Details (the INPUT_DATA of signCSR and createCSR), Csr
--     (ImportCSR, CreateCSR, FindCSRID, ExportCSR), Sign (SignCSR), Certificate (GetCertificate, Ping),
--     Config (NewClient).
--   Signer: Options (Validate, NewSigner), Resolve (resolveCSRID, signRequest), Fetch
--     (fetchCertificate), Sign (Sign).
--   PrivateKey: Pem (parsePEMPrivateKey), Export (ParseExportedPrivateKey, MatchesCertificate).
--   Provision: Names (verifyProvisionedNames), Flow (Provision).
--   Api: Issuers, Certificates (api/v1alpha1, with the Condition of Kubernetes).
--   Cluster: Data (the map of a Secret), Access (the API of the cluster and the libraries), Builders
--     (the interfaces between the controllers and the client).
--   Adapter: internal/signer/kmp.go.
--   IssuerController: internal/controllers/signer.go; Laws has the outcomes of Sign, Misconfigured its
--     composition with the adapter.
--   Reconciler: internal/controllers/kmpcertificate_controller.go, in Conditions (setCondition),
--     Renewal (renewalTime, until), Spec (provisionRequest, matchesSpec), Need (issuanceNeeded), Password
--     (keyStorePassword), Issue (resolveIssuer, writeSecret, issue) and Process (Reconcile). Issue.Keys
--     composes it with the adapter and Provision, Issue.Fresh with the next issuanceNeeded;
--     Process.Misconfigured composes Reconcile with the adapter.
--   Examples: a small world, and the theorems at it.
--
-- How the code corresponds. A Go error is a `GoError`, whose structure is its chain of wrapped
-- errors; an operation that talks to the server is a `Run`, from a state of the server and the
-- network to a result and the next state, and the early returns of the source are its `>>=`. A
-- function of one body in the source may stand here as several that are named for what they do. A
-- byte string or a text is the list of its bytes. A Go map is a list of entries in the order of one
-- run of range, so what depends on that order can be said. An int32 or a duration is an integer.
--
-- Parameters. `Platform` has the functions of crypto/x509, encoding/pem, encoding/json, net and the
-- Unicode tables that the source calls, `KeyPlatform` those on private keys, `Server` what becomes of
-- a request, `Clock` the time and the wait of the polling, and `ceil_days` the floating-point
-- arithmetic that turns a duration into days. `Net` has url.Parse and the pool of certificates for
-- NewClient. `Cluster` is the API of the cluster, from state to state, so that others may change it
-- between two accesses, with the events and rand.Read; `Library` has the functions of cert-manager's
-- pki, of controller-runtime, base64 and time that the controllers call. CreateOrUpdate is given the
-- function that fills the Secret, which is modelled.
--
-- Bounds and fuel. The rounds of the PEM loops count down from one more than the length of the text,
-- which is enough where pem.Decode leaves less than it was given. The chain climbs at most as often
-- as there are certificates, since each round takes one out. The polling counts down from one more
-- than its timeout in nanoseconds, which is enough where the clock does not go back, since an
-- interval is at least one. The conversion of numerals counts the digits, and stops at int64.
--
-- Times are nanoseconds; a difference of two times ends at the durations of 64 bits, as time.Sub does.
--
-- Not modelled: the registration of the controllers (SetupWithManager), which calls libraries only;
-- the command (cmd/main.go: flags, the manager and the wiring) and the version; the lists, the
-- statuses of the issuers, which issuer-lib keeps, and the generated copies of api/v1alpha1; the
-- helpers of the end-to-end tests (test/utils).
pub mod Base
pub mod Text
pub mod Json
pub mod X509
pub mod Response
pub mod Errors
pub mod Chain
pub mod Verify
pub mod Client
pub mod Signer
pub mod PrivateKey
pub mod Provision
pub mod Api
pub mod Cluster
pub mod Adapter
pub mod IssuerController
pub mod Reconciler
pub mod Examples
