-- ===== src/Signer/Resolve/Laws.antt =====
-- Where the identifier of a request comes from, and what the hints of a request give.
use kmp_issuer.Base.{
  ◌≡◌, sym, subst, ◌⊎◌, inl, inr, false, Bool-cases, none, some, ok, ok-injective, if◌then◌else◌,
  is_nil, [],
}
use kmp_issuer.Text.{Bytes}
use kmp_issuer.X509.{Platform}
use kmp_issuer.Response.Status.{Response}
use kmp_issuer.Client.Call.{get, Server, request_of}
use kmp_issuer.Client.Call.Runs.{
  IsAnswered, guard_eq_ok, map_err-eq-ok, pair_eq, result_of, state_of,
}
use kmp_issuer.Client.Csr.{Csr}
use kmp_issuer.Client.Csr.Laws.{IsIdFor, AsksFor, find_csr_id-IsIdFor}
use kmp_issuer.Signer.Options.{Signer}
use kmp_issuer.Signer.Resolve.{resolve_csr_id, no_lookup}

abbrev lookup_name : Csr → Bytes → Bytes
lookup_name stored fallback = if is_nil stored.common_name then fallback else stored.common_name

module _ (p : Platform) (srv : Server) (s : Signer) (stored : Csr) (fallback : Bytes) where
  -- An identifier that `resolveCSRID` returns is the one that the import reported, or a lookup
  -- operation is configured, the server accepted the lookup of the name that the import reported
  -- (or else of the name of the request), and the identifier is one for that name.
  pub resolve_csr_id-IsIdFor :
      (id : Bytes) (before after : Server.State srv)
      → resolve_csr_id p srv s stored fallback before ≡ (ok id, after)
      → ((id ≡ stored.id) × (is_nil id ≡ false))
        ⊎ ((is_nil s.opts.csr_lookup_operation ≡ false)
            × ((input : Bytes) × (r : Response) × AsksFor p (lookup_name stored fallback) input
                × IsAnswered p srv
                    (request_of p srv s.client get s.opts.csr_lookup_operation (some input) none [])
                    s.opts.csr_lookup_operation
                    r
                    before
                    after
                × IsIdFor p r (lookup_name stored fallback) id))
  unfolding resolve_csr_id
  resolve_csr_id-IsIdFor id before after h = elim (Bool-cases (is_nil stored.id)) [
    | inr known ↦
        let e : stored.id ≡ id = ok-injective (result_of (rw (resolve_csr_id, known) at h)) in
        inl (sym e, subst (λ i. is_nil i ≡ false) e known)
    | inl unknown ↦
        let (given, h₁) =
          guard_eq_ok (is_nil s.opts.csr_lookup_operation) (no_lookup p srv stored) _
            (rw (resolve_csr_id, unknown) at h) in
        inr (
          given,
          find_csr_id-IsIdFor p srv s.client s.opts.csr_lookup_operation
              (lookup_name stored fallback) id before after
              (pair_eq (map_err-eq-ok _ _ (result_of h₁)) (state_of h₁)),
        )
  ]
