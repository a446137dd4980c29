-- ===== src/Client/Csr/Laws.antt =====
-- What `FindCSRID` and `CreateCSR` promise of their results.
use kmp_issuer.Base.{
  ◌≡◌, refl, ap, ◌∙◌, subst, ◌⊎◌, inl, inr, false, List, [], ◌∷◌, none, some, Option-cases,
  Bool-cases, Result-cases, ok, ok-injective, err-ne-ok, is_nil,
}
use mathlib.Core.Option.{none-ne-some}
use kmp_issuer.Text.{Bytes, codes, trim_space}
use kmp_issuer.X509.{Platform}
use kmp_issuer.Response.Keys.{csr_id_keys, common_name_keys, wanted_keys}
use kmp_issuer.Response.Collect.{collect_strings_for}
use kmp_issuer.Response.Identify.{find_id_for_common_name}
use kmp_issuer.Response.Identify.Records.{IsRecordOf, find_id-IsRecordOf}
use kmp_issuer.Response.Status.{Response}
use kmp_issuer.Client.Call.{get, post, Server, Client, request_of, call, input_data}
use kmp_issuer.Json.{Json, obj, str, field, end}
use kmp_issuer.Client.Details.{text_field, CreateCsrRequest, create_details}
use kmp_issuer.Client.Call.Runs.{
  IsAnswered, call-IsAnswered, asked_eq_ok, guard_eq_ok, map_err-eq-ok,
}
use kmp_issuer.Client.Csr.{
  Csr, lone_id, id_in_response, listed_id, encoded, find_csr_id, create_csr, created, op_create_csr,
  search,
}

-- An identifier for a common name: it stands in a record that bears the name, or it is the only
-- identifier of the document and the document has no common name.
pub record IsIdFor (p : Platform) (r : Response) (common_name id : Bytes) : Type 0 where
  pub origin :
      IsRecordOf
        (Platform.unicode p)
        (wanted_keys (Platform.unicode p) csr_id_keys)
        (wanted_keys (Platform.unicode p) common_name_keys)
        common_name
        id
        r.doc
      ⊎ ((collect_strings_for (Platform.unicode p) r.doc csr_id_keys ≡ id ∷ [])
          × (collect_strings_for (Platform.unicode p) r.doc common_name_keys ≡ []))

lone_id-eq-some :
    (ids names : List Bytes) {id : Bytes}
    → lone_id ids names ≡ some id
    → (ids ≡ id ∷ []) × (names ≡ [])
lone_id-eq-some (i ∷ []) [] h = (cc, refl)
lone_id-eq-some (i ∷ []) (n ∷ names) h = absurd (none-ne-some _ h)
lone_id-eq-some (i ∷ j ∷ ids) names h = absurd (none-ne-some _ h)
lone_id-eq-some [] names h = absurd (none-ne-some _ h)

-- An identifier that `FindCSRID` accepts is one for the common name.
id_in_response-IsIdFor :
    (p : Platform) (common_name : Bytes) (r : Response) (id : Bytes)
    → id_in_response p common_name r ≡ some id
    → IsIdFor p r common_name id
unfolding id_in_response
id_in_response-IsIdFor p common_name r id h =
    let u = Platform.unicode p in
    elim (Option-cases (find_id_for_common_name u r.doc common_name csr_id_keys common_name_keys)) [
      | inl nothing ↦ record {
        origin = inr (lone_id-eq-some _ _ (rw (id_in_response, nothing) at h));
      }
      | inr (found, e) ↦ record {
        origin = inl (
            find_id-IsRecordOf u r.doc common_name csr_id_keys common_name_keys id
              (e ∙ (rw (id_in_response, e) at h)));
      }
    ]

is_nil_trimmed : (s : Bytes) → is_nil (trim_space s) ≡ false → is_nil s ≡ false
unfolding trim_space
is_nil_trimmed [] h = h
is_nil_trimmed (c ∷ s) h = refl

created-common_name :
    (p : Platform) (req : CreateCsrRequest) (r : Response)
    → is_nil req.common_name ≡ false
    → is_nil (Csr.common_name (created p req r)) ≡ false
unfolding created
created-common_name p req r h = elim (Bool-cases (is_nil (search p r common_name_keys))) [
  | inl none_there ↦ rw none_there h
  | inr there ↦ rw there there
]

-- The JSON document that asks for a common name, under its two spellings.
abbrev pub lookup_document : Bytes → Json
lookup_document common_name = obj (
    field (codes "operation")
      (obj (
        field (codes "Details")
          (obj (
            field (codes "common_name") (str common_name)
              (field (codes "CNAME") (str common_name) end)))
          end))
      end)

-- The value of INPUT_DATA asks for the common name.
abbrev pub AsksFor : Platform → Bytes → Bytes → Type 0
AsksFor p common_name input = Platform.marshal p (lookup_document common_name) ≡ ok input

input_data-AsksFor :
    (p : Platform) (common_name input : Bytes)
    → input_data p
        (text_field (codes "common_name") common_name (text_field (codes "CNAME") common_name end))
      ≡ ok input
    → AsksFor p common_name input
unfolding input_data
input_data-AsksFor p common_name input h =
    elim (Result-cases (Platform.marshal p (lookup_document common_name))) [
      | inl (done, e) ↦ e ∙ ap ok (ok-injective (rw (input_data, e) at h))
      | inr (text, e) ↦ absurd (err-ne-ok (rw (input_data, e) at h))
    ]

module _ (p : Platform) (srv : Server) (c : Client) where
  listed_id-eq-ok :
      (operation common_name : Bytes) (r : Response) {id : Bytes}
      → listed_id p srv c operation common_name r ≡ ok id
      → id_in_response p common_name r ≡ some id
  unfolding listed_id
  listed_id-eq-ok operation common_name r h = elim (Option-cases (id_in_response p common_name r)) [
    | inl nothing ↦ absurd (err-ne-ok (rw (listed_id, nothing) at h))
    | inr (found, e) ↦ e ∙ ap some (ok-injective (rw (listed_id, e) at h))
  ]

  -- If `FindCSRID` returns an identifier, the server accepted the lookup of that name with a
  -- document, and the identifier stands there in a record that bears the common name, or it is the only identifier
  -- there and the document has no common name.
  pub find_csr_id-IsIdFor :
      (operation common_name id : Bytes) (s t : Server.State srv)
      → find_csr_id p srv c operation common_name s ≡ (ok id, t)
      → (input : Bytes) × (r : Response) × AsksFor p common_name input
        × IsAnswered p srv (request_of p srv c get operation (some input) none []) operation r s t
        × IsIdFor p r common_name id
  unfolding find_csr_id
  find_csr_id-IsIdFor operation common_name id s t h =
      let (_, h₁) = guard_eq_ok (is_nil operation) _ _ h in
      let (_, h₂) = guard_eq_ok (is_nil common_name) _ _ h₁ in
      let (input, r, given, got, read) =
        asked_eq_ok
          (encoded p operation (
            text_field (codes "common_name") common_name
              (text_field (codes "CNAME") common_name end)))
          (λ i. call p srv c get operation (some i) none [])
          (λ parsed. listed_id p srv c operation common_name parsed) h₂ in
      (
        input,
        r,
        input_data-AsksFor p common_name input (map_err-eq-ok _ _ given),
        call-IsAnswered p srv c get operation (some input) none [] got,
        id_in_response-IsIdFor p common_name r id (listed_id-eq-ok operation common_name r read),
      )

  -- A request that `CreateCSR` stored has a common name.
  create_csr-common_name :
      (req : CreateCsrRequest) (stored : Csr) (s t : Server.State srv)
      → create_csr p srv c req s ≡ (ok stored, t)
      → is_nil stored.common_name ≡ false
  unfolding create_csr
  create_csr-common_name req stored s t h =
      let (named, h₁) = guard_eq_ok (is_nil (trim_space req.common_name)) _ _ h in
      let (_, r, _, _, e) =
        asked_eq_ok (encoded p op_create_csr (create_details req))
          (λ i. call p srv c post op_create_csr (some i) none [])
          (λ parsed. ok (created p req parsed)) h₁ in
      subst (λ x. is_nil (Csr.common_name x) ≡ false) (ok-injective e)
        (created-common_name p req r (is_nil_trimmed req.common_name named))
