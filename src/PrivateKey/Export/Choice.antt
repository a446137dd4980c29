-- ===== src/PrivateKey/Export/Choice.antt =====
-- Which key `ParseExportedPrivateKey` returns.
use kmp_issuer.Base.{
  ◌≡◌, refl, ap, sym, ◌∙◌, subst, false, List, [], ◌∷◌, Option, none, some, Bool-cases, ◌⊎◌, inl,
  inr, Result, Result-cases, ok, ok-injective, err-ne-ok, is_nil, ◌↔◌, err,
}
use mathlib.Core.Bool.{false≢true}
use kmp_issuer.Text.{Bytes, codes}
use kmp_issuer.X509.{Platform}
use kmp_issuer.Errors.{GoError}
use kmp_issuer.Response.Collect.{collect_strings}
use kmp_issuer.Response.Status.{Response, parse_response}
use kmp_issuer.Chain.Extract.{keep_first}
use kmp_issuer.PrivateKey.Pem.{
  Key, KeyPlatform, Candidate, is_key, no_key, unreadable, parse_private_key_candidate,
}
use kmp_issuer.PrivateKey.Export.{
  EscrowedKey, encode_key, try_candidate, first_key, export_candidates, parse_exported_private_key,
}

-- The candidate holds no key that can be read.
pub data HoldsNone : Candidate → Type 0 where
  nothing : HoldsNone no_key
  spoiled : (e : GoError) → HoldsNone (unreadable e)

escrowed_eq :
    {key other : Key} {pem text : Bytes}
    → key ≡ other
    → pem ≡ text
    → ◌≡◌ {A = EscrowedKey} (record { key = key; pem = pem }) (record { key = other; pem = text })
escrowed_eq h k = cc

module _ (p : Platform) (q : KeyPlatform) (password : Bytes) where
  -- The first of the candidates that holds a key, and that key.
  pub data Chosen : List Bytes → Key → Type 0 where
    chosen :
        (candidate : Bytes) (later : List Bytes) {key : Key}
        → parse_private_key_candidate p q candidate password ≡ is_key key
        → Chosen (candidate ∷ later) key
    passed_over :
        (candidate : Bytes) {later : List Bytes} {key : Key}
        → HoldsNone (parse_private_key_candidate p q candidate password)
        → Chosen later key
        → Chosen (candidate ∷ later) key

  -- The key of an export: that of the export itself or, if that holds none and is a JSON document,
  -- that of the first of the strings of the document that holds one.
  pub data KeyIn (data_bytes : Bytes) : Key → Type 0 where
    itself :
        {key : Key}
        → parse_private_key_candidate p q data_bytes password ≡ is_key key
        → KeyIn data_bytes key
    enveloped :
        (envelope : Response) {key : Key}
        → HoldsNone (parse_private_key_candidate p q data_bytes password)
        → parse_response (Platform.unmarshal p) data_bytes ≡ ok envelope
        → Chosen (collect_strings envelope.doc) key
        → KeyIn data_bytes key

  -- A key and its encoding in an unencrypted PKCS#8 block.
  pub record IsEncoding (key : Key) (r : EscrowedKey) : Type 0 where
    pub der : Bytes
    pub marshalled : KeyPlatform.marshal_pkcs8 q key ≡ ok der
    pub same : r.key ≡ key
    pub pem :
        r.pem
        ≡ Platform.pem_encode p
            (record { block_type = codes "PRIVATE KEY"; headers = []; bytes = der })

  encode_key-IsEncoding :
      (key : Key) (r : EscrowedKey) → (encode_key p q key ≡ ok r) ↔ IsEncoding key r
  unfolding encode_key
  encode_key-IsEncoding key r = elim (Result-cases (KeyPlatform.marshal_pkcs8 q key)) [
    | inl (der, e) ↦ (
      λ h.
          let same = ok-injective (rw (encode_key, e) at h) in
          record {
            der = der;
            marshalled = e;
            same = sym (ap EscrowedKey.key same);
            pem = sym (ap EscrowedKey.pem same);
          },
      λ i.
          let told : der ≡ IsEncoding.der i = ok-injective (sym e ∙ IsEncoding.marshalled i) in
          rw (encode_key, e)
            (ap ok (
              escrowed_eq (sym (IsEncoding.same i)) (
                ap
                  (λ d.
                    Platform.pem_encode p
                      (record { block_type = codes "PRIVATE KEY"; headers = []; bytes = d }))
                  told
                ∙ sym (IsEncoding.pem i)))),
    )
    | inr (text, e) ↦ (
      λ h. absurd (err-ne-ok (rw (encode_key, e) at h)),
      λ i. absurd (err-ne-ok (sym e ∙ IsEncoding.marshalled i)),
    )
  ]

  try_candidate-Chosen :
      (later : Option GoError → Result GoError EscrowedKey) (c : Bytes) (cs : List Bytes)
      (e : Option GoError) (x : Candidate) (r : EscrowedKey)
      → ((f : Option GoError) → later f ≡ ok r → (key : Key) × Chosen cs key × IsEncoding key r)
      → parse_private_key_candidate p q c password ≡ x
      → try_candidate p q later e x ≡ ok r
      → (key : Key) × Chosen (c ∷ cs) key × IsEncoding key r
  unfolding try_candidate
  try_candidate-Chosen later c cs e (is_key key) r right k h =
      (key, chosen c cs k, (encode_key-IsEncoding key r).0 h)
  try_candidate-Chosen later c cs e no_key r right k h =
      let (key, found, published) = right e h in
      (key, passed_over c (subst HoldsNone (sym k) nothing) found, published)
  try_candidate-Chosen later c cs e (unreadable x) r right k h =
      let (key, found, published) = right (keep_first e (some x)) h in
      (key, passed_over c (subst HoldsNone (sym k) (spoiled x)) found, published)

  first_key-Chosen :
      (data_bytes : Bytes) (candidates : List Bytes) (e : Option GoError) (r : EscrowedKey)
      → first_key p q data_bytes password candidates e ≡ ok r
      → (key : Key) × Chosen candidates key × IsEncoding key r
  unfolding first_key
  first_key-Chosen data_bytes [] e r h = absurd (err-ne-ok h)
  first_key-Chosen data_bytes (c ∷ cs) e r h =
      try_candidate-Chosen (first_key p q data_bytes password cs) c cs e
        (parse_private_key_candidate p q c password) r (λ f. first_key-Chosen data_bytes cs f r)
        refl h

  try_candidate-HoldsNone :
      (later : Option GoError → Result GoError EscrowedKey) (e : Option GoError) {x : Candidate}
      (r : EscrowedKey)
      → HoldsNone x
      → ((f : Option GoError) → later f ≡ ok r)
      → try_candidate p q later e x ≡ ok r
  unfolding try_candidate
  try_candidate-HoldsNone later e r nothing right = right e
  try_candidate-HoldsNone later e r (spoiled x) right = right (keep_first e (some x))

  first_key_of-Chosen :
      (data_bytes : Bytes) {candidates : List Bytes} {key : Key} (r : EscrowedKey)
      → Chosen candidates key
      → IsEncoding key r
      → (e : Option GoError) → first_key p q data_bytes password candidates e ≡ ok r
  unfolding first_key try_candidate
  first_key_of-Chosen data_bytes {key} r (chosen candidate later found) published e =
      rw (first_key, found) ((encode_key-IsEncoding key r).1 published)
  first_key_of-Chosen data_bytes r (passed_over candidate {later} none_there found) published e =
      try_candidate-HoldsNone (first_key p q data_bytes password later) e r none_there
        (first_key_of-Chosen data_bytes r found published)

  Chosen-cases :
      {candidate : Bytes} {later : List Bytes} {key : Key}
      → Chosen (candidate ∷ later) key
      → (parse_private_key_candidate p q candidate password ≡ is_key key)
        ⊎ (HoldsNone (parse_private_key_candidate p q candidate password) × Chosen later key)
  Chosen-cases (chosen candidate later found) = inl found
  Chosen-cases (passed_over candidate none_there found) = inr (none_there, found)

  not-Chosen-nil : {key : Key} → Chosen [] key → ⊥
  not-Chosen-nil = elim [ ]

  candidates_enveloped :
      (data_bytes : Bytes) (envelope : Response)
      → parse_response (Platform.unmarshal p) data_bytes ≡ ok envelope
      → export_candidates p q data_bytes ≡ data_bytes ∷ collect_strings envelope.doc
  unfolding export_candidates
  candidates_enveloped data_bytes envelope e = rw (export_candidates, e) refl

  candidates_alone :
      (data_bytes text : Bytes)
      → parse_response (Platform.unmarshal p) data_bytes ≡ err text
      → export_candidates p q data_bytes ≡ data_bytes ∷ []
  unfolding export_candidates
  candidates_alone data_bytes text e = rw (export_candidates, e) refl

  KeyIn-candidates :
      (data_bytes : Bytes) (key : Key)
      → Chosen (export_candidates p q data_bytes) key
      → KeyIn data_bytes key
  KeyIn-candidates data_bytes key h =
      elim (Result-cases (parse_response (Platform.unmarshal p) data_bytes)) [
        | inl (envelope, e) ↦
            elim (Chosen-cases
              (subst (λ l. Chosen l key) (candidates_enveloped data_bytes envelope e) h)) [
                | inl found ↦ itself found
                | inr (none_there, found) ↦ enveloped envelope none_there e found
              ]
        | inr (text, e) ↦
            elim (Chosen-cases (subst (λ l. Chosen l key) (candidates_alone data_bytes text e) h)) [
              | inl found ↦ itself found
              | inr (none_there, found) ↦ absurd (not-Chosen-nil found)
            ]
      ]

  candidates-KeyIn :
      (data_bytes : Bytes) (key : Key)
      → KeyIn data_bytes key
      → Chosen (export_candidates p q data_bytes) key
  unfolding export_candidates
  candidates-KeyIn data_bytes key (itself found) = chosen data_bytes _ found
  candidates-KeyIn data_bytes key (enveloped envelope none_there e found) =
      subst (λ l. Chosen l key) (sym (candidates_enveloped data_bytes envelope e))
        (passed_over data_bytes none_there found)

  -- `ParseExportedPrivateKey` returns a key exactly if the export is not empty and holds that key:
  -- the one of the export itself or, if that holds none that can be read, the one of the first of
  -- the strings of the JSON document that holds one, whatever the errors of the candidates before
  -- it; the key is returned with its encoding in an unencrypted PKCS#8 block.
  pub parse_exported-KeyIn :
      (data_bytes : Bytes) (r : EscrowedKey)
      → (parse_exported_private_key p q data_bytes password ≡ ok r)
        ↔ ((is_nil data_bytes ≡ false) × ((key : Key) × KeyIn data_bytes key × IsEncoding key r))
  unfolding parse_exported_private_key
  parse_exported-KeyIn data_bytes r = elim (Bool-cases (is_nil data_bytes)) [
    | inl empty ↦ (
      λ h. absurd (err-ne-ok (rw (parse_exported_private_key, empty) at h)),
      λ (full, _). absurd (false≢true (sym full ∙ empty)),
    )
    | inr full ↦ (
      λ h.
          let (key, found, published) =
            first_key-Chosen data_bytes (export_candidates p q data_bytes) none r
              (rw (parse_exported_private_key, full) at h) in
          (full, (key, KeyIn-candidates data_bytes key found, published)),
      λ (_, (key, found, published)).
          rw (parse_exported_private_key, full)
            (first_key_of-Chosen data_bytes r (candidates-KeyIn data_bytes key found) published
              none),
    )
  ]
