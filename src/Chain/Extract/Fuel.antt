-- ===== src/Chain/Extract/Fuel.antt =====
-- The loop of `parsePEMCertificates` ends: it has rounds enough.
use kmp_issuer.Base.{
  ℕ, zero, suc, ◌<◌, ◌≡◌, refl, ap, [], Option, none, some, arith, length, ok, err, if◌then◌else◌,
}
use kmp_issuer.Text.{Bytes, codes, str_eq}
use kmp_issuer.Errors.{plain, wrap}
use kmp_issuer.X509.{Platform, Block, DecodesShorter}
use kmp_issuer.Chain.Build.{pem_certificate_type}
use kmp_issuer.Chain.Extract.{Parsed, add_first, parse_block, parse_blocks}

module _ (p : Platform) (shorter : DecodesShorter p) where
  parse_block-eq :
      (f g : Bytes → Parsed) (o : Option (Block × Bytes))
      → ((b : Block) (rest : Bytes) → o ≡ some (b, rest) → f rest ≡ g rest)
      → parse_block p f o ≡ parse_block p g o
  unfolding parse_block
  parse_block-eq f g none h = refl
  parse_block-eq f g (some (block, rest)) h =
      ap
        (λ (later : Parsed).
          if str_eq block.block_type pem_certificate_type
          then elim (Platform.parse_certificate p block.bytes) [
            | err e ↦ ([], some (wrap (codes "parsing certificate: ") (plain e) []))
            | ok cert ↦ add_first cert later
          ]
          else later)
        (h block rest refl)

  -- Where `pem.Decode` leaves less than it was given, any two numbers of rounds above the length of
  -- the text read the same certificates and the same error.
  pub parse_blocks_fuel :
      (m n : ℕ) (text : Bytes)
      → length text < m
      → length text < n
      → parse_blocks p m text ≡ parse_blocks p n text
  unfolding parse_blocks
  parse_blocks_fuel zero n text h k = absurd (omega arith)
  parse_blocks_fuel (suc m) zero text h k = absurd (omega arith)
  parse_blocks_fuel (suc m) (suc n) text h k =
      parse_block-eq (parse_blocks p m) (parse_blocks p n) (Platform.pem_decode p text) λ b rest e.
        let less = shorter text b rest e in parse_blocks_fuel m n rest (omega arith) (omega arith)
