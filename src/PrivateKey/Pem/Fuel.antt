-- ===== src/PrivateKey/Pem/Fuel.antt =====
-- The rounds of `parsePEMPrivateKey`.
use kmp_issuer.Base.{
  ℕ, zero, suc, ◌<◌, ◌≡◌, refl, Bool-cases, inl, inr, Option, none, some, arith, length,
}
use kmp_issuer.Text.{Bytes, codes, contains}
use kmp_issuer.X509.{Platform, Block, DecodesShorter}
use kmp_issuer.PrivateKey.Pem.{KeyPlatform, Candidate, next_block, find_block}

module _ (p : Platform) (q : KeyPlatform) (shorter : DecodesShorter p) where
  -- Rounds that agree on what a block leaves agree on the block.
  next_block-eq :
      (f g : Bytes → Candidate) (password : Bytes) (found : Option (Block × Bytes))
      → ((block : Block) (rest : Bytes) → found ≡ some (block, rest) → f rest ≡ g rest)
      → next_block p q f password found ≡ next_block p q g password found
  unfolding next_block
  next_block-eq f g password none h = refl
  next_block-eq f g password (some (block, rest)) h =
      elim (Bool-cases (contains block.block_type (codes "PRIVATE KEY"))) [
        | inl key ↦ rw key refl
        | inr other ↦ rw other (h block rest refl)
      ]

  -- Where `pem.Decode` leaves less than it was given, any two numbers of rounds above the length of
  -- the text find the same key, or the same error.
  find_block_fuel :
      (m n : ℕ) (password text : Bytes)
      → length text < m
      → length text < n
      → find_block p q m password text ≡ find_block p q n password text
  unfolding find_block
  find_block_fuel zero n password text h k = absurd (omega arith)
  find_block_fuel (suc m) zero password text h k = absurd (omega arith)
  find_block_fuel (suc m) (suc n) password text h k =
      next_block-eq (find_block p q m password) (find_block p q n password) password
        (Platform.pem_decode p text)
        λ b rest e.
          let less = shorter text b rest e in
          find_block_fuel m n password rest (omega arith) (omega arith)
