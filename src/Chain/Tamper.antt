-- ===== src/Chain/Tamper.antt =====
-- Tamper evidence: the last hash of a verified chain fixes the whole chain.
use mathlib.Core.Path.{subst₂}
use forensa.Prelude.{
  ℕ, ◌+◌, String, ◌≡◌, refl, sym, ap, ◌∙◌, ◌⊎◌, inl, inr, true, Option, none, some, List, [], ◌∷◌,
  arith,
}
use forensa.Json.{dumps}
use forensa.Hash.Injective.{Collision, digest_cases}
use forensa.Chain.{Entry, prev_or_sentinel, entry_checks, verify_from, verify_chain}
use forensa.Chain.Seal.{bound, bound_injective, seal, sealed_of_checks}
use forensa.Chain.Append.{last_entry, verify_from-cons, verify_from-LastSealed}

-- Both are the genesis value, or both are hashes.
abbrev SameKind : Option String → Option String → Type 0
SameKind none none = Unit
SameKind (some h) (some k) = Unit
SameKind none (some k) = ⊥
SameKind (some h) none = ⊥

prev_of_sentinel :
    (p q : Option String) → SameKind p q → prev_or_sentinel p ≡ prev_or_sentinel q → p ≡ q
prev_of_sentinel none none s e = refl
prev_of_sentinel (some h) (some k) s e = ap some e
prev_of_sentinel none (some k) s e = absurd s
prev_of_sentinel (some h) none s e = absurd s

abbrev hash_of : Option Entry → Option String
hash_of none = none
hash_of (some e) = e.entry_hash

pub last_hash : List Entry → Option String
last_hash es = hash_of (last_entry es)

module _ (sha256 : List ℕ → String) where
  seal_unique :
      (i j : ℕ) (x y : String) (p q : Option String)
      → seal sha256 i x p ≡ seal sha256 j y q
      → ((i ≡ j) × (x ≡ y) × (prev_or_sentinel p ≡ prev_or_sentinel q)) ⊎ Collision sha256
  seal_unique i j x y p q h =
      elim (digest_cases sha256 (dumps (bound i x p)) (dumps (bound j y q)) h) [
        | inl e ↦ inl (bound_injective i j x y p q e)
        | inr c ↦ inr c
      ]

  -- Two entries that pass the checks at one position, with one hash.
  heads_unique :
      (i : ℕ) (p q : Option String) (e f : Entry)
      → SameKind p q
      → entry_checks sha256 i p e ≡ true
      → entry_checks sha256 i q f ≡ true
      → e.entry_hash ≡ f.entry_hash
      → ((e ≡ f) × (p ≡ q)) ⊎ Collision sha256
  heads_unique i p q e f s ce cf h =
      let (x, ex) = sealed_of_checks sha256 i p e ce in
      let (y, fy) = sealed_of_checks sha256 i q f cf in
      let hashes : some (seal sha256 i x p) ≡ some (seal sha256 i y q) =
        sym (ap (λ (z : Entry). z.entry_hash) ex) ∙ h ∙ ap (λ (z : Entry). z.entry_hash) fy in
      elim (seal_unique i i x y p q (cc hashes)) [
        | inl same ↦
            let link = prev_of_sentinel p q s same.2 in
            inl (ex ∙ (cc (same.1, link)) ∙ sym fy, link)
        | inr c ↦ inr c
      ]

  -- A chain of one entry and a longer one from the same position do not end in the same hash.
  lengths_differ :
      (i : ℕ) (p q r : Option String) (e g : Entry) (fs : List Entry)
      → entry_checks sha256 i p e ≡ true
      → verify_from sha256 (i + 1) q (g ∷ fs) ≡ true
      → e.entry_hash ≡ r
      → last_hash (g ∷ fs) ≡ r
      → Collision sha256
  unfolding last_hash
  lengths_differ i p q r e g fs ce cf he hf =
      let (x, ex) = sealed_of_checks sha256 i p e ce in
      let l = verify_from-LastSealed sha256 (i + 1) q g fs cf in
      let hashes : some (seal sha256 i x p) ≡ some (seal sha256 l.number l.payload l.prev) =
        sym (ap (λ (z : Entry). z.entry_hash) ex) ∙ he ∙ sym hf ∙ ap hash_of l.last in
      elim (seal_unique i l.number x l.payload p l.prev (cc hashes)) [
        | inl same ↦ absurd (omega (arith, l.count, same.0))
        | inr c ↦ c
      ]

  both_hashes :
      (i : ℕ) (p q : Option String) (e f : Entry)
      → entry_checks sha256 i p e ≡ true
      → entry_checks sha256 i q f ≡ true
      → SameKind e.entry_hash f.entry_hash
  both_hashes i p q e f ce cf =
      let (x, ex) = sealed_of_checks sha256 i p e ce in
      let (y, fy) = sealed_of_checks sha256 i q f cf in
      subst₂ SameKind (sym (ap (λ (z : Entry). z.entry_hash) ex))
        (sym (ap (λ (z : Entry). z.entry_hash) fy)) tt

  last_hash_unique_from :
      (i : ℕ) (p q r : Option String) (e f : Entry) (es fs : List Entry)
      → SameKind p q
      → verify_from sha256 i p (e ∷ es) ≡ true
      → verify_from sha256 i q (f ∷ fs) ≡ true
      → last_hash (e ∷ es) ≡ r
      → last_hash (f ∷ fs) ≡ r
      → ((e ∷ es ≡ f ∷ fs) × (p ≡ q)) ⊎ Collision sha256
  unfolding verify_from last_hash
  last_hash_unique_from i p q r e f [] [] s ve vf he hf =
      elim (heads_unique i p q e f s (verify_from-cons sha256 i p e [] ve).0
        (verify_from-cons sha256 i q f [] vf).0 (he ∙ sym hf)) [
          | inl same ↦ inl (cc (same.0), same.1)
          | inr c ↦ inr c
        ]
  last_hash_unique_from i p q r e f [] (g ∷ fs) s ve vf he hf = inr (
      lengths_differ i p f.entry_hash r e g fs (verify_from-cons sha256 i p e [] ve).0
        (verify_from-cons sha256 i q f (g ∷ fs) vf).1 he hf)
  last_hash_unique_from i p q r e f (g ∷ es) [] s ve vf he hf = inr (
      lengths_differ i q e.entry_hash r f g es (verify_from-cons sha256 i q f [] vf).0
        (verify_from-cons sha256 i p e (g ∷ es) ve).1 hf he)
  last_hash_unique_from i p q r e f (g ∷ es) (g' ∷ fs) s ve vf he hf =
      let (ce, te) = verify_from-cons sha256 i p e (g ∷ es) ve in
      let (cf, tf) = verify_from-cons sha256 i q f (g' ∷ fs) vf in
      elim (last_hash_unique_from (i + 1) e.entry_hash f.entry_hash r g g' es fs
        (both_hashes i p q e f ce cf) te tf he hf) [
          | inr c ↦ inr c
          | inl tails ↦ elim (heads_unique i p q e f s ce cf tails.1) [
            | inr c ↦ inr c
            | inl heads ↦ inl (cc (heads.0, tails.0), heads.1)
          ]
        ]

  -- Of two verified chains, neither empty, with one last hash, either both are the same chain,
  -- entry by entry, or two messages with one SHA-256 digest have been found.
  pub last_hash_unique :
      (e f : Entry) (es fs : List Entry)
      → verify_chain sha256 (e ∷ es) ≡ true
      → verify_chain sha256 (f ∷ fs) ≡ true
      → last_hash (e ∷ es) ≡ last_hash (f ∷ fs)
      → (e ∷ es ≡ f ∷ fs) ⊎ Collision sha256
  unfolding verify_chain
  last_hash_unique e f es fs ve vf h =
      elim (last_hash_unique_from 0 none none (last_hash (f ∷ fs)) e f es fs tt ve vf h refl) [
        | inl same ↦ inl same.0
        | inr c ↦ inr c
      ]
