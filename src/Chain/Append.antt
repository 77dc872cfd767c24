-- ===== src/Chain/Append.antt =====
-- The end of a verified chain, and its extension by `next_entry`.
use forensa.Prelude.{
  ℕ, ◌+◌, String, ◌≡◌, ◌≢◌, refl, sym, ap, subst, true, Option, none, some, List, [], ◌∷◌, ◌++◌,
  length, arith, ok, eq_iff,
}
use forensa.Hash.{sha256_hex, canonical_json, normalise}
use forensa.Chain.{Entry, next_entry, entry_checks, verify_from, verify_chain}
use forensa.Chain.Seal.{seal, sealed, entry_checks-sealed, sealed_of_checks}

-- `entries[-1]`, if there is one.
abbrev pub last_entry : List Entry → Option Entry
last_entry [] = none
last_entry (e ∷ []) = some e
last_entry (e ∷ f ∷ es) = last_entry (f ∷ es)

-- `expected_prev_hash` after the loop.
abbrev end_hash : Option String → List Entry → Option String
end_hash p [] = p
end_hash p (e ∷ es) = end_hash e.entry_hash es

module _ (sha256 : List ℕ → String) where
  pub verify_from-cons :
      (i : ℕ) (p : Option String) (e : Entry) (es : List Entry)
      → verify_from sha256 i p (e ∷ es) ≡ true
      → (entry_checks sha256 i p e ≡ true) × (verify_from sha256 (i + 1) e.entry_hash es ≡ true)
  unfolding verify_from
  verify_from-cons i p e es h = ground arith

  verify_from-append :
      (i j : ℕ) (p : Option String) (es : List Entry) (e : Entry)
      → i + length es ≡ j
      → verify_from sha256 i p es ≡ true
      → entry_checks sha256 j (end_hash p es) e ≡ true
      → verify_from sha256 i p (es ++ e ∷ []) ≡ true
  unfolding verify_from
  verify_from-append i j p [] e n h c =
      let k : i ≡ j = omega arith in
      ground (arith, subst (λ m. entry_checks sha256 m p e ≡ true) (sym k) c)
  verify_from-append i j p (f ∷ es) e n h c =
      ground (arith, verify_from-append (i + 1) j f.entry_hash es e (omega arith))

  -- The last entry of a verified chain is sealed, with the number of the entries before it.
  pub record LastSealed (i : ℕ) (p : Option String) (es : List Entry) : Type 0 where
    pub number : ℕ
    pub payload : String
    pub prev : Option String
    pub count : i + length es ≡ number + 1
    pub last : last_entry es ≡ some (sealed sha256 number payload prev)
    pub ended : end_hash p es ≡ some (seal sha256 number payload prev)

  pub verify_from-LastSealed :
      (i : ℕ) (p : Option String) (e : Entry) (es : List Entry)
      → verify_from sha256 i p (e ∷ es) ≡ true
      → LastSealed i p (e ∷ es)
  unfolding verify_from
  verify_from-LastSealed i p e [] h =
      let (payload, q) = sealed_of_checks sha256 i p e (verify_from-cons i p e [] h).0 in
      record {
        number = i;
        payload = payload;
        prev = p;
        count = omega arith;
        last = ap some q;
        ended = ap (λ (x : Entry). x.entry_hash) q;
      }
  verify_from-LastSealed i p e (f ∷ es) h =
      let r =
        verify_from-LastSealed (i + 1) e.entry_hash f es (verify_from-cons i p e (f ∷ es) h).1 in
      record {
        number = r.number;
        payload = r.payload;
        prev = r.prev;
        count = omega (arith, r.count);
        last = r.last;
        ended = r.ended;
      }

  next_entry-eq-sealed :
      (i : ℕ) (x : String) (p : Option String) (payload : String)
      → payload ≢ ""
      → next_entry sha256 (some (sealed sha256 i x p)) payload
        ≡ ok (sealed sha256 (i + 1) payload (some (seal sha256 i x p)))
  unfolding next_entry sha256_hex canonical_json normalise
  next_entry-eq-sealed i x p payload ne = ground (arith, eq_iff payload "")

  next_entry-eq-genesis :
      (payload : String)
      → payload ≢ ""
      → next_entry sha256 none payload ≡ ok (sealed sha256 0 payload none)
  unfolding next_entry sha256_hex canonical_json normalise
  next_entry-eq-genesis payload ne = ground (arith, eq_iff payload "")

  -- A verified chain can be extended by any payload hash that is not empty: `next_entry` of its
  -- last entry is returned, holds that payload hash, and the chain with it is verified.
  pub next_entry_extends :
      (es : List Entry) (payload : String)
      → verify_chain sha256 es ≡ true
      → payload ≢ ""
      → (e : Entry) × (next_entry sha256 (last_entry es) payload ≡ ok e)
        × (e.payload_hash ≡ some payload)
        × (verify_chain sha256 (es ++ e ∷ []) ≡ true)
  unfolding verify_chain
  next_entry_extends [] payload v ne = (
    sealed sha256 0 payload none,
    next_entry-eq-genesis payload ne,
    refl,
    verify_from-append 0 0 none [] (sealed sha256 0 payload none) (omega arith) v
        (entry_checks-sealed sha256 0 payload none),
  )
  next_entry_extends (f ∷ es) payload v ne =
      let l = verify_from-LastSealed 0 none f es v in
      let next =
        sealed sha256 (l.number + 1) payload (some (seal sha256 l.number l.payload l.prev)) in
      (
        next,
        rw l.last (next_entry-eq-sealed l.number l.payload l.prev payload ne),
        refl,
        verify_from-append 0 (l.number + 1) none (f ∷ es) next l.count v (
            rw l.ended (
              entry_checks-sealed sha256 (l.number + 1) payload
                (some (seal sha256 l.number l.payload l.prev)))),
      )
