-- ===== src/Receipts/Build.antt =====
-- packages/ledger/receipt_builder.py: what a built receipt holds, and that it verifies.
use forensa.Prelude.{
  ℕ, ◌+◌, String, ◌≡◌, sym, ap, subst, Option, none, some, List, ok, ◌>>=◌, >>=-eq-ok, arith,
  nat_eq,
}
use forensa.Hash.{Value, text, sha256_hex}
use forensa.Ledger.{Receipt, PolicySnapshot}
use forensa.Sign.{Ed25519, sign}
use forensa.Receipts

make_receipt-same : (r r' : Receipt) → Receipts.make_receipt r ≡ ok r' → r ≡ r'
unfolding Receipts.make_receipt
make_receipt-same r r' h = ground (arith, h)

-- The first receipt of a tenant, or the one after a receipt of the tenant.
abbrev pub IsNext : ℕ → Option Receipt → Receipt → Type 0
IsNext tenant none r = (r.sequence ≡ 0) × (r.prev_receipt_hash ≡ none)
IsNext tenant (some p) r =
    (p.tenant_id ≡ tenant)
    × (r.sequence ≡ p.sequence + 1)
    × (r.prev_receipt_hash ≡ some p.receipt_hash)

pub chain_link-IsNext :
    (tenant : ℕ) (prev : Option Receipt) (r : Receipt)
    → Receipts.chain_link tenant prev ≡ ok (r.sequence, r.prev_receipt_hash)
    → IsNext tenant prev r
unfolding Receipts.chain_link
chain_link-IsNext tenant none r h = ground (arith, h)
chain_link-IsNext tenant (some p) r h = ground (arith, h)

-- No key and no signature, or the signature of the text by the key.
abbrev pub IsSignedBy : Ed25519 → Option (List ℕ) → String → Option (List ℕ) → Type 0
IsSignedBy e none h signature = signature ≡ none
IsSignedBy e (some key) h signature =
    (s : List ℕ) × (sign e key (text h) ≡ ok s) × (signature ≡ some s)

sign_optional-IsSignedBy :
    (e : Ed25519) (key : Option (List ℕ)) (h : String) (signature : Option (List ℕ))
    → Receipts.sign_optional e key h ≡ ok signature
    → IsSignedBy e key h signature
unfolding Receipts.sign_optional
sign_optional-IsSignedBy e none h signature q = cc q
sign_optional-IsSignedBy e (some key) h signature q =
    let (s, signed, made) = >>=-eq-ok (sign e key (text h)) (λ s. ok (some s)) q in
    (s, signed, cc made)

module _ (sha256 : List ℕ → String) (e : Ed25519) where
  -- The receipt that `build_receipt` returns, field by field.
  pub record Built (tenant event : ℕ) (payload : Value) (snapshot : PolicySnapshot)
      (snapshot_id : ℕ) (prev : Option Receipt) (key : List ℕ) (agent : Option (List ℕ))
      (r : Receipt) : Type 0 where
    pub of_tenant : r.tenant_id ≡ tenant
    pub of_event : r.event_id ≡ event
    pub of_bundle : r.policy_bundle_id ≡ snapshot.policy_bundle_id
    pub linked : IsNext tenant prev r
    pub payload_bound : sha256_hex sha256 payload ≡ ok r.payload_hash
    pub recomputes : Receipts.recompute_receipt_hash sha256 r snapshot_id ≡ ok r.receipt_hash
    pub signed : sign e key (text r.receipt_hash) ≡ ok r.signature
    pub agent_signed : IsSignedBy e agent r.receipt_hash r.agent_signature

  witness_hash-parts :
      (id now : ℕ) (key : List ℕ) (agent : Option (List ℕ)) (i : Receipts.BuildInputs) (h : String)
      (r : Receipt)
      → Receipts.witness_hash e id now key agent i h ≡ ok r
      → (s : List ℕ) × (a : Option (List ℕ)) × (sign e key (text h) ≡ ok s)
        × (Receipts.sign_optional e agent h ≡ ok a)
        × (r ≡ Receipts.receipt_of id now i h s a)
  unfolding Receipts.witness_hash
  witness_hash-parts id now key agent i h r q =
      let (s, vs, q1) =
        >>=-eq-ok (sign e key (text h))
          (λ s. Receipts.sign_optional e agent h >>= λ a.
            Receipts.make_receipt (Receipts.receipt_of id now i h s a))
          q in
      let (a, va, q2) =
        >>=-eq-ok (Receipts.sign_optional e agent h)
          (λ a. Receipts.make_receipt (Receipts.receipt_of id now i h s a)) q1 in
      (s, a, vs, va, sym (make_receipt-same (Receipts.receipt_of id now i h s a) r q2))

  validate_inputs-parts :
      (tenant event : ℕ) (payload : Value) (snapshot : PolicySnapshot) (snapshot_id : ℕ)
      (prev : Option Receipt) (i : Receipts.BuildInputs)
      → Receipts.validate_inputs sha256 tenant event payload snapshot snapshot_id prev ≡ ok i
      → (i.tenant_id ≡ tenant)
        × (i.event_id ≡ event)
        × (i.policy_snapshot ≡ snapshot)
        × (i.policy_snapshot_id ≡ snapshot_id)
        × (Receipts.chain_link tenant prev ≡ ok (i.sequence, i.prev_receipt_hash))
        × (sha256_hex sha256 payload ≡ ok i.payload_hash)
  unfolding Receipts.validate_inputs
  validate_inputs-parts tenant event payload snapshot snapshot_id prev i h = ground (arith, h)

  -- A receipt that `build_receipt` returns is of the given tenant, event and bundle; without a
  -- previous receipt it has the number 0 and no previous hash, and with one, which is of the
  -- tenant, the next number and the hash of that receipt; it has the hash of the payload, a
  -- receipt hash that recomputes, the signature of that hash by the tenant, and, where there is
  -- a key of the agent and only there, its signature too.
  pub build_receipt-Built :
      (id now tenant event : ℕ) (payload : Value) (snapshot : PolicySnapshot) (snapshot_id : ℕ)
      (prev : Option Receipt) (key : List ℕ) (agent : Option (List ℕ)) (r : Receipt)
      → Receipts.build_receipt sha256 e id now tenant event payload snapshot snapshot_id prev key
          agent
        ≡ ok r
      → Built tenant event payload snapshot snapshot_id prev key agent r
  unfolding Receipts.build_receipt Receipts.compute_receipt_hash Receipts.recompute_receipt_hash
  build_receipt-Built id now tenant event payload snapshot snapshot_id prev key agent r h =
      let (i, vi, h1) =
        >>=-eq-ok (Receipts.validate_inputs sha256 tenant event payload snapshot snapshot_id prev)
          (λ i. Receipts.compute_receipt_hash sha256 i >>= λ x.
            Receipts.witness_hash e id now key agent i x)
          h in
      let (x, vx, h2) =
        >>=-eq-ok (Receipts.compute_receipt_hash sha256 i)
          (λ x. Receipts.witness_hash e id now key agent i x) h1 in
      let (t, v, s, n, l, p) =
        validate_inputs-parts tenant event payload snapshot snapshot_id prev i vi in
      let (sig, ag, vs, va, eq) = witness_hash-parts id now key agent i x r h2 in
      subst (Built tenant event payload snapshot snapshot_id prev key agent) (sym eq) (record {
        of_tenant = t;
        of_event = v;
        of_bundle = ap (λ (q : PolicySnapshot). q.policy_bundle_id) s;
        linked = chain_link-IsNext tenant prev (Receipts.receipt_of id now i x sig ag) l;
        payload_bound = p;
        recomputes =
            subst
              (λ n.
                Receipts.recompute_receipt_hash sha256 (Receipts.receipt_of id now i x sig ag) n
                ≡ ok x)
              n vx;
        signed = vs;
        agent_signed = sign_optional-IsSignedBy e agent x ag va;
      })
