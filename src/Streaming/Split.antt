-- ===== src/Streaming/Split.antt =====
-- packages/export/streaming.py: the parts of `_split_into_parts`.
use forensa.Prelude.{
  ℕ, zero, suc, ◌+◌, ◌-◌, ◌≤◌, ◌<◌, some, List, [], ◌∷◌, ◌++◌, length, take, drop, ltb, ◌≡◌, refl,
  sym, ap, ◌∙◌, subst, arith, Bool-cases, inl, inr,
}
use forensa.Hash.{b64encode}
use forensa.Json.{pos}
use forensa.Streaming.{StreamingPart, part, split_loop, split_into_parts, join, bodies}

-- The numbers are consecutive.
abbrev pub Numbered : ℕ → List StreamingPart → Type 0
Numbered n [] = Unit
Numbered n (p ∷ ps) = (p.part_number ≡ n) × Numbered (n + 1) ps

-- All parts have the size of a chunk, but for the last, which has no more; and none is empty.
abbrev pub Sized : ℕ → List StreamingPart → Type 0
Sized chunk [] = Unit
Sized chunk (p ∷ []) = (0 < p.size_bytes) × (p.size_bytes ≤ chunk)
Sized chunk (p ∷ q ∷ ps) = (p.size_bytes ≡ chunk) × (0 < p.size_bytes) × Sized chunk (q ∷ ps)

-- Each part says its size, and its MD5.
abbrev pub Checked : (List ℕ → List ℕ) → List StreamingPart → Type 0
Checked md5 [] = Unit
Checked md5 (p ∷ ps) =
    (p.size_bytes ≡ length p.body) × (p.md5_b64 ≡ b64encode (md5 p.body)) × Checked md5 ps

take-drop_join : (n : ℕ) (xs : List ℕ) → take n xs ++ drop n xs ≡ xs
take-drop_join zero xs = refl
take-drop_join (suc n) [] = refl
take-drop_join (suc n) (x ∷ xs) = ap (λ ys. x ∷ ys) (take-drop_join n xs)

drop-nil : (k : ℕ) → drop {A = ℕ} k [] ≡ []
drop-nil zero = refl
drop-nil (suc k) = refl

drop-drop : (m n : ℕ) (xs : List ℕ) → drop m (drop n xs) ≡ drop (n + m) xs
drop-drop m zero xs = ap (λ k. drop k xs) (omega arith)
drop-drop m (suc n) [] = drop-nil m ∙ sym (drop-nil (suc n + m))
drop-drop m (suc n) (x ∷ xs) =
    drop-drop m n xs
    ∙ ap (λ k. drop k (x ∷ xs)) (let e : suc (n + m) ≡ suc n + m = omega arith in e)

length-drop : (n : ℕ) (xs : List ℕ) → length (drop n xs) ≡ length xs - n
length-drop zero xs = omega arith
length-drop (suc n) [] = omega arith
length-drop (suc n) (x ∷ xs) = omega (arith, length-drop n xs)

length-take : (n : ℕ) (xs : List ℕ) → n ≤ length xs → length (take n xs) ≡ n
length-take zero xs h = refl
length-take (suc n) [] h = absurd (omega arith)
length-take (suc n) (x ∷ xs) h = omega (arith, length-take n xs (omega arith))

take-all : (n : ℕ) (xs : List ℕ) → length xs ≤ n → take n xs ≡ xs
take-all zero [] h = refl
take-all zero (x ∷ xs) h = absurd (omega arith)
take-all (suc n) [] h = refl
take-all (suc n) (x ∷ xs) h = ap (λ ys. x ∷ ys) (take-all n xs (omega arith))

drop-all : (n : ℕ) (xs : List ℕ) → length xs ≤ n → drop n xs ≡ []
drop-all zero [] h = refl
drop-all zero (x ∷ xs) h = absurd (omega arith)
drop-all (suc n) [] h = refl
drop-all (suc n) (x ∷ xs) h = drop-all n xs (omega arith)

-- The parts that the loop makes of the rest of the bytes, from a number on.
pub record IsSplit (md5 : List ℕ → List ℕ) (chunk n : ℕ) (rest : List ℕ) (ps : List StreamingPart)
    : Type 0 where
  pub joined : join (bodies ps) ≡ rest
  pub numbered : Numbered n ps
  pub sized : Sized chunk ps
  pub checked : Checked md5 ps
  pub ended : length rest ≡ 0 → ps ≡ []

module _ (md5 : List ℕ → List ℕ) (bytes : List ℕ) (chunk : ℕ) (pos : 0 < chunk) where
  part-Sized :
      (n : ℕ) (rest : List ℕ) (ps : List StreamingPart)
      → 0 < length rest
      → (length (drop chunk rest) ≡ 0 → ps ≡ [])
      → Sized chunk ps
      → Sized chunk (part md5 n (take chunk rest) ∷ ps)
  part-Sized n rest ps some_left ended sized = elim (Bool-cases (ltb chunk (length rest))) [
    | inl more ↦ of_parts ps sized (length-take chunk rest (ground (arith, more)))
    | inr last ↦
        let none_left : ps ≡ [] = ended (ground (arith, last, length-drop chunk rest)) in
        let short : length rest ≤ chunk = ground (arith, last) in
        let whole = ap (λ (xs : List ℕ). length xs) (take-all chunk rest short) in
        subst (λ qs. Sized chunk (part md5 n (take chunk rest) ∷ qs)) (sym none_left)
          (omega (arith, whole), omega (arith, whole, short))
  ]
    where
      of_parts :
          (qs : List StreamingPart)
          → Sized chunk qs
          → length (take chunk rest) ≡ chunk
          → Sized chunk (part md5 n (take chunk rest) ∷ qs)
      of_parts [] s e = (omega arith, omega arith)
      of_parts (q ∷ qs) s e = (e, omega arith, s)

  pub split_loop-IsSplit :
      (rounds offset n : ℕ)
      → length bytes - offset < rounds
      → (ps : List StreamingPart) × (split_loop md5 bytes chunk rounds offset n ≡ some ps)
        × IsSplit md5 chunk n (drop offset bytes) ps
  unfolding split_loop
  split_loop-IsSplit zero offset n h = absurd (omega arith)
  split_loop-IsSplit (suc rounds) offset n h = elim (Bool-cases (ltb offset (length bytes))) [
    | inr done ↦ (
      [],
      rw done,
      record {
        joined = sym (drop-all offset bytes (ground (arith, done)));
        numbered = tt;
        sized = tt;
        checked = tt;
        ended = λ z. refl;
      },
    )
    | inl more ↦
        let rest = drop offset bytes in
        let (ps, e, p) =
          split_loop-IsSplit rounds (offset + chunk) (n + 1) (ground (arith, more)) in
        let below = drop-drop chunk offset bytes in
        (
          part md5 n (take chunk rest) ∷ ps,
          rw (more, e),
          record {
            joined =
                ap (λ ys. take chunk rest ++ ys) (p.joined ∙ sym below) ∙ take-drop_join chunk rest;
            numbered = (refl, p.numbered);
            sized =
                part-Sized n rest ps (ground (arith, more, length-drop offset bytes))
                  (λ z. p.ended (ap (λ (xs : List ℕ). length xs) (sym below) ∙ z)) p.sized;
            checked = (refl, refl, p.checked);
            ended = λ z. ground (arith, z, more, length-drop offset bytes);
          },
        )
  ]

-- What the parts of some bytes are.
pub record IsPartsOf (md5 : List ℕ → List ℕ) (chunk : ℕ) (bytes : List ℕ) (ps : List StreamingPart)
    : Type 0 where
  pub joined : join (bodies ps) ≡ bytes
  pub numbered : Numbered 1 ps
  pub checked : Checked md5 ps
  pub sized : 0 < length bytes → Sized chunk ps
  pub one_if_empty : length bytes ≡ 0 → length ps ≡ 1

-- With a chunk that is not empty, the split returns parts that join to the bytes, are numbered
-- from 1 on, and state their sizes and their MD5; if there are bytes, each part has the size of a
-- chunk but for the last, which has no more, and none is empty; if there are none, there is one
-- part.
pub split_into_parts-IsPartsOf :
    (md5 : List ℕ → List ℕ) (bytes : List ℕ) (chunk : ℕ)
    → 0 < chunk
    → (ps : List StreamingPart) × (split_into_parts md5 bytes (pos chunk) ≡ some ps)
      × IsPartsOf md5 chunk bytes ps
unfolding split_into_parts
split_into_parts-IsPartsOf md5 [] chunk filled = (
  part md5 1 [] ∷ [],
  refl,
  record {
    joined = refl;
    numbered = (refl, tt);
    checked = (refl, refl, tt);
    sized = λ h. absurd (omega (arith, h));
    one_if_empty = λ h. omega arith;
  },
)
split_into_parts-IsPartsOf md5 (b ∷ bytes) chunk filled =
    let (ps, e, p) =
      split_loop-IsSplit md5 (b ∷ bytes) chunk filled (suc (length (b ∷ bytes))) 0 1
        (omega arith) in
    (
      ps,
      e,
      record {
        joined = p.joined;
        numbered = p.numbered;
        checked = p.checked;
        sized = λ h. p.sized;
        one_if_empty = λ h. absurd (omega (arith, h));
      },
    )
