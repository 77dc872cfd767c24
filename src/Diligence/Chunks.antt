-- ===== src/Diligence/Chunks.antt =====
-- packages/export/ma_export.py: the chunks of a window.
use forensa.Prelude.{
  ℕ, zero, suc, ◌+◌, ◌-◌, ◌≤◌, ◌<◌, min, List, [], ◌∷◌, ◌≡◌, refl, sym, subst, ap, ◌∙◌, ◌⊎◌, inl,
  inr, Bool-cases, ltb, ok, err, arith, ma_export_error,
}
use forensa.Diligence
use forensa.Diligence.{one_day}

-- Chunks from a start to an end, each where the one before it stops, none empty, none longer than
-- a day, and only the last shorter.
abbrev pub Tiles : ℕ → ℕ → List (ℕ × ℕ) → Type 0
Tiles start end [] = start ≡ end
Tiles start end ((a, b) ∷ chunks) =
    (a ≡ start)
    × (a < b)
    × ((b ≡ a + 86_400_000_000) ⊎ ((b < a + 86_400_000_000) × (b ≡ end)))
    × Tiles b end chunks

chunks_from-past :
    (rounds end cursor : ℕ) → end ≤ cursor → Diligence.chunks_from rounds end cursor ≡ []
unfolding Diligence.chunks_from
chunks_from-past zero end cursor h = refl
chunks_from-past (suc rounds) end cursor h = ground (arith, h)

chunks_from-step :
    (rounds end cursor b : ℕ)
    → cursor < end
    → min (cursor + one_day) end ≡ b
    → Diligence.chunks_from (suc rounds) end cursor
      ≡ (cursor, b) ∷ Diligence.chunks_from rounds end (cursor + one_day)
unfolding Diligence.chunks_from
chunks_from-step rounds end cursor b h e = ground (arith, h, e)

chunks_from-Tiles :
    (rounds end cursor : ℕ)
    → cursor ≤ end
    → end - cursor ≤ rounds
    → Tiles cursor end (Diligence.chunks_from rounds end cursor)
chunks_from-Tiles zero end cursor le h =
    subst (Tiles cursor end) (sym (chunks_from-past 0 end cursor (omega arith))) (omega arith)
chunks_from-Tiles (suc rounds) end cursor le h =
    let later = Diligence.chunks_from rounds end (cursor + one_day) in
    elim (Bool-cases (ltb cursor end)) [
      | inr done ↦
          let over : end ≤ cursor = ground (arith, done) in
          subst (Tiles cursor end) (sym (chunks_from-past (suc rounds) end cursor over))
            (omega arith)
      | inl more ↦
          let under : cursor < end = ground (arith, more) in
          elim (Bool-cases (ltb end (cursor + one_day))) [
            | inl last ↦
                let past : end < cursor + one_day = ground (arith, last) in
                let step = chunks_from-step rounds end cursor end under (omega arith) in
                let none_left = chunks_from-past rounds end (cursor + one_day) (omega arith) in
                subst (Tiles cursor end) (sym (step ∙ ap (λ cs. (cursor, end) ∷ cs) none_left))
                  (refl, under, inr (past, refl), refl)
            | inr inside ↦
                let fits : cursor + one_day ≤ end = ground (arith, inside) in
                let step =
                  chunks_from-step rounds end cursor (cursor + one_day) under (omega arith) in
                subst (Tiles cursor end) (sym step) (
                  refl,
                  omega arith,
                  inl refl,
                  chunks_from-Tiles rounds end (cursor + one_day) fits (omega arith),
                )
          ]
    ]

-- The chunks of a window that does not end before it starts are returned, and tile it: the first
-- starts with it, each starts where the one before it ends, none is empty, each is a day long or
-- is shorter and ends with the window, and the last ends with it. Of any other window they are
-- refused.
pub daily_chunks-Tiles :
    (start end : ℕ)
    → ((start ≤ end)
        × ((chunks : List (ℕ × ℕ)) × (Diligence.daily_chunks start end ≡ ok chunks)
            × Tiles start end chunks))
      ⊎ ((end < start) × (Diligence.daily_chunks start end ≡ err ma_export_error))
unfolding Diligence.daily_chunks
daily_chunks-Tiles start end = elim (Bool-cases (ltb end start)) [
  | inl reversed ↦ inr (ground (arith, reversed), rw reversed)
  | inr right ↦
      let le : start ≤ end = ground (arith, right) in
      inl (
        le,
        (
          Diligence.chunks_from (end - start) end start,
          rw right,
          chunks_from-Tiles (end - start) end start le (omega arith),
        ),
      )
]
