-- ===== src/Tabletop/Diff.antt =====
-- packages/policy/tabletop.py: the counts of the report of two simulations.
use forensa.Prelude.{
  ℕ, ◌+◌, suc, All, subst, String, ◌≡◌, refl, ap, ◌∙◌, Bool, true, false, not, Option, none, some,
  List, [], ◌∷◌, ◌++◌, length, filter, beq_refl, if◌then◌else◌, string_eq, ok, arith,
}
use forensa.Tabletop
use forensa.Tabletop.Report
use forensa.Tabletop.Entries.{IsKind, diff_labels-IsKind}

-- How many of the labels a test holds of.
abbrev count : (String → Bool) → List String → ℕ
count p [] = 0
count p (l ∷ ls) = (if p l then 1 else 0) + count p ls

count-append :
    (p : String → Bool) (xs ys : List String) → count p (xs ++ ys) ≡ count p xs + count p ys
count-append p [] ys = omega arith
count-append p (x ∷ xs) ys = omega (arith, count-append p xs ys)

count-insert_label :
    (p : String → Bool) (l : String) (ls : List String)
    → count p (Report.insert_label l ls) ≡ (if p l then 1 else 0) + count p ls
unfolding Report.insert_label
count-insert_label p l [] = refl
count-insert_label p l (m ∷ ms) = ground (arith, count-insert_label p l ms)

count-sort_labels :
    (p : String → Bool) (ls : List String) → count p (Report.sort_labels ls) ≡ count p ls
unfolding Report.sort_labels
count-sort_labels p [] = refl
count-sort_labels p (l ∷ ls) =
    omega (arith, count-insert_label p l (Report.sort_labels ls), count-sort_labels p ls)

abbrev is_some {ℓ} : {A : Type ℓ} → Option A → Bool
is_some none = false
is_some (some a) = true

in_rows : List Tabletop.ActionResult → String → Bool
in_rows rows l = is_some (Report.find_row l rows)

-- The labels of the simulated side, by the kinds that they can have.
sum_simulated : Report.KindCounts → ℕ
sum_simulated c = c.matched + c.drift + c.errored_either + c.simulated_only

sum_simulated-count :
    (sim act : Option Tabletop.ActionResult) (c : Report.KindCounts)
    → sum_simulated (Report.count_kind (Report.kind_of sim act) c)
      ≡ sum_simulated c + (if is_some sim then 1 else 0)
unfolding Report.kind_of sum_simulated
sum_simulated-count none act c = omega arith
sum_simulated-count (some s) none c = omega arith
sum_simulated-count (some s) (some a) c = ground arith

diff_labels-simulated :
    (shown : Bool) (sim act : List Tabletop.ActionResult) (ls : List String) (c : Report.KindCounts)
    → sum_simulated (Report.diff_labels shown sim act ls c).1
      ≡ sum_simulated c + count (in_rows sim) ls
unfolding Report.diff_labels in_rows
diff_labels-simulated shown sim act [] c = omega arith
diff_labels-simulated shown sim act (l ∷ ls) c =
    let entry = Report.entry_of l (Report.find_row l sim) (Report.find_row l act) in
    omega (
      arith,
      diff_labels-simulated shown sim act ls (Report.count_kind entry.kind c),
      sum_simulated-count (Report.find_row l sim) (Report.find_row l act) c,
    )

in_rows-has_label :
    (rows : List Tabletop.ActionResult) (l : String)
    → in_rows rows l ≡ Tabletop.has_label l (Tabletop.labels rows)
unfolding in_rows Report.find_row
in_rows-has_label [] l = refl
in_rows-has_label (r ∷ rows) l = ground (arith, in_rows-has_label rows l)

count-within :
    (p : String → Bool) (ls : List String)
    → ((l : String) → Tabletop.has_label l ls ≡ true → p l ≡ true)
    → count p ls ≡ length ls
count-within p [] h = refl
count-within p (l ∷ ls) h =
    let first : p l ≡ true = h l (ground (arith, beq_refl l)) in
    let rest = count-within p ls (λ m q. h m (ground (arith, q))) in ground (arith, first, rest)

count-without :
    (p q : String → Bool) (ls : List String)
    → ((l : String) → p l ≡ q l)
    → count p (filter (λ l. not (q l)) ls) ≡ 0
count-without p q [] h = refl
count-without p q (l ∷ ls) h = ground (arith, h l, count-without p q ls h)

length-labels : (rows : List Tabletop.ActionResult) → length (Tabletop.labels rows) ≡ length rows
length-labels [] = refl
length-labels (r ∷ rows) = ap suc (length-labels rows)

seen-absent :
    (l : String) (seen : List String) (rows : List Tabletop.ActionResult)
    → Report.distinct seen rows ≡ true
    → Tabletop.has_label l seen ≡ true
    → Tabletop.has_label l (Tabletop.labels rows) ≡ false
unfolding Report.distinct
seen-absent l seen [] h m = refl
seen-absent l seen (r ∷ rows) h m =
    let later = seen-absent l (r.label ∷ seen) rows in
    let same = string_eq.beq_iff r.label l in ground (arith, h, m, later, same)

-- Labels that are distinct are a set.
label_set-distinct :
    (seen : List String) (rows : List Tabletop.ActionResult)
    → Report.distinct seen rows ≡ true
    → Report.label_set (Tabletop.labels rows) ≡ Tabletop.labels rows
unfolding Report.label_set Report.distinct
label_set-distinct seen [] h = refl
label_set-distinct seen (r ∷ rows) h =
    let later : Report.distinct (r.label ∷ seen) rows ≡ true = ground (arith, h) in
    let same = label_set-distinct (r.label ∷ seen) rows later in
    let absent : Tabletop.has_label r.label (Tabletop.labels rows) ≡ false =
      seen-absent r.label (r.label ∷ seen) rows later (ground (arith, beq_refl r.label)) in
    rw (same, absent) refl

all_labels-simulated :
    (sim act : List Tabletop.ActionResult)
    → Report.distinct [] sim ≡ true
    → count (in_rows sim) (Report.all_labels sim act) ≡ length sim
unfolding Report.all_labels
all_labels-simulated sim act once =
    let known = Tabletop.labels sim in
    let others = Report.label_set (Tabletop.labels act) in
    let added = filter (λ l. not (Tabletop.has_label l known)) others in
    rw (label_set-distinct [] sim once) (
      omega (
        arith,
        count-sort_labels (in_rows sim) (known ++ added),
        count-append (in_rows sim) known added,
        count-within (in_rows sim) known (λ l h. in_rows-has_label sim l ∙ h),
        count-without (in_rows sim) (λ l. Tabletop.has_label l known) others
            (in_rows-has_label sim),
        length-labels sim,
      ))

sum_kinds : Report.KindCounts → ℕ
sum_kinds c = c.matched + c.drift + c.simulated_only + c.actual_only + c.errored_either

-- The entries that are left out.
abbrev hidden : Bool → ℕ → ℕ
hidden shown n = if shown then 0 else n

shown-count :
    (shown : Bool) (k : Report.Kind) (c : Report.KindCounts)
    → (if Report.is_shown shown k then 1 else 0)
        + hidden shown (Report.count_kind k c).matched
        + sum_kinds c
      ≡ hidden shown c.matched + sum_kinds (Report.count_kind k c)
unfolding sum_kinds
shown-count true Report.matched c = omega arith
shown-count false Report.matched c = omega arith
shown-count true Report.drift c = omega arith
shown-count false Report.drift c = omega arith
shown-count true Report.simulated_only c = omega arith
shown-count false Report.simulated_only c = omega arith
shown-count true Report.actual_only c = omega arith
shown-count false Report.actual_only c = omega arith
shown-count true Report.errored_either c = omega arith
shown-count false Report.errored_either c = omega arith

diff_labels-entries :
    (shown : Bool) (sim act : List Tabletop.ActionResult) (ls : List String) (c : Report.KindCounts)
    → length (Report.diff_labels shown sim act ls c).0
        + hidden shown (Report.diff_labels shown sim act ls c).1.matched
        + sum_kinds c
      ≡ hidden shown c.matched + sum_kinds (Report.diff_labels shown sim act ls c).1
unfolding Report.diff_labels
diff_labels-entries shown sim act [] c = omega arith
diff_labels-entries shown sim act (l ∷ ls) c =
    let kind = Report.kind_of (Report.find_row l sim) (Report.find_row l act) in
    ground (
      arith,
      diff_labels-entries shown sim act ls (Report.count_kind kind c),
      shown-count shown kind c,
    )

-- In a report of two simulations, each entry has the kind that the rows of its label give it: a
-- match or a drift of two rows without an error, with equal or different decisions, two rows with
-- an error, or a row of the simulated side with none of the other, or none of the simulated side;
-- the simulated rows are counted once each, as matches, drifts, errors or rows of that side
-- alone; and there is one entry for each counted label, but for the matches when they are left
-- out.
pub diff_tabletop_results-counts :
    (simulated actual : List Tabletop.ActionResult) (shown : Bool) (r : Report.DiffReport)
    → Report.diff_tabletop_results simulated actual shown ≡ ok r
    → All (λ (d : Report.DiffEntry). IsKind d.kind d.label simulated actual) r.entries
      × (r.total_simulated
          ≡ r.counts.matched + r.counts.drift + r.counts.errored_either + r.counts.simulated_only)
      × (length r.entries + (if shown then 0 else r.counts.matched)
          ≡ r.counts.matched + r.counts.drift + r.counts.simulated_only + r.counts.actual_only
            + r.counts.errored_either)
unfolding Report.diff_tabletop_results Report.index_by_label sum_kinds sum_simulated
diff_tabletop_results-counts simulated actual shown r h =
    let once : Report.distinct [] simulated ≡ true = ground (arith, h) in
    let labels = Report.all_labels simulated actual in
    let counted = Report.diff_labels shown simulated actual labels Report.no_kinds in
    let entries : counted.0 ≡ r.entries = ground (arith, h) in
    let counts : (r.total_simulated
          ≡ r.counts.matched + r.counts.drift + r.counts.errored_either + r.counts.simulated_only)
        × (length r.entries + (if shown then 0 else r.counts.matched)
            ≡ r.counts.matched + r.counts.drift + r.counts.simulated_only + r.counts.actual_only
              + r.counts.errored_either) =
      ground (
        arith,
        h,
        all_labels-simulated simulated actual once,
        diff_labels-simulated shown simulated actual (Report.all_labels simulated actual)
            Report.no_kinds,
        diff_labels-entries shown simulated actual (Report.all_labels simulated actual)
            Report.no_kinds,
      ) in
    (
      subst (All (λ (d : Report.DiffEntry). IsKind d.kind d.label simulated actual)) entries
          (diff_labels-IsKind shown simulated actual labels Report.no_kinds),
      counts.0,
      counts.1,
    )
