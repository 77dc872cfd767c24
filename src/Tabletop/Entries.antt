-- ===== src/Tabletop/Entries.antt =====
-- packages/policy/tabletop.py: what an entry of a report says of the rows of its label.
use forensa.Prelude.{
  String, ◌≡◌, ◌≢◌, ◌⊎◌, inl, inr, refl, ap, ◌∙◌, Bool, true, false, ◌||◌, Option, none, some, List,
  [], ◌∷◌, All, if◌then◌else◌, string_eq, ◌==◌, Bool-cases, arith, eq_iff, sym,
}
use forensa.Policy.{PolicyDecision}
use forensa.Tabletop.{ActionResult}
use forensa.Tabletop.Report
use forensa.Tabletop.Report.{Kind, DiffEntry}

-- A row with the label.
abbrev pub HasRow : String → ActionResult → List ActionResult → Type 0
HasRow label r [] = ⊥
HasRow label r (q ∷ qs) = ((q ≡ r) × (r.label ≡ label)) ⊎ HasRow label r qs

abbrev pub NoRow : String → List ActionResult → Type 0
NoRow label rows = All (λ (r : ActionResult). r.label ≢ label) rows

-- What a kind says of a label.
abbrev pub IsKind : Kind → String → List ActionResult → List ActionResult → Type 0
IsKind Report.matched label sim act =
    (s : ActionResult) × (a : ActionResult) × HasRow label s sim
    × HasRow label a act
    × (s.errored ≡ false)
    × (a.errored ≡ false)
    × (s.decision ≡ a.decision)
IsKind Report.drift label sim act =
    (s : ActionResult) × (a : ActionResult) × HasRow label s sim
    × HasRow label a act
    × (s.errored ≡ false)
    × (a.errored ≡ false)
    × (s.decision ≢ a.decision)
IsKind Report.errored_either label sim act =
    (s : ActionResult) × (a : ActionResult) × HasRow label s sim
    × HasRow label a act
    × ((s.errored ≡ true) ⊎ (a.errored ≡ true))
IsKind Report.simulated_only label sim act =
    (s : ActionResult) × HasRow label s sim × NoRow label act
IsKind Report.actual_only label sim act = NoRow label sim

find_row-HasRow :
    (label : String) (r : ActionResult) (rows : List ActionResult)
    → Report.find_row label rows ≡ some r
    → HasRow label r rows
unfolding Report.find_row
find_row-HasRow label r [] h = cc h
find_row-HasRow label r (q ∷ rows) h = elim (Bool-cases (q.label == label)) [
  | inl is ↦
      let here : q ≡ r = ground (arith, h, is) in
      inl (here, sym (ap (λ (x : ActionResult). x.label) here) ∙ (eq_iff q.label label).0 is)
  | inr other ↦ inr (find_row-HasRow label r rows (ground (arith, h, other)))
]

find_row-NoRow :
    (label : String) (rows : List ActionResult)
    → Report.find_row label rows ≡ none
    → NoRow label rows
unfolding Report.find_row
find_row-NoRow label [] h = tt
find_row-NoRow label (q ∷ rows) h = (
  λ e. ground (arith, h, (eq_iff q.label label).1 e),
  find_row-NoRow label rows (ground (arith, h)),
)

decision_beq-eq : (x y : Option PolicyDecision) → Report.decision_beq x y ≡ true → x ≡ y
unfolding Report.decision_beq
decision_beq-eq none none h = refl
decision_beq-eq (some PolicyDecision.allow) (some PolicyDecision.allow) h = refl
decision_beq-eq (some PolicyDecision.deny) (some PolicyDecision.deny) h = refl
decision_beq-eq (some PolicyDecision.escalate) (some PolicyDecision.escalate) h = refl
decision_beq-eq _ _ h = cc

decision_beq_refl : (x : Option PolicyDecision) → Report.decision_beq x x ≡ true
unfolding Report.decision_beq
decision_beq_refl none = refl
decision_beq_refl (some PolicyDecision.allow) = refl
decision_beq_refl (some PolicyDecision.deny) = refl
decision_beq_refl (some PolicyDecision.escalate) = refl

both-IsKind :
    (label : String) (sim act : List ActionResult) (s a : ActionResult)
    → HasRow label s sim
    → HasRow label a act
    → (errored same : Bool) → (s.errored || a.errored) ≡ errored
    → Report.decision_beq s.decision a.decision ≡ same
    → IsKind
        (if errored then Report.errored_either else if same then Report.matched else Report.drift)
        label
        sim
        act
both-IsKind label sim act s a p q true same e f = (
  s,
  a,
  p,
  q,
  elim (Bool-cases s.errored) [
    | inl failed ↦ inl failed
    | inr fine ↦ inr (ground (arith, e, fine))
  ],
)
both-IsKind label sim act s a p q false true e f =
    (s, a, p, q, ground (arith, e), ground (arith, e), decision_beq-eq s.decision a.decision f)
both-IsKind label sim act s a p q false false e f = (
  s,
  a,
  p,
  q,
  ground (arith, e),
  ground (arith, e),
  λ same. cc (f, ap (Report.decision_beq s.decision) same, decision_beq_refl s.decision),
)

kind_of-IsKind :
    (label : String) (sim act : List ActionResult) (s a : Option ActionResult)
    → Report.find_row label sim ≡ s
    → Report.find_row label act ≡ a
    → IsKind (Report.kind_of s a) label sim act
unfolding Report.kind_of
kind_of-IsKind label sim act none a e f = find_row-NoRow label sim e
kind_of-IsKind label sim act (some s) none e f =
    (s, find_row-HasRow label s sim e, find_row-NoRow label act f)
kind_of-IsKind label sim act (some s) (some a) e f =
    both-IsKind label sim act s a (find_row-HasRow label s sim e) (find_row-HasRow label a act f)
      (s.errored || a.errored) (Report.decision_beq s.decision a.decision) refl refl

-- The entries of the loop.
pub diff_labels-IsKind :
    (shown : Bool) (sim act : List ActionResult) (ls : List String) (c : Report.KindCounts)
    → All
        (λ (d : DiffEntry). IsKind d.kind d.label sim act)
        (Report.diff_labels shown sim act ls c).0
unfolding Report.diff_labels
diff_labels-IsKind shown sim act [] c = tt
diff_labels-IsKind shown sim act (l ∷ ls) c =
    let s = Report.find_row l sim in
    let a = Report.find_row l act in
    let entry = Report.entry_of l s a in
    shown-All (Report.is_shown shown entry.kind) entry
      (Report.diff_labels shown sim act ls (Report.count_kind entry.kind c)).0
      (kind_of-IsKind l sim act s a refl refl)
      (diff_labels-IsKind shown sim act ls (Report.count_kind entry.kind c))
  where
    shown-All :
        (b : Bool) (d : DiffEntry) (ds : List DiffEntry)
        → IsKind d.kind d.label sim act
        → All (λ (d : DiffEntry). IsKind d.kind d.label sim act) ds
        → All (λ (d : DiffEntry). IsKind d.kind d.label sim act) (if b then d ∷ ds else ds)
    shown-All true d ds p ps = (p, ps)
    shown-All false d ds p ps = ps
