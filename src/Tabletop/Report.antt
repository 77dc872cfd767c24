-- ===== src/Tabletop/Report.antt =====
-- packages/policy/tabletop.py: the report of the differences between two simulations.
use Prim.Native.String.{compare}
use Prim.Native.Nat.{lt, eq, gt}
use forensa.Prelude.{
  ℕ, ◌+◌, String, Bool, true, false, not, ◌&&◌, ◌||◌, Option, none, some, List, [], ◌∷◌, length,
  filter, if◌then◌else◌, ◌==◌, nat_eq, string_eq, Result, ok, ◌>>=◌, ◌>>◌, require, tabletop_error,
}
use mathlib.Core.List.{◌++◌ as ◌++ₗ◌}
use forensa.Policy.{PolicyDecision}
use forensa.Tabletop.{ActionResult, has_label, labels}

pub data Kind : Type 0 where
  matched drift simulated_only actual_only errored_either : Kind

pub record DiffEntry : Type 0 where
  pub label : String
  pub kind : Kind
  pub simulated_decision : Option PolicyDecision
  pub simulated_reason : Option String
  pub actual_decision : Option PolicyDecision
  pub actual_reason : Option String

pub record KindCounts : Type 0 where
  pub matched : ℕ
  pub drift : ℕ
  pub simulated_only : ℕ
  pub actual_only : ℕ
  pub errored_either : ℕ

pub record DiffReport : Type 0 where
  pub entries : List DiffEntry
  pub total_simulated : ℕ
  pub total_actual : ℕ
  pub counts : KindCounts

-- `index.get(label)`: an index is the list of its rows, whose labels are distinct.
unfoldable pub find_row : String → List ActionResult → Option ActionResult
find_row label [] = none
find_row label (r ∷ rs) = if r.label == label then some r else find_row label rs

unfoldable pub distinct : List String → List ActionResult → Bool
distinct seen [] = true
distinct seen (r ∷ rs) = not (has_label r.label seen) && distinct (r.label ∷ seen) rs

-- `_index_by_label`
unfoldable pub index_by_label : List ActionResult → Result (List ActionResult)
index_by_label rows = do require (distinct [] rows) tabletop_error; ok rows

-- `sorted` of texts, by code points.
unfoldable pub insert_label : String → List String → List String
insert_label l [] = l ∷ []
insert_label l (m ∷ ms) = elim (compare m l) [
  | lt ↦ m ∷ insert_label l ms
  | eq ↦ l ∷ m ∷ ms
  | gt ↦ l ∷ m ∷ ms
]

unfoldable pub sort_labels : List String → List String
sort_labels [] = []
sort_labels (l ∷ ls) = insert_label l (sort_labels ls)

-- The keys of a dict that is filled with the labels, as a set: each once.
unfoldable pub label_set : List String → List String
label_set [] = []
label_set (l ∷ ls) = let rest = label_set ls in if has_label l rest then rest else l ∷ rest

-- The union of the two sets, in order.
unfoldable pub all_labels : List ActionResult → List ActionResult → List String
unfolding label_set
all_labels sim act =
    let known = label_set (labels sim) in
    sort_labels (known ++ₗ filter (λ l. not (has_label l known)) (label_set (labels act)))

unfoldable pub decision_beq : Option PolicyDecision → Option PolicyDecision → Bool
decision_beq none none = true
decision_beq (some PolicyDecision.allow) (some PolicyDecision.allow) = true
decision_beq (some PolicyDecision.deny) (some PolicyDecision.deny) = true
decision_beq (some PolicyDecision.escalate) (some PolicyDecision.escalate) = true
decision_beq _ _ = false

unfoldable pub kind_of : Option ActionResult → Option ActionResult → Kind
unfolding decision_beq
kind_of none act = actual_only
kind_of (some s) none = simulated_only
kind_of (some s) (some a) =
    if s.errored || a.errored
    then errored_either
    else if decision_beq s.decision a.decision
    then matched
    else drift

abbrev pub count_kind : Kind → KindCounts → KindCounts
count_kind matched c = record c { matched = c.matched + 1 }
count_kind drift c = record c { drift = c.drift + 1 }
count_kind simulated_only c = record c { simulated_only = c.simulated_only + 1 }
count_kind actual_only c = record c { actual_only = c.actual_only + 1 }
count_kind errored_either c = record c { errored_either = c.errored_either + 1 }

abbrev decision_of : Option ActionResult → Option PolicyDecision
decision_of none = none
decision_of (some r) = r.decision

abbrev reason_of : Option ActionResult → Option String
reason_of none = none
reason_of (some r) = r.reason

abbrev pub entry_of : String → Option ActionResult → Option ActionResult → DiffEntry
entry_of label sim act = record {
  label = label;
  kind = kind_of sim act;
  simulated_decision = decision_of sim;
  simulated_reason = reason_of sim;
  actual_decision = decision_of act;
  actual_reason = reason_of act;
}

abbrev pub is_shown : Bool → Kind → Bool
is_shown include_matches matched = include_matches
is_shown include_matches _ = true

-- The loop over the labels that are left: its entries, and its counts from `counts` on.
unfoldable pub diff_labels :
    Bool
    → List ActionResult
    → List ActionResult
    → List String
    → KindCounts
    → List DiffEntry × KindCounts
diff_labels include_matches sim act [] counts = ([], counts)
diff_labels include_matches sim act (label ∷ rest) counts =
    let entry = entry_of label (find_row label sim) (find_row label act) in
    let (entries, total) =
      diff_labels include_matches sim act rest (count_kind entry.kind counts) in
    (if is_shown include_matches entry.kind then entry ∷ entries else entries, total)

abbrev pub no_kinds : KindCounts
no_kinds = record {
  matched = 0;
  drift = 0;
  simulated_only = 0;
  actual_only = 0;
  errored_either = 0;
}

unfoldable pub diff_tabletop_results :
    List ActionResult → List ActionResult → Bool → Result DiffReport
diff_tabletop_results simulated actual include_matches = do
  sim ← index_by_label simulated
  act ← index_by_label actual
  let (entries, counts) = diff_labels include_matches sim act (all_labels sim act) no_kinds
  ok (record {
    entries = entries;
    total_simulated = length simulated;
    total_actual = length actual;
    counts = counts;
  })
