-- ===== src/Decision/History.antt =====
-- src/ai_company/decision/history.py: DecisionHistory without a storage path. Decisions are objects
-- that callers, the index and the history share, so they stand in a heap and are kept by reference.
-- An entry of the history is a dict that `to_dict` made: its texts, numbers and tests are those of
-- the moment it was recorded, but its lists and dicts are the decision's own, and read through it.
pub mod Queries
use ai_enterprise_os.Prelude.{
  ℕ, ◌-◌, String, Bool, true, false, Option, none, some, List, [], ◌∷◌, ◌++◌, ◌==◌, if◌then◌else◌,
  map, take, leb, eqb, keep, any, elem, length, drop, sort_by, Result, ok, err, ◌>>=◌,
}
use ai_enterprise_os.Dict.{Dict, lookup, insert, values}
use ai_enterprise_os.Decision.Models.{Decision, status_value, category_value, priority_name}

abbrev pub Ref : Type 0
Ref = ℕ

abbrev pub Heap : Type 0 → Type 0 → Type 0
Heap F V = Ref → Decision F V

pub record Entry (F V : Type 0) : Type 0 where
  pub object : Ref
  pub copied : Decision F V
  pub recorded_at : ℕ

pub record DecisionHistory (F V : Type 0) : Type 0 where
  pub decisions : Dict Ref
  pub entries : List (Entry F V)

-- `if status: results = [...]`: `none` and the empty text ask for nothing.
abbrev pub wants : Option String → String → Bool
wants none field = true
wants (some wanted) field = if wanted == "" then true else field == wanted

-- `if tags: results = [d for d in results if any(t in d.tags for t in tags)]`
abbrev pub tagged : List String → List String → Bool
tagged [] own = true
tagged (t ∷ ts) own = any (λ tag. elem tag own) (t ∷ ts)

-- Python's str.lower, and datetime.fromisoformat, which gives a time, or raises ValueError with its
-- text. Dates with a time zone, which do not compare with `created_at`, are left out.
pub record Texts : Type 0 where
  pub lower : String → String
  pub fromisoformat : String → Result String ℕ

-- `d.priority.name.lower() == priority.lower()`
abbrev pub ranks : (String → String) → Option String → String → Bool
ranks lower none name = true
ranks lower (some wanted) name = if wanted == "" then true else lower name == lower wanted

-- The keyword arguments of `query`, without the limit.
pub record Filters : Type 0 where
  pub status : Option String
  pub category : Option String
  pub owner : Option String
  pub requester : Option String
  pub priority : Option String
  pub tags : List String
  pub start_date : Option String
  pub end_date : Option String

-- `if start_date: start = datetime.fromisoformat(start_date)`
abbrev pub bound : Texts → Option String → Result String (Option ℕ)
bound texts none = ok none
bound texts (some date) =
    if date == "" then ok none else (do time ← texts.fromisoformat date; ok (some time))

abbrev pub not_before : Option ℕ → ℕ → Bool
not_before none time = true
not_before (some start) time = leb start time

abbrev pub not_after : Option ℕ → ℕ → Bool
not_after none time = true
not_after (some end) time = leb time end

module _ {F V : Type 0} where
  abbrev pub write : Ref → Decision F V → Heap F V → Heap F V
  write r d heap s = if eqb r s then d else heap s

  -- What an entry shows.
  unfoldable pub to_dict : Heap F V → Entry F V → Decision F V
  to_dict heap e =
      let d : Decision F V = heap e.object in
      record (e.copied) {
        stakeholders = d.stakeholders;
        options = d.options;
        risk_factors = d.risk_factors;
        escalation_path = d.escalation_path;
        tags = d.tags;
        metadata = d.metadata;
        context = d.context;
        constraints = d.constraints;
        dependents = d.dependents;
      }

  -- DecisionHistory.record
  unfoldable pub record_decision : Heap F V → Ref → ℕ → DecisionHistory F V → DecisionHistory F V
  record_decision heap r now h = record h {
    decisions = insert ((heap r).id) r h.decisions;
    entries = h.entries ++ record { object = r; copied = heap r; recorded_at = now } ∷ [];
  }

  unfoldable pub get : String → DecisionHistory F V → Option Ref
  get id h = lookup id h.decisions

  unfoldable pub get_all : Heap F V → DecisionHistory F V → List (Decision F V)
  get_all heap h = map heap (values h.decisions)

  unfoldable pub selected :
      Texts → Filters → List (Decision F V) → Result String (List (Decision F V))
  selected texts f ds = do
    let named =
        keep (λ (d : Decision F V). tagged f.tags d.tags)
          (keep (λ (d : Decision F V). ranks texts.lower f.priority (priority_name d.priority))
            (keep (λ (d : Decision F V). wants f.requester d.requester)
              (keep (λ (d : Decision F V). wants f.owner d.owner)
                (keep (λ (d : Decision F V). wants f.category (category_value d.category))
                  (keep (λ (d : Decision F V). wants f.status (status_value d.status)) ds)))))
    start ← bound texts f.start_date
    let since = keep (λ (d : Decision F V). not_before start d.created_at) named
    end ← bound texts f.end_date
    ok (keep (λ (d : Decision F V). not_after end d.created_at) since)

  abbrev pub newer : Decision F V → Decision F V → Bool
  newer a b = leb b.created_at a.created_at

  unfoldable pub query :
      Texts → Filters → ℕ → Heap F V → DecisionHistory F V → Result String (List (Decision F V))
  query texts f limit heap h = do
    results ← selected texts f (get_all heap h)
    ok (take limit (sort_by newer results))

  -- DecisionHistory.import_decisions
  unfoldable pub import_decisions : Heap F V → List Ref → DecisionHistory F V → DecisionHistory F V
  import_decisions heap [] h = h
  import_decisions heap (r ∷ rs) h =
      import_decisions heap rs (record h { decisions = insert ((heap r).id) r h.decisions })

  -- `self._history[-limit:]`
  unfoldable pub get_history : ℕ → DecisionHistory F V → List (Entry F V)
  get_history limit h = if eqb limit 0 then h.entries else drop (length h.entries - limit) h.entries

  unfoldable pub count : DecisionHistory F V → ℕ
  count h = length h.decisions

  unfoldable pub clear : DecisionHistory F V → DecisionHistory F V
  clear h = record { decisions = []; entries = [] }
