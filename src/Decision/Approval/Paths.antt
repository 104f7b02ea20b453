-- ===== src/Decision/Approval/Paths.antt =====
-- The loop of `determine_path`: where it ends, with which path, and where it does not.
use ai_enterprise_os.Prelude.{
  ℕ, zero, suc, ◌<◌, String, ◌≡◌, refl, Bool, true, none, some, List, [], ◌∷◌, ◌==◌, arith,
  if◌then◌else◌, Option-cases, inl, inr,
}
use ai_enterprise_os.Dict.{Dict, lookup}
use ai_enterprise_os.Decision.Models.{Decision}
use ai_enterprise_os.Decision.Approval.{climb, path_from, start_role, determine_path}

-- The way from a role up to one that reports to nobody.
pub data Climbs (h : Dict String) : String → List String → Type 0 where
  stops :
      {role : String} → lookup role h ≡ none → Climbs h role (if role == "" then [] else role ∷ [])
  climbs :
      {role next : String} {path : List String}
      → lookup role h ≡ some next
      → Climbs h next path
      → Climbs h role (role ∷ path)

module _ (h : Dict String) where
  -- Each superior has a lower rank: no role is above itself.
  abbrev pub IsRanked : (String → ℕ) → Type 0
  IsRanked rank = (role next : String) → lookup role h ≡ some next → rank next < rank role

  -- Roles whose superiors are among them.
  abbrev pub IsRound : (String → Bool) → Type 0
  IsRound inside =
      (role : String)
      → inside role ≡ true
      → (next : String) × (lookup role h ≡ some next) × (inside next ≡ true)

  path_from-returns :
      (rank : String → ℕ)
      → IsRanked rank
      → (fuel : ℕ) (role : String) → rank role < fuel
      → (path : List String) × (path_from fuel h role ≡ some path) × Climbs h role path
  unfolding path_from climb
  path_from-returns rank ranked zero role small = absurd (omega arith)
  path_from-returns rank ranked (suc fuel) role small = elim (Option-cases (lookup role h)) [
    | inl e ↦ (if role == "" then [] else role ∷ [], rw e refl, stops e)
    | inr (next, e) ↦
        let (path, found, way) =
          path_from-returns rank ranked fuel next (omega (arith, ranked role next e)) in
        (role ∷ path, rw e (rw found refl), climbs e way)
  ]

  path_from-never :
      (inside : String → Bool)
      → IsRound inside
      → (fuel : ℕ) (role : String) → inside role ≡ true
      → path_from fuel h role ≡ none
  unfolding path_from climb
  path_from-never inside round zero role e = refl
  path_from-never inside round (suc fuel) role e =
      let (next, found, still) = round role e in
      rw found (rw (path_from-never inside round fuel next still) refl)

-- Where no role of the hierarchy is above itself, as ranks show, the search for a decision's path
-- ends, within as many passes as the rank of its first role and one: with the way from its owner,
-- or from "requester" without an owner, from each role to its superior, up to one that has none.
pub determine_path_returns :
    {F V : Type 0} (h : Dict String) (rank : String → ℕ)
    → IsRanked h rank
    → (d : Decision F V)
    → (path : List String) × (determine_path (suc (rank (start_role d.owner))) h d ≡ some path)
      × Climbs h (start_role d.owner) path
unfolding determine_path
determine_path_returns h rank ranked d =
    path_from-returns h rank ranked (suc (rank (start_role d.owner))) (start_role d.owner)
      (omega arith)

-- Where the superiors of some roles are all among those roles, and a decision's first role is one
-- of them, the search for its path does not end: no number of passes is enough.
pub determine_path_never :
    {F V : Type 0} (h : Dict String) (inside : String → Bool)
    → IsRound h inside
    → (d : Decision F V) → inside (start_role d.owner) ≡ true
    → (fuel : ℕ) → determine_path fuel h d ≡ none
unfolding determine_path
determine_path_never h inside round d e fuel =
    path_from-never h inside round fuel (start_role d.owner) e
