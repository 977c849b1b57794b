-- ===== src/Keystore/Named.antt =====
-- The loops of the back ends over their lists of managed domains, `[]string` in memory.go and
-- `[]ManagedDomain` in filesystem.go and vault.go: a list of records that have a name.
use go_acme_store.Common.{
  String, ◌≡◌, refl, Bool, false, ◌||◌, List, [], ◌∷◌, ◌++◌, arith, ◌==◌, if◌then◌else◌, contains,
  without, map,
}
use go_acme_store.Common.{sym, ◌∙◌}
use mathlib.Core.List.{append-nil, append_assoc, map-append}

abbrev pub itself : String → String
itself d = d

module _ {A : Type 0} (name : A → String) where
  -- `for _, d := range list { if d == domain { return … } }`
  unfoldable pub is_listed : String → List A → Bool
  is_listed domain [] = false
  is_listed domain (d ∷ rest) = name d == domain || is_listed domain rest

  -- The loop of `RemoveManagedDomain`, over `found` and `newDomains`.
  unfoldable pub drop_loop : String → List A → Bool → List A → Bool × List A
  drop_loop domain [] found kept = (found, kept)
  drop_loop domain (d ∷ rest) found kept =
      drop_loop domain rest (name d == domain || found)
        (if name d == domain then kept else kept ++ (d ∷ []))

  pub is_listed-contains :
      (domain : String) (l : List A) → is_listed domain l ≡ contains (map name l) domain
  unfolding is_listed
  is_listed-contains domain [] = refl
  is_listed-contains domain (d ∷ rest) = ground (arith, is_listed-contains domain rest)

  pub drop_loop-found :
      (domain : String) (l : List A) (found : Bool) (kept : List A)
      → (drop_loop domain l found kept).0 ≡ (found || is_listed domain l)
  unfolding drop_loop is_listed
  drop_loop-found domain [] found kept = ground arith
  drop_loop-found domain (d ∷ rest) found kept = ground (
    arith,
    drop_loop-found domain rest (name d == domain || found)
        (if name d == domain then kept else kept ++ (d ∷ [])),
  )

  pub drop_loop-kept :
      (domain : String) (l : List A) (found : Bool) (kept : List A)
      → map name (drop_loop domain l found kept).1 ≡ map name kept ++ without domain (map name l)
  unfolding drop_loop
  drop_loop-kept domain [] found kept = rw append-nil
  drop_loop-kept domain (d ∷ rest) found kept = ground (
    arith,
    drop_loop-kept domain rest (name d == domain || found) kept,
    drop_loop-kept domain rest (name d == domain || found) (kept ++ (d ∷ [])),
    map-append name kept (d ∷ []),
    append_assoc (map name kept) (name d ∷ []) (without domain (map name rest)),
  )

-- The same over plain names.
pub map-itself : (l : List String) → map itself l ≡ l
map-itself [] = refl
map-itself (x ∷ l) = rw (map-itself l)

pub is_listed-itself : (d : String) (l : List String) → is_listed itself d l ≡ contains l d
is_listed-itself d l = is_listed-contains itself d l ∙ rw map-itself

pub kept-itself : (d : String) (l : List String) → (drop_loop itself d l false []).1 ≡ without d l
kept-itself d l = sym (map-itself _) ∙ drop_loop-kept itself d l false [] ∙ rw map-itself

pub found-itself : (d : String) (l : List String) → (drop_loop itself d l false []).0 ≡ contains l d
found-itself d l = drop_loop-found itself d l false [] ∙ is_listed-itself d l
