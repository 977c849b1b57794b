-- ===== src/Host/Paths.antt =====
-- `path/filepath`: a cleaned absolute path is the list of its elements, and `Join` follows the
-- rules that Go documents for `Clean`.
use Prim.Native.Char.{Char, code}
use Prim.Native.Nat.{compare, Ordering}
use text.Mathlib.Text
use text.Mathlib.TextEquality.{eq_iff}
use text.Mathlib.TextLemmas.{append_cancel_right, cons-ne-nil, cons-append, nil-append}
use go_acme_store.Common.{
  String, String-discrete, ◌<>◌, ◌≡◌, refl, ◌≢◌, Bool, true, false, ◌||◌, Option, none, some, List,
  [], ◌∷◌, ◌++◌, arith, ◌==◌, ==_self, ==_ne, ap, Bool-cases, inl, inr, length, length-append,
  if◌then◌else◌,
}
use mathlib.Core.List.{foldl}
use mathlib.Core.Option

abbrev pub FilePath : Type 0
FilePath = List String

is_slash : Char → Bool
is_slash c = elim (compare (code c) b'/') [ Ordering.eq ↦ true | _ ↦ false ]

abbrev cons_head : Char → List String → List String
cons_head c [] = (String.◌∷◌ c "") ∷ []
cons_head c (w ∷ ws) = (String.◌∷◌ c w) ∷ ws

-- `strings.Split(s, "/")`
unfoldable pub split_path : String → List String
unfolding is_slash
split_path String.[] = "" ∷ []
split_path (String.◌∷◌ c s) =
    let rest = split_path s in if is_slash c then "" ∷ rest else cons_head c rest

-- The path without its last element.
unfoldable pub parent : FilePath → FilePath
parent [] = []
parent (x ∷ []) = []
parent (x ∷ y ∷ p) = x ∷ parent (y ∷ p)

-- One element: an empty one and `.` are dropped, and `..` takes the element before it away.
unfoldable pub push : FilePath → String → FilePath
unfolding parent
push p e = if e == "" || e == "." then p else if e == ".." then parent p else p ++ (e ∷ [])

-- `filepath.Join(p, name)`
unfoldable pub join : FilePath → String → FilePath
unfolding split_path push
join p name = foldl push p (split_path name)

-- A name that is one ordinary element.
pub record IsName (n : String) : Type 0 where
  pub single : split_path n ≡ n ∷ []
  pub not_empty : n ≢ ""
  pub not_dot : n ≢ "."
  pub not_dots : n ≢ ".."

-- For a name that is written out, each part holds by computation.
pub IsName-check :
    (n : String)
    → split_path n ≡ n ∷ []
    → (Text.◌==◌ n "" || Text.◌==◌ n "." || Text.◌==◌ n "..") ≡ false
    → IsName n
IsName-check n single differs = record {
  single = single;
  not_empty = ground (arith, eq_iff n "");
  not_dot = ground (arith, eq_iff n ".");
  not_dots = ground (arith, eq_iff n "..");
}

push_name : (p : FilePath) (n : String) → IsName n → push p n ≡ p ++ (n ∷ [])
unfolding push
push_name p n h = ground (arith, h.not_empty, h.not_dot, h.not_dots)

push_dots : (p : FilePath) → push p ".." ≡ parent p
unfolding push String-discrete
push_dots p = refl

pub join_name : (p : FilePath) (n : String) → IsName n → join p n ≡ p ++ (n ∷ [])
unfolding join
join_name p n h = rw h.single (push_name p n h)

pub append_two_ne_one :
    (p : FilePath) (a b c : String) → (p ++ (a ∷ [])) ++ (b ∷ []) ≢ p ++ (c ∷ [])
append_two_ne_one p a b c e = omega (
  arith,
  ap length e,
  length-append (p ++ (a ∷ [])) (b ∷ []),
  length-append p (a ∷ []),
  length-append p (c ∷ []),
)

pub append_last : (p q : FilePath) (a b : String) → p ++ (a ∷ []) ≡ q ++ (b ∷ []) → a ≡ b
append_last [] [] a b e = cc
append_last [] (y ∷ []) a b e = cc
append_last [] (y ∷ z ∷ q) a b e = cc
append_last (x ∷ []) [] a b e = cc
append_last (x ∷ y ∷ p) [] a b e = cc
append_last (x ∷ p) (y ∷ q) a b e = append_last p q a b (cc)

parent-append : (p : FilePath) (a : String) → parent (p ++ (a ∷ [])) ≡ p
unfolding parent
parent-append [] a = refl
parent-append (x ∷ []) a = refl
parent-append (x ∷ y ∷ p) a = ap (λ q. x ∷ q) (parent-append (y ∷ p) a)

-- The extension that `GetAllDomains` keeps and cuts off: `filepath.Ext(name) == ".json"` holds
-- exactly where the name ends so.
unfoldable pub cut_json : String → Option String
cut_json String.[] = none
cut_json (String.◌∷◌ c s) =
    let rest = cut_json s in
    if (String.◌∷◌ c s) == ".json" then some "" else Option.map (String.◌∷◌ c) rest

longer : (c : Char) (s : String) → ((String.◌∷◌ c (s <> ".json")) == ".json") ≡ false
longer c s =
    ==_ne _ _
      λ e. cons-ne-nil c s (append_cancel_right (String.◌∷◌ c s) "" ".json" (rw cons-append e))

pub cut_json-append : (d : String) → cut_json (d <> ".json") ≡ some d
unfolding cut_json
cut_json-append String.[] = rw (==_self ".json")
cut_json-append (String.◌∷◌ c s) = rw (cons-append, longer c s, cut_json-append s)

split-dots : (n : String) → split_path ("../" <> n) ≡ ".." ∷ split_path n
unfolding split_path
split-dots n = rw (cons-append "." "./" n, cons-append "." "/" n, cons-append "/" "" n, nil-append)

-- `Join` with a name that begins with `../` leaves the directory.
pub join_dots :
    (p : FilePath) (e n : String) → IsName n → join (p ++ (e ∷ [])) ("../" <> n) ≡ p ++ (n ∷ [])
join_dots p e n h =
    unfold join in rw (split-dots, h.single, push_dots, parent-append p e, push_name p n h) refl

split_path-cases : (s : String) → (w : String) × (ws : List String) × (split_path s ≡ w ∷ ws)
unfolding split_path
split_path-cases String.[] = ("", [], refl)
split_path-cases (String.◌∷◌ c s) =
    let (w, ws, e) = split_path-cases s in
    elim (Bool-cases (is_slash c)) [
      | inl slash ↦ ("", split_path s, ground arith)
      | inr plain ↦ (String.◌∷◌ c w, ws, ground arith)
    ]

-- A slash between two texts separates their elements.
pub split_path-append : (s t : String) → split_path (s <> ("/" <> t)) ≡ split_path s ++ split_path t
unfolding split_path
split_path-append String.[] t = rw (nil-append, cons-append "/" "" t, nil-append) refl
split_path-append (String.◌∷◌ c s) t =
    let (w, ws, e) = split_path-cases s in
    let ih = split_path-append s t in
    elim (Bool-cases (is_slash c)) [
      | inl slash ↦ rw (cons-append c s ("/" <> t)) (ground (arith, ih))
      | inr plain ↦ rw (cons-append c s ("/" <> t)) (ground (arith, ih))
    ]
