-- ===== src/Tests/Fiber.antt =====
-- A router that matches patterns segment by segment.
use Prim.Native.Char.{Char, code}
use Prim.Native.Nat.{compare, Ordering}
use text.Mathlib.Text
use text.Mathlib.TextEquality.{eq_iff}
use text.Mathlib.TextLemmas.{nil-append, append-nil}
use go_acme_store.Common.{
  String, String-discrete, ◌<>◌, ◌≡◌, ◌≢◌, refl, sym, ap, ◌∙◌, Bool, true, false, none, List, [],
  ◌∷◌, map, ◌==◌, ==_ne, if◌then◌else◌, contains, All, arith,
}
use mathlib.Core.Path.{subst}
use go_acme_store.Host.Paths.{split_path, split_path-append}
use go_acme_store.Routing.{Fiber}
use go_acme_store.Routing.Segments.{
  Segment, lit, param, text_of, pattern_of, path_of, words, Literals, fits, IsSound,
}

abbrev is_colon : Char → Bool
is_colon c = elim (compare (code c) b':') [ Ordering.eq ↦ true | _ ↦ false ]

abbrev segment_of : String → Segment
segment_of String.[] = lit ""
segment_of (String.◌∷◌ c s) = if is_colon c then param s else lit (String.◌∷◌ c s)

abbrev after_first : List String → List String
after_first [] = []
after_first (x ∷ xs) = xs

abbrev segments : String → List String
segments s = after_first (split_path s)

abbrev pub fiber : Fiber
fiber = record {
  matched =
      λ pattern path. fits (λ a b. a == b) (map segment_of (segments pattern)) (segments path);
  answers = λ m path. false;
  is_below = λ prefix path. false;
  same = λ a b. a == b;
  IsPlain = λ x. (split_path x ≡ x ∷ []) × (x ≢ "");
}

abbrev AllSingle : List String → Type 0
AllSingle xs = All (λ x. split_path x ≡ x ∷ []) xs

split-tail :
    (x : String) (xs : List String)
    → split_path x ≡ x ∷ []
    → AllSingle xs
    → split_path (x <> path_of xs) ≡ x ∷ xs
split-tail x [] h hs = rw (append-nil) h
split-tail x (y ∷ ys) h (hy, hs) =
    split_path-append x (y <> path_of ys) ∙ rw (h, split-tail y ys hy hs) refl

segments_lem : (xs : List String) → AllSingle xs → segments (path_of xs) ≡ xs
unfolding split_path
segments_lem [] hs = refl
segments_lem (x ∷ xs) (h, hs) =
    let e : split_path (path_of (x ∷ xs)) ≡ "" ∷ x ∷ xs =
      ap split_path (sym (nil-append (path_of (x ∷ xs))))
      ∙ split_path-append "" (x <> path_of xs)
      ∙ ap (λ l. "" ∷ l) (split-tail x xs h hs) in
    ap after_first e

-- What holds of each text of a list.
all_in :
    (P : String → Type 0) (ws : List String) (a : String) → All P ws → contains ws a ≡ true → P a
all_in P [] a h found = absurd (ground arith)
all_in P (w ∷ ws) a (h, hs) found = elim (String-discrete w a) [
  | yes e ↦ subst P e h
  | no ne ↦ all_in P ws a hs (ground arith)
]

abbrev IsWord : String → Type 0
IsWord w = (split_path w ≡ w ∷ []) × (w ≢ "") × (segment_of w ≡ lit w)

given : (w : String) → Text.◌==◌ w "" ≡ false → w ≢ ""
given w differs e = ground (arith, eq_iff w "")

words_lem : All IsWord words
unfolding split_path
words_lem = search given

word_lem : (a : String) → contains words a ≡ true → IsWord a
word_lem a h = all_in IsWord words a words_lem h

abbrev texts : List Segment → List String
texts ps = map text_of ps

texts-AllSingle : (ps : List Segment) → Literals ps → AllSingle (texts ps)
unfolding split_path
texts-AllSingle [] lits = tt
texts-AllSingle (lit l ∷ ps) (h, lits) = ((word_lem l h).0, texts-AllSingle ps lits)
texts-AllSingle (param n ∷ ps) (h, lits) = (rw h refl, texts-AllSingle ps lits)

parsed : (ps : List Segment) → Literals ps → map segment_of (texts ps) ≡ ps
parsed [] lits = refl
parsed (lit l ∷ ps) (h, lits) = rw ((word_lem l h).2, parsed ps lits) refl
parsed (param n ∷ ps) (h, lits) = rw (h, parsed ps lits) refl

pattern_lem : (ps : List Segment) → pattern_of ps ≡ path_of (texts ps)
pattern_lem [] = refl
pattern_lem (p ∷ ps) = ap (λ x. "/" <> (text_of p <> x)) (pattern_lem ps)

plain-AllSingle : (xs : List String) → All fiber.IsPlain xs → AllSingle xs
plain-AllSingle [] h = tt
plain-AllSingle (x ∷ xs) (h, hs) = (h.0, plain-AllSingle xs hs)

matched_lem :
    (ps : List Segment) (xs : List String)
    → Literals ps
    → All fiber.IsPlain xs
    → fiber.matched (pattern_of ps) (path_of xs) ≡ fits fiber.same ps xs
matched_lem ps xs lits plain =
    let pattern : map segment_of (segments (pattern_of ps)) ≡ ps =
      ap (λ t. map segment_of (segments t)) (pattern_lem ps)
      ∙ ap (map segment_of) (segments_lem (texts ps) (texts-AllSingle ps lits))
      ∙ parsed ps lits in
    ap (λ qs. fits fiber.same qs (segments (path_of xs))) pattern
    ∙ ap (fits fiber.same ps) (segments_lem xs (plain-AllSingle xs plain))

matched_root :
    (x : String) (xs : List String)
    → All fiber.IsPlain (x ∷ xs)
    → fiber.matched "/" (path_of (x ∷ xs)) ≡ none
unfolding split_path
matched_root x xs (h, hs) =
    ap (fits fiber.same (lit "" ∷ [])) (segments_lem (x ∷ xs) (plain-AllSingle (x ∷ xs) (h, hs)))
    ∙ rw (==_ne "" x (λ e. h.1 (sym e))) refl

pub fiber-IsSound : IsSound fiber
fiber-IsSound = record {
  matched_lem = matched_lem;
  matched_root = matched_root;
  same_words = λ a b ha hb. refl;
  plain_words = λ a h. let w = word_lem a h in (w.0, w.1);
  passes = λ m xs. refl;
}
