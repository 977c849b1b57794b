-- ===== src/Routing/Segments.antt =====
-- Patterns and paths by segments: what is taken of the fiber library, and which route is the first to
-- fit.
use go_acme_store.Common.{
  String, String-discrete, ◌<>◌, ◌≡◌, Bool, true, false, Option, none, some, List, [], ◌∷◌, ◌==◌,
  if◌then◌else◌, contains, All, arith, Bool-cases, Option-cases, inl, inr,
}
use mathlib.Core.Option
use go_acme_store.Routing.Setup.{
  Method, http_get, http_post, http_delete, Middleware, route, Endpoint, version, health_check,
  config, certs, get_private_key, delete_cert, get_domains, add_domain, remove_domain,
  trigger_renewal, export_keystore, import_keystore, Registered,
}
use go_acme_store.Routing.{same_method, Fiber, endpoint, answer}

-- A pattern and a path by segments.
pub data Segment : Type 0 where
  lit : String → Segment
  param : String → Segment

abbrev pub text_of : Segment → String
text_of (lit l) = l
text_of (param n) = ":" <> n

abbrev pub pattern_of : List Segment → String
pattern_of [] = ""
pattern_of (p ∷ ps) = "/" <> (text_of p <> pattern_of ps)

abbrev pub path_of : List String → String
path_of [] = ""
path_of (x ∷ xs) = "/" <> (x <> path_of xs)

-- The segments that are written out in the routes. Their one parameter is `:domain`.
abbrev pub words : List String
words =
    "api" ∷ "version" ∷ "healthz" ∷ "config" ∷ "certs" ∷ "private-key" ∷ "domains"
    ∷ "trigger-renewal" ∷ "keystore" ∷ "export" ∷ "import" ∷ "metrics" ∷ []

abbrev pub Literals : List Segment → Type 0
Literals [] = Unit
Literals (lit l ∷ ps) = (contains words l ≡ true) × Literals ps
Literals (param n ∷ ps) = (n ≡ "domain") × Literals ps

module _ (same : String → String → Bool) where
  -- The values of the parameters, segment by segment.
  abbrev pub fits : List Segment → List String → Option (List String)
  fits [] [] = some []
  fits [] (x ∷ xs) = none
  fits (p ∷ ps) [] = none
  fits (lit l ∷ ps) (x ∷ xs) = let rest = fits ps xs in if same l x then rest else none
  fits (param n ∷ ps) (x ∷ xs) = Option.map (λ vs. x ∷ vs) (fits ps xs)

module _ (F : Fiber) where
  -- What fiber documents, as far as the server's routes need it.
  pub record IsSound : Type 0 where
    -- A pattern of segments matches the paths that fit it.
    pub matched_lem :
        (ps : List Segment) (xs : List String)
        → Literals ps
        → All F.IsPlain xs
        → F.matched (pattern_of ps) (path_of xs) ≡ fits F.same ps xs
    -- The root matches no path that has a segment.
    pub matched_root :
        (x : String) (xs : List String)
        → All F.IsPlain (x ∷ xs)
        → F.matched "/" (path_of (x ∷ xs)) ≡ none
    pub same_words :
        (a b : String) → contains words a ≡ true → contains words b ≡ true → F.same a b ≡ (a == b)
    pub plain_words : (a : String) → contains words a ≡ true → F.IsPlain a
    -- The middleware of the server passes the requests of the API on.
    pub passes : (m : Middleware) (xs : List String) → F.answers m (path_of ("api" ∷ xs)) ≡ false

-- The routes of the API, by segments.
abbrev pub api_table : List (Method × List Segment × Endpoint)
api_table =
    (http_get, lit "api" ∷ lit "version" ∷ [], version)
    ∷ (http_get, lit "api" ∷ lit "healthz" ∷ [], health_check)
    ∷ (http_get, lit "api" ∷ lit "config" ∷ [], config)
    ∷ (http_get, lit "api" ∷ lit "certs" ∷ [], certs)
    ∷ (http_get, lit "api" ∷ lit "certs" ∷ param "domain" ∷ lit "private-key" ∷ [], get_private_key)
    ∷ (http_delete, lit "api" ∷ lit "certs" ∷ param "domain" ∷ [], delete_cert)
    ∷ (http_get, lit "api" ∷ lit "domains" ∷ [], get_domains)
    ∷ (http_post, lit "api" ∷ lit "domains" ∷ [], add_domain)
    ∷ (http_delete, lit "api" ∷ lit "domains" ∷ param "domain" ∷ [], remove_domain)
    ∷ (http_post, lit "api" ∷ lit "trigger-renewal" ∷ [], trigger_renewal)
    ∷ (http_get, lit "api" ∷ lit "keystore" ∷ lit "export" ∷ [], export_keystore)
    ∷ (http_post, lit "api" ∷ lit "keystore" ∷ lit "import" ∷ [], import_keystore)
    ∷ []

abbrev pub routed : List (Method × List Segment × Endpoint) → List Registered → List Registered
routed [] rest = rest
routed ((m, ps, e) ∷ table) rest = route m (pattern_of ps) e ∷ routed table rest

abbrev pub AllLiterals : List (Method × List Segment × Endpoint) → Type 0
AllLiterals [] = Unit
AllLiterals ((m, ps, e) ∷ table) = Literals ps × AllLiterals table

abbrev pub first :
    Bool
    → Option (List String)
    → Endpoint
    → Option (Endpoint × List String)
    → Option (Endpoint × List String)
first true (some values) e later = some (e, values)
first true none e later = later
first false o e later = later

pub api_literals : AllLiterals api_table
unfolding String-discrete
api_literals = search

module _ (F : Fiber) where
  -- The first route that fits.
  abbrev pub first_fit :
      List (Method × List Segment × Endpoint)
      → Method
      → List String
      → Option (Endpoint × List String)
  first_fit [] m xs = none
  first_fit ((m', ps, e) ∷ table) m xs =
      first (same_method m' m) (fits F.same ps xs) e (first_fit table m xs)

  pub answer_routed :
      (sound : IsSound F) (table : List (Method × List Segment × Endpoint)) (rest : List Registered)
      (m : Method) (xs : List String) (e : Endpoint) (values : List String)
      → AllLiterals table
      → All F.IsPlain xs
      → first_fit table m xs ≡ some (e, values)
      → answer F (routed table rest) m (path_of xs) ≡ ([], endpoint e values)
  unfolding answer
  answer_routed sound [] rest m xs e values lits plain h = absurd (ground arith)
  answer_routed sound ((m', ps, e') ∷ table) rest m xs e values (w, lits) plain h =
      let same = sound.matched_lem ps xs w plain in
      elim (Bool-cases (same_method m' m)) [
        | inr other ↦
            ground (arith, answer_routed sound table rest m xs e values lits plain (ground arith))
        | inl here ↦ elim (Option-cases (fits F.same ps xs)) [
          | inl misses ↦
              ground (
                arith,
                same,
                answer_routed sound table rest m xs e values lits plain (ground arith),
              )
          | inr (vs, hits) ↦ ground (arith, same)
        ]
      ]
