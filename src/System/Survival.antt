-- ===== src/System/Survival.antt =====
-- No schedule of requests and runs loses the key of a certificate that nobody asks to take away.
use go_acme_store.Common.{String, ◌≡◌, some}
use go_acme_store.Keystore.{Keystore}
use go_acme_store.Keystore.Types.{CertAndKey}
use go_acme_store.Keystore.Laws.{IsLawful, IsReliable}
use go_acme_store.Acme.Renewal.{Env}
use go_acme_store.System.{System}
use go_acme_store.System.Origin.{Issued, Survives, AcceptsWork}

module _ (K : Keystore) {Moment : Type 0} (env : Moment → Env) where
  module _ {Accepts : String → Type 0} (L : IsLawful K Accepts) (reliable : IsReliable K)
      (a : String) (ha : Accepts a) (c : CertAndKey) (During : Moment → Type 0) where
    -- The invariant of a system in which the keystore is there.
    abbrev pub Holds : System K env → Type 0
    Holds x =
        (s : K.State) × (x.ks ≡ some s)
        × Survives K env During a c s
        × AcceptsWork K env Accepts During x.work
