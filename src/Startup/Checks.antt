-- ===== src/Startup/Checks.antt =====
-- The checks of `main`.
use go_acme_store.Common.{
  String, ◌<>◌, ◌≡◌, ◌≢◌, ◌⊎◌, ◌↔◌, refl, sym, ap, ◌∙◌, List, [], ◌∷◌, arith, inl, inr,
  String-discrete,
}
use go_acme_store.Host.Viper.{Viper}
use go_acme_store.Log.{running, exited}
use go_acme_store.Startup.{required_keys, check_keys, check_config}

-- The settings that each back end needs.
pub data BackendIsSet (v : Viper) : Type 0 where
  memory : v.get_string "keystore.backend" ≡ "memory" → BackendIsSet v
  filesystem :
      v.get_string "keystore.backend" ≡ "filesystem"
      → v.get_string "filesystem.base_path" ≢ ""
      → BackendIsSet v
  vault :
      v.get_string "keystore.backend" ≡ "vault"
      → v.get_string "vault.address" ≢ ""
      → v.get_string "vault.kv2_mount" ≢ ""
      → v.get_string "vault.kv2_secret_path" ≢ ""
      → BackendIsSet v

refused :
    (b : String)
    → b ≢ "vault"
    → b ≢ "filesystem"
    → b ≢ "memory"
    → required_keys b
      ≡ exited
          ("unsupported keystore backend: " <> (b <> " (supported: vault, filesystem, memory)"))
unfolding required_keys
refused b p q r = ground arith

-- What `required_keys` returns for a name.
required_keys-cases :
    (b : String)
    → ((b ≡ "vault")
        × (required_keys b
            ≡ running (
                "acme.dns_provider" ∷ "vault.address" ∷ "vault.kv2_mount" ∷ "vault.kv2_secret_path"
                ∷ [])))
      ⊎ ((b ≡ "filesystem")
          × (required_keys b ≡ running ("acme.dns_provider" ∷ "filesystem.base_path" ∷ [])))
      ⊎ ((b ≡ "memory") × (required_keys b ≡ running ("acme.dns_provider" ∷ [])))
      ⊎ ((m : String) × (required_keys b ≡ exited m))
unfolding required_keys
required_keys-cases b = elim (String-discrete b "vault") [
  | yes p ↦ inl (p, ground arith)
  | no p ↦ elim (String-discrete b "filesystem") [
    | yes q ↦ inr (inl (q, ground arith))
    | no q ↦ elim (String-discrete b "memory") [
      | yes r ↦ inr (inr (inl (r, ground arith)))
      | no r ↦ inr (inr (inr (_, refused b p q r)))
    ]
  ]
]

abbrev IsGiven : Viper → List String → Type 0
IsGiven v [] = Unit
IsGiven v (k ∷ ks) = (v.get_string k ≢ "") × IsGiven v ks

check_keys_iff :
    (v : Viper) (keys : List String) → (check_keys v keys ≡ running tt) ↔ IsGiven v keys
unfolding check_keys
check_keys_iff v [] = (λ _. tt, λ _. refl)
check_keys_iff v (k ∷ ks) =
    let ih = check_keys_iff v ks in
    elim (String-discrete (v.get_string k) "") [
      | yes e ↦ (λ h. absurd (ground arith), λ (p, ps). absurd (p e))
      | no n ↦ (λ h. (n, ih.0 (ground arith)), λ (p, ps). ground (arith, ih.1 ps))
    ]

check_config-exited :
    (v : Viper) (m : String)
    → required_keys (v.get_string "keystore.backend") ≡ exited m
    → check_config v ≡ exited m
unfolding check_config
check_config-exited v m h = rw (check_config, h)

check_config-running :
    (v : Viper) (ks : List String)
    → required_keys (v.get_string "keystore.backend") ≡ running ks
    → check_config v ≡ check_keys v ks
unfolding check_config
check_config-running v ks h = rw (check_config, h)

required_memory : required_keys "memory" ≡ running ("acme.dns_provider" ∷ [])
unfolding required_keys String-discrete
required_memory = refl

required_files :
    required_keys "filesystem" ≡ running ("acme.dns_provider" ∷ "filesystem.base_path" ∷ [])
unfolding required_keys String-discrete
required_files = refl

required_vault :
    required_keys "vault"
    ≡ running
        ("acme.dns_provider" ∷ "vault.address" ∷ "vault.kv2_mount" ∷ "vault.kv2_secret_path" ∷ [])
unfolding required_keys String-discrete
required_vault = refl

passes :
    (v : Viper) (b : String) (ks : List String)
    → v.get_string "keystore.backend" ≡ b
    → required_keys b ≡ running ks
    → (check_config v ≡ running tt) ↔ IsGiven v ks
passes v b ks e r =
    let (to, from) = check_keys_iff v ks in
    let same : check_config v ≡ check_keys v ks =
      check_config-running v ks (ap required_keys e ∙ r) in
    (λ h. to (sym same ∙ h), λ h. same ∙ from h)

-- main goes on after its checks exactly when a DNS provider is named, the back end is one of the
-- three, and what that back end needs is set. An empty name of the back end does not stand for
-- vault here.
pub check_config_iff :
    (v : Viper)
    → (check_config v ≡ running tt) ↔ (BackendIsSet v × (v.get_string "acme.dns_provider" ≢ ""))
check_config_iff v =
    let b : String = v.get_string "keystore.backend" in
    (
      λ h. elim (required_keys-cases b) [
        | inl (e, r) ↦ let (d, (x, (y, (z, _)))) = (passes v b _ refl r).0 h in (vault e x y z, d)
        | inr (inl (e, r)) ↦ let (d, (x, _)) = (passes v b _ refl r).0 h in (filesystem e x, d)
        | inr (inr (inl (e, r))) ↦ let (d, _) = (passes v b _ refl r).0 h in (memory e, d)
        | inr (inr (inr (m, r))) ↦ absurd (ground (arith, check_config-exited v m r))
      ],
      λ (set, d). elim set [
        | memory e ↦ (passes v "memory" _ e required_memory).1 (d, tt)
        | filesystem e x ↦ (passes v "filesystem" _ e required_files).1 (d, (x, tt))
        | vault e x y z ↦ (passes v "vault" _ e required_vault).1 (d, (x, (y, (z, tt))))
      ],
    )
