-- ===== src/Keystore/Filesystem/Open.antt =====
-- `NewFilesystemKeystoreFromViper`: the directories, and the account that is reused or created.
use go_acme_store.Common.{
  String, ◌≡◌, ◌∙◌, Bool, true, [], none, some, Result, ok, Exec, Effect, return, fail, reads,
  wrapped, ◌>>=◌, ◌>>◌, ◌==◌, if◌then◌else◌, arith, Result-cases, inl, inr,
}
use go_acme_store.Host.Paths.{FilePath, join}
use go_acme_store.Keystore.Types.{AcmeAccount}
use go_acme_store.Keystore.FileHost.{FileHost, IsSound}
use go_acme_store.Keystore.Filesystem.{
  Layout, layout_of, load_account, store_account, get_acme_account,
}

module _ (h : FileHost) where
  -- The part under `if needsAcmeAccount`. `new_key` is what `GenerateECKeyPEM` returns.
  unfoldable pub ensure_account : Layout → String → Result String → Effect h.Disk
  ensure_account f email new_key = do
    stored ← reads (load_account h f)
    elim stored [
      | some account ↦ return tt
      | none ↦ do
        key ← reads (λ _. new_key)
        store_account h f (record { email = email; key = key })
    ]

  -- `base` is the value of `filesystem.base_path`, an absolute path.
  unfoldable pub new_filesystem_keystore :
      String → String → Bool → Result String → Exec h.Disk Layout
  new_filesystem_keystore base email needs_account new_key =
      if base == "" then fail "filesystem.base_path not configured" else do
        let f = layout_of (join [] base)
        wrapped "failed to create base directory: " (h.os.mkdir_all f.base_path)
        wrapped "failed to create domains directory: " (h.os.mkdir_all f.domains_dir)
        if needs_account then ensure_account f email new_key else return tt
        return f

  load-mkdir :
      (sound : IsSound h) (f : Layout) (p : FilePath) (d : h.Disk)
      → load_account h f (h.os.mkdir_all p d).1 ≡ load_account h f d
  unfolding load_account
  load-mkdir sound f p d = ground (arith, sound.files.read-mkdir f.account_file p d)

  -- An account that is there is reused, and nothing is written.
  ensure_again :
      (f : Layout) (email : String) (key : Result String) (d : h.Disk) (a : AcmeAccount)
      → load_account h f d ≡ ok (some a)
      → ensure_account f email key d ≡ (ok tt, d)
  unfolding ensure_account
  ensure_again f email key d a e = ground arith

  load-store_account :
      (sound : IsSound h) (f : Layout) (a : AcmeAccount) (d : h.Disk)
      → (store_account h f a d).0 ≡ ok tt
      → load_account h f (store_account h f a d).1 ≡ ok (some a)
  unfolding store_account load_account
  load-store_account sound f a d r = elim (Result-cases (h.accounts.encode a)) [
    | inr (m, p) ↦ ground arith
    | inl (text, p) ↦
        ground
          (arith, sound.files.read-write f.account_file text d, sound.accounts.decode-encode a text)
  ]

  -- After a success there is an account: the one that was there, or the new one.
  ensure_once :
      (sound : IsSound h) (f : Layout) (email : String) (new_key : Result String) (d : h.Disk)
      → (ensure_account f email new_key d).0 ≡ ok tt
      → (a : AcmeAccount) × (load_account h f (ensure_account f email new_key d).1 ≡ ok (some a))
  unfolding ensure_account
  ensure_once sound f email new_key d r = elim (Result-cases (load_account h f d)) [
    | inr (m, p) ↦ absurd (ground arith)
    | inl (some a, p) ↦ (a, ground arith)
    | inl (none, p) ↦ elim (Result-cases new_key) [
      | inr (m, q) ↦ absurd (ground arith)
      | inl (key, q) ↦
          let a : AcmeAccount = record { email = email; key = key } in
          (a, ground (arith, load-store_account sound f a d))
    ]
  ]

  module _ (sound : IsSound h) (base : String) where
    abbrev f : Layout
    f = layout_of (join [] base)

    abbrev ready : h.Disk → h.Disk
    ready d = (h.os.mkdir_all f.domains_dir (h.os.mkdir_all f.base_path d).1).1

    opened :
        (email : String) (new_key : Result String) (d : h.Disk) (g : Layout)
        → (new_filesystem_keystore base email true new_key d).0 ≡ ok g
        → (g ≡ f)
          × ((ensure_account f email new_key (ready d)).0 ≡ ok tt)
          × ((new_filesystem_keystore base email true new_key d).1
              ≡ (ensure_account f email new_key (ready d)).1)
    unfolding new_filesystem_keystore
    opened email new_key d g r = ground arith

    load-ready : (d : h.Disk) → load_account h f (ready d) ≡ load_account h f d
    load-ready d = load-mkdir sound f f.domains_dir _ ∙ load-mkdir sound f f.base_path d

    opened_again :
        (email : String) (new_key : Result String) (d : h.Disk) (a : AcmeAccount)
        → load_account h f d ≡ ok (some a)
        → load_account h f (new_filesystem_keystore base email true new_key d).1 ≡ ok (some a)
    unfolding new_filesystem_keystore
    opened_again email new_key d a e = ground (
      arith,
      load-ready d,
      load-mkdir sound f f.base_path d,
      ensure_again f email new_key (ready d) a,
    )

    -- Over a host that keeps its promises: if opening the filesystem keystore with an account
    -- succeeds, there is an account, and opening it once more keeps that account, whatever email
    -- and key are offered then.
    pub account-reopen :
        (email email' : String) (new_key new_key' : Result String) (d : h.Disk) (g : Layout)
        → (new_filesystem_keystore base email true new_key d).0 ≡ ok g
        → let d1 = (new_filesystem_keystore base email true new_key d).1 in
          let d2 = (new_filesystem_keystore base email' true new_key' d1).1 in
          (a : AcmeAccount) × (get_acme_account h g d1 ≡ ok a) × (get_acme_account h g d2 ≡ ok a)
    unfolding get_acme_account
    account-reopen email email' new_key new_key' d g r =
        let (layout, ensured, disk) = opened email new_key d g r in
        let (a, loaded) = ensure_once sound f email new_key (ready d) ensured in
        let d1 : h.Disk = (new_filesystem_keystore base email true new_key d).1 in
        let now : load_account h f d1 ≡ ok (some a) = rw disk loaded in
        (
          a,
          ground (arith, now, layout),
          ground (arith, layout, opened_again email' new_key' d1 a now),
        )
