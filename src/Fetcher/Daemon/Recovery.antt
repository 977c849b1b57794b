-- ===== src/Fetcher/Daemon/Recovery.antt =====
-- The daemon of the fetcher after fetches that went wrong.
use go_acme_store.Common.{
  String, ◌≡◌, ◌≢◌, ◌⊎◌, refl, ap, ◌∙◌, true, false, some, List, [], ◌∷◌, ◌++◌, Result, ok,
  contains, All,
}
use go_acme_store.Common.Dict.{Dict, lookup}
use go_acme_store.Host.Paths.{FilePath}
use go_acme_store.Host.Viper.{ℤ}
use go_acme_store.Fetcher.Client.{Http, ApiCertInfo, get_managed_domains, get_all_certs}
use go_acme_store.Fetcher.Files.{Host, IsSound, cert_file, key_file}
use go_acme_store.Fetcher.Traefik.{TraefikTls, is_included}
use go_acme_store.Fetcher.Fetch.{full_chain}
use go_acme_store.Fetcher.Fetch.Current.{IsCurrent}
use go_acme_store.Fetcher.Fetch.Complete.{Apart}
use go_acme_store.Fetcher.Fetch.Success.{ApartFile, fetch_success}
use go_acme_store.Fetcher.Daemon.{
  answers, Alarm, tick, signal, interrupted, traefik_path, fetch_at, daemon_loop, run_daemon,
}

module _ (h : Host) (path : String → FilePath) (marshal : TraefikTls → Result String)
    {Moment : Type 0} (http : Moment → Http) (api_url output_dir traefik : String) where
  abbrev fetched : Moment → h.Disk → h.Disk
  fetched m d = (fetch_at h path marshal http api_url output_dir traefik m d).1

  -- The disk after the fetches at these moments.
  abbrev pub disk_after : List Moment → h.Disk → h.Disk
  disk_after [] d = d
  disk_after (m ∷ ms) d = disk_after ms (fetched m d)

  abbrev pub ticks : List Moment → List (Alarm h path marshal http)
  ticks [] = signal ∷ []
  ticks (m ∷ ms) = tick m ∷ ticks ms

  loop_lem :
      (i : ℤ) (ms : List Moment) (d : h.Disk)
      → daemon_loop h path marshal http api_url output_dir traefik i (ticks ms) d
        ≡ interrupted i (disk_after ms d)
  unfolding daemon_loop
  loop_lem i [] d = refl
  loop_lem i (m ∷ ms) d = loop_lem i ms (fetched m d)

  after_append :
      (ms : List Moment) (m : Moment) (d : h.Disk)
      → disk_after (ms ++ (m ∷ [])) d ≡ fetched m (disk_after ms d)
  after_append [] m d = refl
  after_append (x ∷ ms) m d = after_append ms m (fetched x d)

  module _ (sound : IsSound h) where
    -- Over a host that keeps its promises: whatever the server has answered before, also where it
    -- was down, after a tick whose fetch has exit code 0 every managed domain has a certificate
    -- in the answer of the API, and if that one is managed, issued and not empty, its files are
    -- current. A signal then ends the daemon and leaves them so. The files of the domain have
    -- different names, and they are not those of another managed domain or the Traefik file.
    pub daemon_recovers :
        (i : ℤ) (first last : Moment) (between : List Moment) (d : h.Disk) (ds : List String)
        (a : String)
        → let dir = path output_dir in
          let before = disk_after (first ∷ between) d in
          get_managed_domains (http last) api_url ≡ ok ds
          → contains ds a ≡ true
          → cert_file dir a ≢ key_file dir a
          → All (Apart dir a) ds
          → ApartFile dir a (traefik_path h path marshal http traefik)
          → (fetch_at h path marshal http api_url output_dir traefik last before).0 ≡ 0
          → (end : h.Disk) × (certs : Dict ApiCertInfo) × (c : ApiCertInfo) × (run_daemon h path
                marshal http api_url output_dir traefik i first
                (ticks (between ++ (last ∷ [])))
                d
              ≡ interrupted i end)
            × (get_all_certs (http last) api_url ≡ ok certs)
            × (lookup a certs ≡ some c)
            × ((is_included c ≡ false)
                ⊎ IsCurrent h sound (answers (http last) api_url) dir a (full_chain c) end)
    unfolding run_daemon fetch_at
    daemon_recovers i first last between d ds a listed there two hs apart fine =
        let before : h.Disk = disk_after (first ∷ between) d in
        let (certs, c, got, here, current) =
          fetch_success h sound (answers (http last) api_url) (path output_dir) marshal
            (traefik_path h path marshal http traefik) before ds a listed there two hs apart fine in
        (
          fetched last before,
          certs,
          c,
          loop_lem i (between ++ (last ∷ [])) (fetched first d)
              ∙ ap (interrupted i) (after_append between last (fetched first d)),
          got,
          here,
          current,
        )
