-- ===== src/Routing/Delivered.antt =====
-- From the keystore of the server, over its routes, to the files of the fetcher.
use go_acme_store.Common.{
  String, ◌<>◌, ◌≡◌, ◌≢◌, ◌⊎◌, true, Option, some, List, Result, ok, contains, All,
}
use go_acme_store.Host.Paths.{FilePath}
use go_acme_store.Host.Files.{done}
use go_acme_store.Host.Viper.{Viper}
use go_acme_store.Keystore.{Keystore}
use go_acme_store.Keystore.Types.{CertAndKey}
use go_acme_store.Fetcher.Files.{Host, IsSound as IsFaithfulHost, cert_file, key_file}
use go_acme_store.Fetcher.Keys.{verify_key_pair_match}
use go_acme_store.Fetcher.Traefik.{TraefikTls}
use go_acme_store.Fetcher.Fetch.{perform_fetch}
use go_acme_store.Fetcher.Fetch.Complete.{Apart}
use go_acme_store.Fetcher.Fetch.Success.{ApartFile}
use go_acme_store.Fetcher.Daemon.{answers}
use go_acme_store.Delivery.{Wire, IsReadBack, server}
use go_acme_store.Delivery.Names.{Unnamed}
use go_acme_store.Delivery.Files.{delivered}
use go_acme_store.Routing.{Fiber}
use go_acme_store.Routing.Segments.{IsSound}
use go_acme_store.Routing.Fetched.{get_route, get_route-IsRouter}

module _ (K : Keystore) (s : K.State) (a : String) (c : CertAndKey)
    (stored : K.get_cert_and_key a s ≡ ok c) (named : c.common_name ≡ a) (given : a ≢ "") (h : Host)
    (sound : IsFaithfulHost h) (dir : FilePath) (marshal : TraefikTls → Result String)
    (traefik : Option FilePath) (w : Wire) (reads : IsReadBack w) where
  -- The fetcher against the server over its routes. An issued and managed certificate, with chain
  -- and leaf, is stored for a managed and listed domain that it names, and no other listed domain
  -- has a certificate of that name. If the fetch ends with exit code 0, the two files of the
  -- domain hold the stored chain, but for blanks, and a key that matches it or is the stored one.
  -- The host keeps its promises, the router matches as fiber documents, and the fetcher's
  -- decoders read back what the server's JSON says. The API's URL leads to /api of this server,
  -- and the domain is one plain segment of a path. The files of the domain have different names,
  -- and they are not those of another managed domain or the Traefik file.
  pub served-delivered :
      (F : Fiber) (fits : IsSound F) (v : Viper) (app_name : String) (path_in : String → String)
      (api_url : String) (at_api : (p : String) → path_in (api_url <> p) ≡ "/api" <> p)
      (plain : F.IsPlain a) (d : h.Disk) (l ds : List String)
      → K.get_managed_domains s ≡ ok l
      → K.get_all_domains s ≡ ok ds
      → contains l a ≡ true
      → contains ds a ≡ true
      → All (Unnamed K s a c stored named) ds
      → c.managed ≡ true
      → c.status ≡ "issued"
      → c.leaf_cert_pem ≢ ""
      → c.cert_chain_pem ≢ ""
      → cert_file dir a ≢ key_file dir a
      → All (Apart dir a) l
      → ApartFile dir a traefik
      → let api = server K (some s) (get_route F fits v app_name path_in) w in
        let fetch = perform_fetch h (answers api api_url) dir marshal traefik d in
        fetch.0 ≡ 0
        → (chain_text key_text key : String) × (h.os.read_file (cert_file dir a) fetch.1
            ≡ done chain_text)
          × (h.os.read_file (key_file dir a) fetch.1 ≡ done key_text)
          × (h.trim_space chain_text ≡ h.trim_space c.cert_chain_pem)
          × (h.trim_space key_text ≡ h.trim_space key)
          × ((verify_key_pair_match h.parsers c.cert_chain_pem key ≡ true)
              ⊎ (key ≡ c.private_key_pem))
  served-delivered F fits v app_name path_in api_url at_api plain =
      delivered K s a c stored named given h sound dir marshal traefik
        (get_route F fits v app_name path_in) api_url
        (get_route-IsRouter F fits v app_name path_in api_url at_api a plain) w reads
