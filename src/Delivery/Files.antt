-- ===== src/Delivery/Files.antt =====
-- From the keystore of the server to the files of the fetcher.
use mathlib.Core.Path.{subst}
use go_acme_store.Common.{
  String, ◌≡◌, ◌≢◌, ◌⊎◌, ap, ◌∙◌, true, Option, some, List, Result, ok, arith, inl, inr, contains,
  All,
}
use go_acme_store.Common.Dict.{lookup}
use go_acme_store.Host.Paths.{FilePath}
use go_acme_store.Host.Files.{done}
use go_acme_store.Keystore.{Keystore}
use go_acme_store.Keystore.Types.{CertAndKey}
use go_acme_store.Api.Certs.{cert_info, shown_status}
use go_acme_store.Fetcher.Client.{Http}
use go_acme_store.Fetcher.Files.{Host, IsSound, cert_file, key_file}
use go_acme_store.Fetcher.Keys.{verify_key_pair_match}
use go_acme_store.Fetcher.Traefik.{TraefikTls, is_included}
use go_acme_store.Fetcher.Fetch.{full_chain, perform_fetch}
use go_acme_store.Fetcher.Fetch.Current.{IsCurrent}
use go_acme_store.Fetcher.Fetch.Complete.{Apart}
use go_acme_store.Fetcher.Fetch.Success.{ApartFile, fetch_success}
use go_acme_store.Fetcher.Daemon.{answers}
use go_acme_store.Delivery.{Get, IsRouter, api_info, server, Wire, IsReadBack}
use go_acme_store.Delivery.Names.{Unnamed, info, domains_served, certs_served, key_served}

-- An issued certificate passes the filters of the fetcher.
issued_included :
    (c : CertAndKey)
    → c.managed ≡ true
    → c.status ≡ "issued"
    → c.leaf_cert_pem ≢ ""
    → is_included (api_info (cert_info c)) ≡ true
unfolding is_included api_info cert_info shown_status
issued_included c managed issued full = ground arith

issued_chain :
    (c : CertAndKey)
    → c.cert_chain_pem ≢ ""
    → full_chain (api_info (cert_info c)) ≡ c.cert_chain_pem
unfolding full_chain api_info cert_info
issued_chain c full = ground arith

module _ (K : Keystore) (s : K.State) (a : String) (c : CertAndKey)
    (stored : K.get_cert_and_key a s ≡ ok c) (named : c.common_name ≡ a) (given : a ≢ "") (h : Host)
    (sound : IsSound h) (dir : FilePath) (marshal : TraefikTls → Result String)
    (traefik : Option FilePath) (route : String → Option Get) (api_url : String)
    (routed : IsRouter api_url a route) (w : Wire) (reads : IsReadBack w) where
  abbrev pub api : Http
  api = server K (some s) route w

  -- The fetcher against the server, over a host that keeps its promises: an issued and managed
  -- certificate, with chain and leaf, is stored for a managed and listed domain that it names,
  -- and no other listed domain has a certificate of that name. If the fetch ends with exit code
  -- 0, the two files of the domain hold the stored chain, but for blanks, and a key that matches
  -- it or is the stored one. The files of the domain have different names, and they are not those
  -- of another managed domain or the Traefik file.
  pub delivered :
      (d : h.Disk) (l ds : List String)
      → K.get_managed_domains s ≡ ok l
      → K.get_all_domains s ≡ ok ds
      → contains l a ≡ true
      → contains ds a ≡ true
      → All (Unnamed K s a c stored named) ds
      → c.managed ≡ true
      → c.status ≡ "issued"
      → c.leaf_cert_pem ≢ ""
      → c.cert_chain_pem ≢ ""
      → cert_file dir a ≢ key_file dir a
      → All (Apart dir a) l
      → ApartFile dir a traefik
      → (perform_fetch h (answers api api_url) dir marshal traefik d).0 ≡ 0
      → let end = (perform_fetch h (answers api api_url) dir marshal traefik d).1 in
        (chain_text key_text key : String) × (h.os.read_file (cert_file dir a) end
          ≡ done chain_text)
        × (h.os.read_file (key_file dir a) end ≡ done key_text)
        × (h.trim_space chain_text ≡ h.trim_space c.cert_chain_pem)
        × (h.trim_space key_text ≡ h.trim_space key)
        × ((verify_key_pair_match h.parsers c.cert_chain_pem key ≡ true)
            ⊎ (key ≡ c.private_key_pem))
  delivered d l ds listed all managed known unique mark issued leaf chain two hs apart fine =
      let served =
        domains_served K s a c stored named given route api_url routed w reads l listed in
      let (certs, x, got, here, current) =
        fetch_success h sound (answers api api_url) dir marshal traefik d l a served managed two hs
          apart fine in
      let (certs', got', here') =
        certs_served K s a c stored named given route api_url routed w reads ds all unique known in
      let same_certs : certs ≡ certs' = ground (arith, got, got') in
      let same : x ≡ info K s a c stored named c =
        ground (arith, here, here', ap (lookup a) same_certs) in
      let passes : is_included x ≡ true =
        ap is_included same ∙ issued_included c mark issued leaf in
      let chain_of : full_chain x ≡ c.cert_chain_pem = ap full_chain same ∙ issued_chain c chain in
      elim current [
        | inl out ↦ absurd (ground arith)
        | inr v ↦
            let v' =
              subst
                (λ t.
                  IsCurrent h sound (answers api api_url) dir a t
                    (perform_fetch h (answers api api_url) dir marshal traefik d).1)
                chain_of v in
            let sent = key_served K s a c stored named given route api_url routed w reads in
            (
              v'.chain_text,
              v'.key_text,
              v'.key,
              v'.chain_there,
              v'.key_there,
              v'.same_chain,
              v'.same_key,
              elim v'.right [
                | inl match ↦ inl match
                | inr asked ↦ inr (ground (arith, asked, sent))
              ],
            )
      ]
