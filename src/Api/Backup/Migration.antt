-- ===== src/Api/Backup/Migration.antt =====
-- An export of one keystore that is imported into another, whichever their back ends.
use go_acme_store.Common.{
  String, ◌≡◌, ◌≢◌, ◌∙◌, true, ◌||◌, some, List, [], ok, arith, contains, All, Distinct,
}
use go_acme_store.Common.Dict.{keys, lookup}
use go_acme_store.Keystore.{Keystore}
use go_acme_store.Keystore.Types.{CertAndKey}
use go_acme_store.Keystore.Laws.{IsLawful, IsReliable}
use go_acme_store.Api.Response.{
  KeystoreExport, Statistics, imported, exported, reply, with_keystore,
}
use go_acme_store.Api.Backup.{
  zero_tally, handler_export_keystore, import_certs, import_domains, import_all,
  handler_import_keystore,
}
use go_acme_store.Api.Backup.Export.{lookup-export, export-Distinct, export_lem}
use go_acme_store.Api.Backup.Import.{get-import_certs, managed-import_certs, steps, Added, Flipped}

module _ (K1 : Keystore) (s1 : K1.State) (K2 : Keystore) {Accepts : String → Type 0}
    (L : IsLawful K2 Accepts) (reliable : IsReliable K2) (s2 : K2.State) where
  -- The keystore after the import, where no domain has failed.
  import_lem :
      (dump : KeystoreExport) (n : Statistics) (t : K2.State)
      → dump.version ≡ "1.0"
      → handler_import_keystore K2 (ok dump) (some s2) ≡ (reply 200 (imported n), some t)
      → n.domains_failed ≡ 0
      → let mid = (import_certs K2 dump.certificates zero_tally s2).1 in
        let end = import_domains K2 dump.certificates dump.domains zero_tally mid in
        (t ≡ end.1) × (end.0.failed ≡ 0)
  unfolding handler_import_keystore import_all with_keystore
  import_lem dump n t current done fine = ground arith

  -- A keystore, of any back end, is exported, with its domains and its managed domains readable,
  -- and the dump is imported into another one that keeps its contract, whose stores succeed, and
  -- whose list of managed domains is readable. The names are accepted there, and no domain has
  -- failed. Then exactly the domains of both are managed, and a named certificate of the first
  -- keystore is found in the second one: as it was, or, if its domain is managed in the first, as
  -- that or marked as managed.
  pub migrate :
      (time : String) (dump : KeystoreExport) (n : Statistics) (t : K2.State)
      (ds l1 l2 : List String) (a : String) (c : CertAndKey)
      → K1.get_all_domains s1 ≡ ok ds
      → K1.get_managed_domains s1 ≡ ok l1
      → contains ds a ≡ true
      → K1.get_cert_and_key a s1 ≡ ok c
      → c.common_name ≢ ""
      → (handler_export_keystore K1 time (some s1)).0 ≡ reply 200 (exported dump)
      → K2.get_managed_domains s2 ≡ ok l2
      → Accepts a
      → All Accepts (keys dump.certificates)
      → All Accepts dump.domains
      → handler_import_keystore K2 (ok dump) (some s2) ≡ (reply 200 (imported n), some t)
      → n.domains_failed ≡ 0
      → (l : List String) × (K2.get_managed_domains t ≡ ok l)
        × ((b : String) → contains l b ≡ (contains l2 b || contains l1 b))
        × Flipped K2 l1 a c t
  migrate time dump n t ds l1 l2 a c all listed here stored named sent before ha hks hds done fine =
      let (version, domains, certs) = export_lem K1 s1 time dump ds l1 all listed sent in
      let (end, no_failure) = import_lem dump n t version done fine in
      let mid : K2.State = (import_certs K2 dump.certificates zero_tally s2).1 in
      let distinct : Distinct (keys dump.certificates) =
        rw certs (export-Distinct K1 s1 ds [] tt) in
      let found : lookup a dump.certificates ≡ some c =
        rw certs (ground (arith, lookup-export K1 s1 a c stored ds [])) in
      let copied : K2.get_cert_and_key a mid ≡ ok c =
        ground (
          arith,
          get-import_certs K2 L reliable a dump.certificates zero_tally s2 ha hks distinct,
        ) in
      let added : Added K2 L reliable dump.certificates dump.domains mid l2
          (import_domains K2 dump.certificates dump.domains zero_tally mid).1 =
        steps K2 L reliable dump.certificates dump.domains zero_tally mid l2 hds
          (managed-import_certs K2 L reliable dump.certificates zero_tally s2 hks ∙ before)
          no_failure in
      rw (end, ← domains) (added.now, added.listed, added.joined, added.kept a c ha copied named)
