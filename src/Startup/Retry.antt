-- ===== src/Startup/Retry.antt =====
-- The keystore's place in memory, from the start on.
use go_acme_store.Common.{String, ◌≡◌, refl, none, some, List, [], ◌∷◌, ◌++◌, ok, err, Exec, arith}
use go_acme_store.Startup.{init_keystore, retry_tick, keystore_retry_loop}

module _ {W S : Type 0} (opening : Exec W S) where
  -- The outside after ticks that all failed to open the keystore.
  abbrev after : List ((W → W) × (S → S)) → W → W
  after [] w = w
  after ((f, g) ∷ between) w = after between (opening (f w)).1

  -- At each of these ticks the opening fails.
  abbrev pub Fails : List ((W → W) × (S → S)) → W → Type 0
  Fails [] w = Unit
  Fails ((f, g) ∷ between) w =
      ((e : String) × ((opening (f w)).0 ≡ err e)) × Fails between (opening (f w)).1

  abbrev changed : List ((W → W) × (S → S)) → S → S
  changed [] s = s
  changed ((f, g) ∷ between) s = changed between (g s)

  kept :
      (between : List ((W → W) × (S → S))) (s : S) (w : W)
      → (keystore_retry_loop opening between (some s, w)).0 ≡ some (changed between s)
  unfolding keystore_retry_loop retry_tick
  kept [] s w = refl
  kept ((f, g) ∷ between) s w = kept between (g s) (f w)

  -- If every tick before one has failed to open the keystore, and that one succeeds, then from
  -- then on the keystore is the one that it opened, with what was done to it since: the loop does
  -- not open it again.
  pub retry_first :
      (before later : List ((W → W) × (S → S))) (f : W → W) (g : S → S) (s : S) (w : W)
      → Fails before w
      → (opening (f (after before w))).0 ≡ ok s
      → (keystore_retry_loop opening (before ++ ((f, g) ∷ later)) (none, w)).0
        ≡ some (changed later s)
  unfolding keystore_retry_loop retry_tick init_keystore
  retry_first [] later f g s w _ h = ground (arith, kept later s (opening (f w)).1)
  retry_first ((f', g') ∷ before) later f g s w ((e, p), fails) h =
      let ih = retry_first before later f g s (opening (f' w)).1 fails h in ground (arith, ih)

  -- While every tick fails there is no keystore.
  pub retry_none :
      (between : List ((W → W) × (S → S))) (w : W)
      → Fails between w
      → (keystore_retry_loop opening between (none, w)).0 ≡ none
  unfolding keystore_retry_loop retry_tick init_keystore
  retry_none [] w _ = refl
  retry_none ((f, g) ∷ between) w ((e, p), fails) =
      let ih = retry_none between (opening (f w)).1 fails in ground (arith, ih)
