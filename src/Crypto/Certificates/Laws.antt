-- ===== src/Crypto/Certificates/Laws.antt =====
-- The certificates of a chain, block by block, and when a certificate is renewed.
use Prim.Native.String.{len}
use go_acme_store.Common.{
  ℕ, zero, suc, ◌+◌, ◌*◌, ◌≤◌, ◌<◌, String, ◌≡◌, sym, ◌∙◌, false, Option, none, some, List, [],
  ◌++◌, arith, ◌↔◌, Option-cases, inl, inr,
}
use mathlib.Core.List.{append_assoc, append-nil}
use go_acme_store.Crypto.{Pki, IsSound, Block}
use go_acme_store.Crypto.Certificates.{
  Cert, block_certs, certs_loop, get_certs, get_leaf_cert, check_if_cert_needs_update, day,
  duration_of_days, is_within,
}

module _ (p : Pki) where
  loop_end :
      (f : ℕ) (s : String) (acc : List (Cert p))
      → p.decode_pem s ≡ none
      → certs_loop p (suc f) s acc ≡ acc
  unfolding certs_loop
  loop_end f s acc e = rw (e, certs_loop)

  loop_step :
      (f : ℕ) (s : String) (acc : List (Cert p)) (b : Block p.Bytes) (rest : String)
      → p.decode_pem s ≡ some (b, rest)
      → certs_loop p (suc f) s acc ≡ certs_loop p f rest (acc ++ block_certs p b)
  unfolding certs_loop
  loop_step f s acc b rest e = rw (e, certs_loop)

  certs_loop-append :
      (fuel : ℕ) (s : String) (acc : List (Cert p))
      → certs_loop p fuel s acc ≡ acc ++ certs_loop p fuel s []
  certs_loop-append zero s acc = unfold certs_loop in rw append-nil
  certs_loop-append (suc fuel) s acc = elim (Option-cases (p.decode_pem s)) [
    | inl e ↦ rw (loop_end fuel s acc e, loop_end fuel s [] e) (rw append-nil)
    | inr ((b, rest), e) ↦
        rw (loop_step fuel s acc b rest e, loop_step fuel s [] b rest e)
          (certs_loop-append fuel rest (acc ++ block_certs p b)
            ∙ append_assoc acc (block_certs p b) (certs_loop p fuel rest [])
            ∙ rw (← certs_loop-append fuel rest (block_certs p b)))
  ]

  module _ (sound : IsSound p) where
    certs_loop-fuel :
        (f g : ℕ) (s : String) (acc : List (Cert p))
        → len s < f
        → len s < g
        → certs_loop p f s acc ≡ certs_loop p g s acc
    certs_loop-fuel zero g s acc hf hg = absurd (omega arith)
    certs_loop-fuel (suc f) zero s acc hf hg = absurd (omega arith)
    certs_loop-fuel (suc f) (suc g) s acc hf hg = elim (Option-cases (p.decode_pem s)) [
      | inl e ↦ loop_end f s acc e ∙ sym (loop_end g s acc e)
      | inr ((b, rest), e) ↦
          let shorter : len rest < len s = sound.decode_pem-shorter s b rest e in
          loop_step f s acc b rest e
          ∙ certs_loop-fuel f g rest (acc ++ block_certs p b) (omega arith) (omega arith)
          ∙ sym (loop_step g s acc b rest e)
    ]

    abbrev pub chain_of : Option (Block p.Bytes × String) → List (Cert p)
    chain_of none = []
    chain_of (some (b, rest)) = block_certs p b ++ get_certs p rest

    -- Where pem.Decode returns a shorter rest, GetCerts returns what the first block holds and
    -- then what the rest of the input holds: the fuel of the loop never runs out.
    pub get_certs_lem : (s : String) → get_certs p s ≡ chain_of (p.decode_pem s)
    unfolding get_certs
    get_certs_lem s = elim (Option-cases (p.decode_pem s)) [
      | inl e ↦ rw e (loop_end (len s) s [] e)
      | inr ((b, rest), e) ↦
          let shorter : len rest < len s = sound.decode_pem-shorter s b rest e in
          rw e (
            loop_step (len s) s [] b rest e
            ∙ certs_loop-fuel (len s) (suc (len rest)) rest (block_certs p b) shorter (omega arith)
            ∙ certs_loop-append (suc (len rest)) rest (block_certs p b))
    ]

  -- For a deadline of at most 106751 days, beyond which a time.Duration overflows:
  -- CheckIfCertNeedsUpdate says no exactly for a chain that holds a leaf certificate which is
  -- still valid at the deadline. Garbage needs an update.
  pub no_update_iff :
      (now : ℕ) (chain : String) (days : ℕ)
      → days ≤ 106751
      → (check_if_cert_needs_update p now chain days ≡ false) ↔ (
          (leaf : Cert p) × (get_leaf_cert p chain ≡ some leaf)
          × (now + days * day ≤ leaf.not_after))
  unfolding check_if_cert_needs_update duration_of_days is_within
  no_update_iff now chain days few =
      let exact : duration_of_days days ≡ days * day = omega arith in
      elim (Option-cases (get_leaf_cert p chain)) [
        | inl e ↦ (λ h. absurd (ground arith), λ (leaf, q, h). ground arith)
        | inr (leaf, e) ↦ (λ h. (leaf, e, ground arith), λ (leaf', q, h). ground arith)
      ]
