-- ===== src/Host/Codec.antt =====
-- `encoding/json`: an encoding of a type of the program, with the round trip that Go documents.
-- An absent and an empty slice are one list here.
use go_acme_store.Common.{◌≡◌, Result, ok}

pub record Codec (A B : Type 0) : Type 0 where
  pub encode : A → Result B
  pub decode : B → Result A

pub record IsRoundTrip {A B : Type 0} (c : Codec A B) : Type 0 where
  pub decode-encode : (a : A) (b : B) → c.encode a ≡ ok b → c.decode b ≡ ok a
