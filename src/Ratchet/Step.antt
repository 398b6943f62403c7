-- ===== src/Ratchet/Step.antt =====
-- Methods of `&mut Session` that may fail: what was written before an error stays written.
use vurn_server.Prelude.{Result, ok, err}
use vurn_server.Ratchet.{DecryptError, Session}

abbrev pub Step {ℓ} : Type ℓ → Type ℓ
Step A = Session → Result DecryptError A × Session

abbrev pub pure {ℓ} : {A : Type ℓ} → A → Step A
pure a s = (ok a, s)

abbrev pub fail {ℓ} : {A : Type ℓ} → DecryptError → Step A
fail e s = (err e, s)

abbrev pub lift {ℓ} : {A : Type ℓ} → Result DecryptError A → Step A
lift r s = (r, s)

abbrev pub continue {ℓ κ} :
    {A : Type ℓ} {B : Type κ} → Result DecryptError A → (A → Step B) → Step B
continue (ok a) f s = f a s
continue (err e) f s = (err e, s)

infixl 5 ◌>>=◌
abbrev pub ◌>>=◌ {ℓ κ} : {A : Type ℓ} {B : Type κ} (m : Step A) (f : A → Step B) → Step B
◌>>=◌ m f s = continue (m s).0 f (m s).1

infixl 5 ◌>>◌
abbrev pub ◌>>◌ {ℓ κ} : {A : Type ℓ} {B : Type κ} (m : Step A) (n : Step B) → Step B
◌>>◌ m n s = continue (m s).0 (λ _. n) (m s).1
