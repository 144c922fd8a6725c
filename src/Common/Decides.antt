-- ===== src/Common/Decides.antt =====
-- Runs that decide a statement: they return a Boolean, `true` exactly when the statement holds.
use mathlib.Core.Path.{◌≡◌, refl}
use mathlib.Core.Logic.{◌↔◌}
use mathlib.Core.Bool.{Bool, true, false}
use normalization_confluence.Common.Tests.{↔_trans}
use normalization_confluence.Common.Run.{Run, ok, and_run}

abbrev pub Decides {ℓ} : Run Bool → Type ℓ → Type ℓ
Decides m P = (b : Bool) × (m ≡ ok b) × ((b ≡ true) ↔ P)

pub Decides-ok {ℓ} : {P : Type ℓ} (b : Bool) → (b ≡ true) ↔ P → Decides (ok b) P
Decides-ok b f = (b, refl, f)

pub Decides-congr {ℓ κ} :
    {P : Type ℓ} {Q : Type κ} (m : Run Bool) → P ↔ Q → Decides m P → Decides m Q
Decides-congr m f (b, e, g) = (b, e, ↔_trans g f)

-- A conjunction, where `k` need not return unless `P` holds.
pub Decides-and {ℓ κ} :
    {P : Type ℓ} {Q : Type κ} (m k : Run Bool)
    → Decides m P
    → (P → Decides k Q)
    → Decides (and_run m k) (P × Q)
Decides-and m k (true, e, f) g =
    let (b, e', f') = g (f.0 refl) in (b, rw e e', ((λ h. (f.0 refl, f'.0 h)), λ h. f'.1 h.1))
Decides-and m k (false, e, f) g = (false, rw e refl, ((λ h. cc), λ h. f.1 h.0))

-- What a returned `true` means.
pub Decides-true {ℓ} : {P : Type ℓ} (m : Run Bool) → Decides m P → m ≡ ok true → P
Decides-true m (b, e, f) h = f.0 (cc)
