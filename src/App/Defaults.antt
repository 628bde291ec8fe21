-- ===== src/App/Defaults.antt =====
-- config.go: the defaults, and which configurations Build takes.
use oashttp.Prelude.{zero, suc, Bool, true, false, ◌≡◌, refl}
use oashttp.Prelude.Text.{Text}
use oashttp.App.Settings.{ℤ, pos, negsuc, limit_or_default}

abbrev pub is_negative : ℤ → Bool
is_negative (pos n) = false
is_negative (negsuc n) = true

limit_idem : (n : ℤ) → limit_or_default (limit_or_default n) ≡ limit_or_default n
unfolding limit_or_default
limit_idem (pos zero) = refl
limit_idem (pos (suc n)) = refl
limit_idem (negsuc n) = refl
