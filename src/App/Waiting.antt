-- ===== src/App/Waiting.antt =====
-- app.js and i18n.js: the wait after too many attempts.
use justverify.Common.{ℕ, suc, some, decimal, ◌≡◌}
use justverify.I18n.Decimal.{decimal-is_digits}
use justverify.I18n.Entries.{en, ja}
use justverify.I18n.Numbers.{waiting, text-label}
use justverify.I18n.Strings.{◌++◌}
use justverify.I18n.Text.{text}
use justverify.App.{wait_text}

-- Whatever wait of at least a second the server asks for, the message that the login form composes of it
-- is translated into English and Japanese with the same number of seconds.
pub wait_text-text :
    (n : ℕ)
    → (text en (wait_text (some (suc n)))
        ≡ "Too many attempts. Try again in " ++ decimal (suc n) ++ " seconds.")
      × (text ja (wait_text (some (suc n))) ≡ "試行回数が多すぎます。" ++ decimal (suc n) ++ "秒後にもう一度お試しください。")
wait_text-text n = text-label waiting (decimal (suc n)) (decimal-is_digits (suc n))
