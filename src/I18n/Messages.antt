-- ===== src/I18n/Messages.antt =====
-- i18n.js: the dictionary. Its key is the Korean text of the page.
mod Notices
mod Overview
mod Chain
mod Connection
mod SignIn
mod Policy
mod Versions
mod Maintenance
mod Collection
use justverify.Common.{List, [], ◌∷◌, concat}
use justverify.I18n.Entries.{Entry}
use Notices.{notices}
use Overview.{overview}
use Chain.{chain}
use Connection.{connection}
use SignIn.{sign_in}
use Policy.{policy}
use Versions.{versions}
use Maintenance.{maintenance}
use Collection.{collection}

unfoldable pub messages : List Entry
unfolding notices overview chain connection sign_in policy versions maintenance collection
messages = concat (
    notices ∷ overview ∷ chain ∷ connection ∷ sign_in ∷ policy ∷ versions ∷ maintenance ∷ collection
    ∷ [])
