-- ===== src/Lib.antt =====
-- The browser code of JustVerify, a Bitcoin node with a web dashboard: what it computes from the node's
-- reports and how it reacts to the user, to answers and to timers. The program runs on the device (Rust in
-- src/, Python in web/) and serves web/static/, which is modelled here.
--
-- The parts, and how they interact. app.js shows the login or a page of the menu and starts and stops the
-- views. NodeView in dashboard.js polls the server while its page is open, and hands each snapshot to
-- CoreStatus, which judges whether Core is synchronised, to RecentBlocks, which holds back new blocks
-- until their details are known, and to electrs_status.js, which judges the index for wallets.
-- settings.js changes networks and versions by a reviewed request. genesis-rain.js draws behind all of it.
-- i18n.js rewrites the Korean texts of the page in English or Japanese wherever they appear.
--
-- Which file models what:
--   App            web/static/app.js: showPage is show_page, showAuth is leave, the form of the login is
--                  submit and answer_login; resume, keepSession and the logout are handlers of events.
--   Terminal       web/static/app.js: size and ensureTerminal with the handlers of its socket.
--   Poll           web/static/dashboard.js, NodeView: start, stop, connection, refresh and
--                  refreshElectrum. Requests and timers are lists in the state, and a step answers any
--                  request or fires any timer.
--   Format         web/static/dashboard.js: text, fmt, bytes and duration.
--   Qr             web/static/dashboard.js, connection: the matrix of the code and its painting.
--   Overview       web/static/dashboard.js, render: the panels of the blocks and of the peers, and the rows
--                  of the others.
--   Wallet         web/static/dashboard.js: connection, updateElectrumNotice, renderElectrumProgress and the
--                  answers of refreshElectrum, with what they show.
--   Core           web/static/dashboard.js, CoreStatus.
--   Blocks         web/static/dashboard.js, RecentBlocks.
--   Electrs        web/static/electrs_status.js.
--   Settings       web/static/settings.js: Networks are the switches of listen and onlynet, Review is the
--                  preview with its token, open, stop, clearReview and operation, Releases are the versions
--                  that list offers, Choice is choose, Fees is defaultValue, Rows are the options of
--                  the policy and their edits, Download is watchDownload.
--   Device         web/static/device.js: the preferences (apply), the settings page with the preview of the
--                  background, and run.
--   Sessions       web/static/device.js, the dialog of the logged-in devices.
--   I18n           web/static/i18n.js: Messages is the dictionary, Text and Patterns are text, Detect is
--                  detect, Nodes are resolve, set and translate.
--   Bar            web/static/mempool-integration.js: the bar in the page of the local mempool, and the path
--                  that device.js gives to the link to it.
--   Copy           web/static/copy.js: the handler of the button.
--   Rain           web/static/genesis-rain.js.
--   Common         Booleans, lists, numbers of JSON reports, and decimal text.
-- A component's tests and its examples stand in its module Tests.
--
-- Choices of the models:
--   * Time stamps are natural numbers of one unit. The server's stamps are whole seconds and Date.now() is
--     in milliseconds, which a natural number holds.
--   * Where the source divides two numbers of the node as doubles, the rounded quotient is a parameter.
--   * A field of a report is the value that the JavaScript tests read: missing, no number, a fraction,
--     a negative number, or a natural number.
--   * Text is a list of code points. The expressions of i18n.js are functions by clauses over it. An entry
--     that an object inherits is looked up as the language does.
--   * A set is a list without an order that its result depends on: the source sorts it.
--   * The decimal text of n is printed in n + 1 rounds of division by ten, one more than it has digits at
--     most; grouping in threes uses the same bound.
--   * A request's answer, a failure and a timer are events of the environment, in any order: what is proved
--     of all sequences of events is proved of every interleaving. Guards that only the browser has (inert,
--     a page in the background) are left out where more orders do no harm.
--   * A preview, a notice of the view and a timer of the device's settings outlive the page if the source
--     lets them: a view that is left is still there, but not visible.
--
-- Not modelled: the building of elements and their style, the terminal emulator web/static/xterm.js (a
-- third party's), the fields of the device's dialogs (web/static/device.js), the cards of the versions and
-- the explanations of the options (web/static/settings.js), and all that runs on the device.
pub mod App
pub mod Bar
pub mod Blocks
pub mod Common
pub mod Copy
pub mod Core
pub mod Device
pub mod Electrs
pub mod Format
pub mod I18n
pub mod Overview
pub mod Poll
pub mod Qr
pub mod Rain
pub mod Sessions
pub mod Settings
pub mod Terminal
pub mod Wallet
