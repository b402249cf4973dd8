-- ===== src/I18n/Messages/SignIn.antt =====
-- i18n.js, `messages`: the entries of SignIn (lines 456 to 599), in the order of the source.
use justverify.Common.{List, [], ◌∷◌}
use justverify.I18n.Entries.{Entry, entry}

unfoldable pub sign_in : List Entry
sign_in =
    entry "Tor 원격 접속 끄기" "Disable remote Tor access" "Torリモート接続を無効化"
    ∷ entry "관리자 암호를 아는 사용자가 Tor Browser로 접속할 수 있습니다."
        "Users with the admin password can connect through Tor Browser."
        "管理者パスワードを知るユーザーがTor Browserから接続できます。"
    ∷ entry "Tor 브라우저 연결이 종료됩니다. 로컬 네트워크에서 계속 접속할 수 있습니다."
        "Tor browser connections will close. Local network access remains available."
        "Torブラウザ接続を終了します。ローカルネットワークからは接続できます。"
    ∷ entry "재시작 중입니다. 잠시 후 새로고침하세요." "Restarting. Refresh after the device comes back online."
        "再起動中です。起動後に再読み込みしてください。"
    ∷ entry "시스템 종료 중입니다. 기기가 완전히 꺼진 뒤 전원을 분리하세요."
        "Shutting down. Wait until the device stops before unplugging power."
        "終了中です。完全に停止してから電源を外してください。"
    ∷ entry "현재 암호가 맞지 않습니다." "Current password is incorrect." "現在のパスワードが違います。"
    ∷ entry "설정 값을 확인하고 다시 시도하세요." "Check your settings and try again." "設定値を確認して再試行してください。"
    ∷ entry "기기 관리 서비스에 연결하지 못했습니다." "Cannot reach the device management service."
        "デバイス管理サービスに接続できません。"
    ∷ entry "처음 시작하기" "Get started" "はじめに"
    ∷ entry "다시 오셨군요" "Welcome back" "おかえりなさい"
    ∷ entry "관리자 암호를 정해 주세요" "Create your admin password" "管理者パスワードを設定"
    ∷ entry "노드에 로그인" "Sign in to your node" "ノードにログイン"
    ∷ entry "앞으로 이 노드에 접속할 때 사용할 암호입니다." "Use this password to sign in to your node."
        "今後このノードに接続するためのパスワードです。"
    ∷ entry "최초 설정 때 만든 관리자 암호를 입력하세요." "Enter the admin password you created during setup."
        "初期設定時の管理者パスワードを入力してください。"
    ∷ entry "새 관리자 암호" "New admin password" "新しい管理者パスワード"
    ∷ entry "관리자 암호" "Admin password" "管理者パスワード"
    ∷ entry "시작하기" "Get started" "始める"
    ∷ entry "관리" "Manage" "管理"
    ∷ entry "로그인된 기기" "Active logins" "ログイン中の端末"
    ∷ entry "접속 중인 브라우저를 확인하고 로그아웃합니다." "View signed-in browsers and log them out."
        "ログイン中のブラウザーを確認してログアウトできます。"
    ∷ entry "로그인은 7일간 유지되며, 사용 중에는 자동 연장됩니다." "Stay signed in for 7 days, renewed while in use."
        "ログインは7日間有効で、使用中は自動延長されます。"
    ∷ entry "로그인 기기 목록을 갱신하지 못했습니다." "Could not refresh active logins." "ログイン中の端末を更新できませんでした。"
    ∷ entry "브라우저 정보 없음" "Unknown browser" "ブラウザー情報なし"
    ∷ entry "현재 접속" "This session" "現在の接続"
    ∷ entry "로그인 시간" "Signed in" "ログイン日時"
    ∷ entry "마지막 활동" "Last active" "最終利用"
    ∷ entry "현재 접속에서 로그아웃할까요?" "Log out of this session?" "現在の接続からログアウトしますか？"
    ∷ entry "이 기기를 로그아웃할까요?" "Log out this device?" "この端末をログアウトしますか？"
    ∷ entry "다른 기기 모두 로그아웃" "Log out other devices" "他の端末をすべてログアウト"
    ∷ entry "다른 기기에서 모두 로그아웃할까요?" "Log out all other devices?" "他の端末をすべてログアウトしますか？"
    ∷ entry "현재 접속은 유지됩니다." "This session will stay signed in." "現在の接続は維持されます。"
    ∷ entry "로그인 상태가 변경되었습니다. 다시 시도하세요." "Login state changed. Please try again."
        "ログイン状態が変更されました。もう一度お試しください。"
    ∷ entry "로그인이 제한되었습니다. 잠시 후 다시 시도하세요." "Login is temporarily limited. Please try again later."
        "ログインが一時的に制限されています。後でもう一度お試しください。"
    ∷ entry "로그인" "Sign in" "ログイン"
    ∷ entry "12자 이상 입력하세요. SSH 로그인 암호와는 별개입니다."
        "Use at least 12 characters. This is separate from the SSH password."
        "12文字以上入力してください。SSHのパスワードとは別です。"
    ∷ entry "위에서 정한 암호를 한 번 더 입력하세요." "Enter your new password again." "新しいパスワードをもう一度入力してください。"
    ∷ entry "노드 시작 상태 확인 중…" "Checking node startup…" "ノードの起動状態を確認中…"
    ∷ entry "노드 시작 다시 시도" "Retry node startup" "ノード起動を再試行"
    ∷ entry "노드를 시작했습니다. 네트워크 연결과 블록 동기화가 진행됩니다."
        "Node started. Network connections and block sync are starting."
        "ノードを起動しました。ネットワーク接続とブロック同期を開始します。"
    ∷ entry "로그인이 만료되었습니다. 다시 로그인하세요." "Session expired. Please sign in again."
        "セッションが切れました。再ログインしてください。"
    ∷ entry "현재 설정을 불러오는 중…" "Loading current settings…" "現在の設定を読み込み中…"
    ∷ entry "들어오는 연결" "Incoming connections" "受信接続"
    ∷ entry "나가는 연결" "Outgoing connections" "送信接続"
    ∷ entry "Clearnet 연결에 Tor 사용" "Route clearnet through Tor" "ClearnetをTor経由にする"
    ∷ entry "블록만 수신" "Receive blocks only" "ブロックのみ受信"
    ∷ entry "재시작 후 Mempool 유지" "Persist mempool on restart" "再起動後もMempoolを保持"
    ∷ entry "Mempool 메모리 상한" "Mempool memory limit" "Mempoolメモリ上限"
    ∷ entry "거래 보관 시간" "Transaction retention" "取引保持時間"
    ∷ []
