-- ===== src/I18n/Messages/Connection.antt =====
-- i18n.js, `messages`: the entries of Connection (lines 308 to 455), in the order of the source.
use justverify.Common.{List, [], ◌∷◌}
use justverify.I18n.Entries.{Entry, entry}

unfoldable pub connection : List Entry
connection =
    entry "연결 서비스 실행 중 · 주소 또는 QR 이미지를 사용하세요. 지갑에서 동기화 상태를 확인하세요."
      "Connection service running · use the address or QR image and check sync in your wallet."
      "接続サービス稼働中。アドレスまたはQR画像を使い、ウォレットで同期状態を確認してください。"
    ∷ entry "연결 대기 · 아래는 기기에 설정된 주소입니다. 연결 서비스를 시작해야 사용할 수 있습니다."
        "Connection pending · the configured address needs a running connection service."
        "接続待機中。以下の設定アドレスを使用するには接続サービスの起動が必要です。"
    ∷ entry "디바이스" "Device" "デバイス"
    ∷ entry "로컬 IP" "Local IP" "ローカルIP"
    ∷ entry "확인 불가" "Unavailable" "確認不可"
    ∷ entry "버전 정보 없음" "Version unavailable" "バージョン情報なし"
    ∷ entry "재시작" "Restart" "再起動"
    ∷ entry "시스템 종료" "Shut down" "シャットダウン"
    ∷ entry "계정명, 패스워드 변경" "Account name and password" "アカウント名・パスワード"
    ∷ entry "계정명 변경" "Change name" "アカウント名を変更"
    ∷ entry "패스워드 변경" "Change password" "パスワードを変更"
    ∷ entry "멤풀" "Mempool" "メンプール"
    ∷ entry "글자색 선택" "Text color" "文字色"
    ∷ entry "글자, 테두리와 버튼에 함께 적용됩니다." "Applies to text, borders and buttons." "文字、枠線、ボタンに適用します。"
    ∷ entry "언어선택" "Language" "言語"
    ∷ entry "저장되었습니다." "Saved." "保存しました。"
    ∷ entry "켜짐" "On" "オン"
    ∷ entry "꺼짐" "Off" "オフ"
    ∷ entry "Tor Browser로 외부에서 관리 화면에 접속합니다." "Access this dashboard remotely using Tor Browser."
        "Tor Browserで外部から管理画面に接続します。"
    ∷ entry "Tor Browser에서 이 주소를 열고 관리자 암호로 로그인하세요."
        "Open this address in Tor Browser and sign in with your admin password."
        "Tor Browserでこのアドレスを開き、管理者パスワードでログインしてください。"
    ∷ entry "Tor 관리 화면 주소" "Tor dashboard address" "Tor管理画面アドレス"
    ∷ entry "Tor 설정이 저장값과 다릅니다. 토글을 다시 적용하세요."
        "Tor state differs from the saved setting. Apply the toggle again."
        "Torの状態が保存値と異なります。設定を再適用してください。"
    ∷ entry "기기 상태를 갱신하지 못했습니다." "Could not refresh device status." "デバイス状態を更新できませんでした。"
    ∷ entry "취소" "Cancel" "キャンセル"
    ∷ entry "저장" "Save" "保存"
    ∷ entry "적용" "Apply" "適用"
    ∷ entry "새 계정명" "New account name" "新しいアカウント名"
    ∷ entry "현재 암호" "Current password" "現在のパスワード"
    ∷ entry "새 암호 (12자 이상)" "New password (12+ characters)" "新しいパスワード（12文字以上）"
    ∷ entry "새 암호 확인" "Confirm new password" "新しいパスワードの確認"
    ∷ entry "웹 관리자 암호를 변경합니다. SSH 암호는 별개입니다. 변경 후 모든 브라우저에서 다시 로그인합니다."
        "Changes the web admin password. SSH is separate. All browser sessions will need to sign in again."
        "Web管理者パスワードを変更します。SSHは別です。変更後、全ブラウザで再ログインが必要です。"
    ∷ entry "암호가 변경되었습니다. 새 암호로 로그인하세요." "Password changed. Sign in with your new password."
        "パスワードを変更しました。新しいパスワードでログインしてください。"
    ∷ entry "기기를 재시작할까요?" "Restart this device?" "デバイスを再起動しますか？"
    ∷ entry "기기를 종료할까요?" "Shut down this device?" "デバイスを終了しますか？"
    ∷ entry "Core와 electrs를 안전하게 종료한 뒤 재부팅합니다. 잠시 후 다시 접속하세요."
        "Core and electrs will stop cleanly before rebooting. Reconnect shortly."
        "Coreとelectrsを安全に停止して再起動します。しばらくしてから再接続してください。"
    ∷ entry "Core와 electrs를 안전하게 종료합니다. 다시 켜려면 기기의 전원을 조작해야 합니다."
        "Core and electrs will stop cleanly. You will need to power the device on to use it again."
        "Coreとelectrsを安全に停止します。再使用にはデバイスの電源操作が必要です。"
    ∷ entry "Tor 원격 접속 켜기" "Enable remote Tor access" "Torリモート接続を有効化"
    ∷ []
