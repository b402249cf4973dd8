-- ===== src/I18n/Messages/Versions.antt =====
-- i18n.js, `messages`: the entries of Versions (lines 748 to 895), in the order of the source.
use justverify.Common.{List, [], ◌∷◌}
use justverify.I18n.Entries.{Entry, entry}

unfoldable pub versions : List Entry
versions =
    entry "공식 유지보수 지원 종료" "Official maintenance ended" "公式保守サポート終了"
    ∷ entry "공식 안정 릴리스" "Official stable release" "公式安定版"
    ∷ entry "다운로드됨" "Downloaded" "取得済み"
    ∷ entry "다운로드 필요" "Download required" "ダウンロードが必要"
    ∷ entry "적용 전 확인" "Review before applying" "適用前の確認"
    ∷ entry "저장하고 적용" "Save and apply" "保存して適用"
    ∷ entry "설정 저장·서비스 재시작·상태 확인을 마쳤습니다." "Settings saved, services restarted and status checked."
        "設定の保存・サービスの再起動・状態確認が完了しました。"
    ∷ entry "적용하지 않았습니다." "Not applied." "適用していません。"
    ∷ entry "변경 내용을 확인하세요. 아직 저장되지 않았습니다." "Review the changes. They have not been saved yet."
        "変更内容をご確認ください。まだ保存していません。"
    ∷ entry "검증·서비스 응답을 기다리는 중…" "Waiting for validation and services…" "検証とサービスの応答を待っています…"
    ∷ entry "주 메뉴" "Main navigation" "メインメニュー"
    ∷ entry "노드 현황" "Node overview" "ノード概要"
    ∷ entry "기기에 연결하지 못했습니다. 새로고침해 주세요." "Cannot connect to the device. Please refresh."
        "デバイスに接続できません。再読み込みしてください。"
    ∷ entry "기기에 연결할 수 없습니다." "Cannot connect to the device." "デバイスに接続できません。"
    ∷ entry "두 암호가 일치하지 않습니다. 다시 확인해 주세요." "The passwords do not match. Please check them."
        "パスワードが一致しません。確認してください。"
    ∷ entry "이전 변경이 중단되었습니다. 복구 상태를 확인하세요."
        "A previous change was interrupted. Check recovery status." "前の変更が中断されました。復旧状態を確認してください。"
    ∷ entry "중단된 변경 복구" "Recover interrupted change" "中断された変更を復旧"
    ∷ entry
        "다른 노드의 연결을 허용합니다. Clearnet은 공유기 포트 전달·방화벽 설정이 필요할 수 있고, Tor·I2P는 해당 네트워크 준비가 필요합니다. 켜짐은 현재 피어 연결을 의미하지 않으며 RPC 접근과는 별개입니다."
        "Allow other nodes to connect. Clearnet may require router port forwarding and firewall configuration; Tor and I2P require their networks to be ready. Enabling a route does not mean a peer is connected. RPC access is separate."
        "他のノードの接続を許可します。Clearnetはルーターのポート転送・ファイアウォール設定、Tor・I2Pは各ネットワークの準備が必要です。有効でもピアの接続を保証しません。RPC接続とは別です。"
    ∷ entry "자동으로 연결할 목적지 네트워크를 선택합니다. 들어오는 연결과 수동으로 추가한 피어에는 적용되지 않습니다."
        "Choose networks for automatic outbound connections. Does not apply to inbound or manually added peers."
        "自動送信接続のネットワークを選択します。受信接続と手動追加ピアには適用されません。"
    ∷ entry "켜면 일반 인터넷의 노드에도 Tor를 경유해 연결합니다. onion 연결은 이 토글과 관계없이 Tor를 사용합니다."
        "When enabled, clearnet nodes are reached through Tor. Onion connections always use Tor."
        "有効にすると通常のインターネットのノードにもTor経由で接続します。onion接続は常にTorを使用します。"
    ∷ entry "나가는 연결은 하나 이상 선택하세요." "Select at least one outgoing network." "送信ネットワークを1つ以上選択してください。"
    ∷ entry "버전별 데이터와 electrs 인덱스를 별도로 유지합니다. 새 버전·네트워크에서는 다시 동기화할 수 있습니다. 기존 데이터는 보존됩니다."
        "Each version keeps separate data and electrs indexes. A new version or network may require syncing again. Existing data is preserved."
        "バージョンごとにデータとelectrs索引を保持します。新しいバージョンやネットワークでは再同期する場合があります。既存データは保持します。"
    ∷ entry "다운로드·서명 검증 진행 중…" "Downloading and verifying signatures…" "ダウンロード・署名検証中…"
    ∷ entry "바이너리 다운로드·서명 검증 진행 중…" "Downloading binary and verifying signatures…"
        "バイナリのダウンロード・署名検証中…"
    ∷ entry "다운로드·검증 완료. 변경 내용을 확인하세요." "Download verified. Review the changes."
        "取得と検証が完了しました。変更内容をご確認ください。"
    ∷ entry "다운로드가 완료되지 않았습니다. 다시 다운로드를 선택하세요." "Download did not finish. Choose download to retry."
        "ダウンロードが完了していません。再度ダウンロードを選択してください。"
    ∷ entry "Core와 관련 서비스를 재시작합니다. 동기화와 electrs 준비 상태는 현황에서 별도로 확인합니다."
        "Core and related services will restart. Check sync and electrs readiness in Overview."
        "Coreと関連サービスを再起動します。同期とelectrsの準備状態は概要で確認してください。"
    ∷ entry "QR 데이터를 확인할 수 없습니다." "Unable to validate QR data." "QRデータを確認できません。"
    ∷ entry "최초 노드 시작을 준비하고 있습니다." "Preparing initial node startup." "ノードの初回起動を準備中です。"
    ∷ entry "백업 및 복원" "Backup and restore" "バックアップと復元"
    ∷ entry "문제 해결" "Troubleshoot" "トラブルシューティング"
    ∷ entry "열기 →" "Open →" "開く →"
    ∷ entry "확인 →" "View →" "確認 →"
    ∷ entry "← 설정" "← Settings" "← 設定"
    ∷ entry "← 문제 해결" "← Troubleshoot" "← トラブルシューティング"
    ∷ entry "Core RPC 상태" "Core RPC status" "Core RPCの状態"
    ∷ entry "저장장치 관리" "Storage management" "ストレージ管理"
    ∷ []
