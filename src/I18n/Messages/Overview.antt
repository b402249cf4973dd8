-- ===== src/I18n/Messages/Overview.antt =====
-- i18n.js, `messages`: the entries of Overview (lines 31 to 159), in the order of the source.
use justverify.Common.{List, [], ◌∷◌}
use justverify.I18n.Entries.{Entry, entry}

unfoldable pub overview : List Entry
overview =
    entry "인덱싱 상태" "Indexing status" "インデックスの状態"
    ∷ entry "Core 높이 갱신 지연" "Core height update delayed" "Coreの高さ更新が遅延"
    ∷ entry "이전에 확인한 진행률 · 자동 재확인" "Last observed progress · retrying automatically"
        "前回取得した進捗・自動再確認中"
    ∷ entry "Electrs 인덱싱 진행률" "Electrs indexing progress" "Electrsインデックス作成の進捗"
    ∷ entry "준비 완료" "Ready" "準備完了"
    ∷ entry "인덱싱 중" "Indexing" "インデックス作成中"
    ∷ entry "인덱스 오류 · 점검 필요" "Index error · inspection needed" "インデックスエラー・確認が必要"
    ∷ entry "Core 동기화 대기" "Waiting for Core sync" "Core同期を待機中"
    ∷ entry "인덱스·지갑 응답 확인 중" "Checking index and wallet readiness" "インデックスとウォレット応答を確認中"
    ∷ entry "연결 확인 필요" "Connection needs checking" "接続の確認が必要"
    ∷ entry "상태 갱신 지연" "Status update delayed" "状態の更新が遅延"
    ∷ entry "첫 응답 대기" "Waiting for first response" "最初の応答を待機中"
    ∷ entry "아직 확인하지 못함" "Not yet observed" "未確認"
    ∷ entry "응답 지연 · 자동 재확인" "Response delayed · retrying automatically" "応答が遅延・自動再確認中"
    ∷ entry "인덱싱 완료 대기" "Waiting for indexing to finish" "インデックス作成の完了を待機中"
    ∷ entry "확인 중" "Checking" "確認中"
    ∷ entry "인덱싱 높이" "Indexing height" "インデックス作成の高さ"
    ∷ entry "높이 조회" "Height observed" "高さの取得時刻"
    ∷ entry "지갑 응답" "Wallet response" "ウォレット応答"
    ∷ entry "Core 22에서는 I2P 수신만 켤 수 없습니다. I2P 송신도 켜거나 Core 23 이상을 선택하세요."
        "Core 22 cannot enforce incoming-only I2P. Enable outgoing I2P too, or select Core 23 or newer."
        "Core 22ではI2P受信のみの設定を適用できません。I2P送信もオンにするか、Core 23以降を選択してください。"
    ∷ entry "I2P 들어옴 / 나감" "I2P in / out" "I2P 受信 / 送信"
    ∷ entry "설정" "Settings" "設定"
    ∷ entry "일반" "General" "一般"
    ∷ entry "로그아웃" "Log out" "ログアウト"
    ∷ entry "비트코인코어" "Bitcoin Core" "Bitcoin Core"
    ∷ entry "현황" "Overview" "概要"
    ∷ entry "버전 변경" "Change version" "バージョン変更"
    ∷ entry "버전" "Version" "バージョン"
    ∷ entry "Mempool · 네트워크 설정" "Mempool · Network" "Mempool・ネットワーク"
    ∷ entry "Electrs 연결" "Electrs connection" "Electrs接続"
    ∷ entry "RPC 연결 관리" "RPC connections" "RPC接続管理"
    ∷ entry "저장장치 · 초기 설정" "Storage · Setup" "ストレージ・初期設定"
    ∷ entry "백업 · 복구" "Backup · Restore" "バックアップ・復元"
    ∷ entry "서비스 진단" "Diagnostics" "サービス診断"
    ∷ entry "연결 중" "Connecting" "接続中"
    ∷ entry "노드 요약" "Node summary" "ノード概要"
    ∷ entry "네트워크 · Mempool" "Network · Mempool" "ネットワーク・Mempool"
    ∷ entry "최근 블록" "Recent blocks" "最近のブロック"
    ∷ entry "연결된 피어" "Connected peers" "接続中のピア"
    ∷ entry "시스템 · 서비스" "System · Services" "システム・サービス"
    ∷ entry "수수료" "Fees" "手数料"
    ∷ entry "네트워크" "Network" "ネットワーク"
    ∷ entry "블록 / 헤더" "Blocks / Headers" "ブロック / ヘッダー"
    ∷ entry "검증 진행률" "Verification progress" "検証進捗"
    ∷ entry "초기 동기화 (IBD)" "Initial sync (IBD)" "初期同期 (IBD)"
    ∷ entry "대기" "Waiting" "待機中"
    ∷ entry "진행 중" "In progress" "進行中"
    ∷ entry "완료" "Complete" "完了"
    ∷ []
