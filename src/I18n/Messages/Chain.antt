-- ===== src/I18n/Messages/Chain.antt =====
-- i18n.js, `messages`: the entries of Chain (lines 160 to 307), in the order of the source.
use justverify.Common.{List, [], ◌∷◌}
use justverify.I18n.Entries.{Entry, entry}

unfoldable pub chain : List Entry
chain =
    entry "체인 용량" "Chain size" "チェーン容量"
    ∷ entry "기기 가동 시간" "Device uptime" "稼働時間"
    ∷ entry "들어옴 / 나감" "Inbound / Outbound" "受信 / 送信"
    ∷ entry "수신 / 송신" "Received / Sent" "受信量 / 送信量"
    ∷ entry "미확인 거래" "Unconfirmed transactions" "未承認取引"
    ∷ entry "Mempool 크기" "Mempool size" "Mempoolサイズ"
    ∷ entry "추정 불가" "Unavailable" "推定不可"
    ∷ entry "6블록 이내 추정" "Estimate within 6 blocks" "6ブロック以内の推定"
    ∷ entry "Mempool 최저" "Mempool minimum" "Mempool最低値"
    ∷ entry "Relay 최저" "Relay minimum" "中継最低値"
    ∷ entry "메모리" "Memory" "メモリ"
    ∷ entry "데이터 여유 공간" "Data space available" "データ空き容量"
    ∷ entry "인덱스 높이" "Index height" "インデックス高"
    ∷ entry "연결 대기 · Core 초기 동기화 중" "Waiting · Core initial sync" "待機中・Core初期同期中"
    ∷ entry "현재 연결이 끊겼습니다. 아래 값은 마지막 수집 데이터입니다."
        "Disconnected. Values below are the last collected data." "接続が切れました。以下は最後に取得したデータです。"
    ∷ entry "Core에 연결하는 중입니다. 초기 시작 상태는 위 안내에서 확인하세요."
        "Connecting to Core. Startup status is shown above." "Coreに接続中です。起動状態は上の案内をご確認ください。"
    ∷ entry "이전 블록 정보 · 현재 tip 확인 불가" "Previous block data · current tip unavailable"
        "以前のブロック情報・現在のtipは未確認"
    ∷ entry "첫 블록 정보를 기다리고 있습니다." "Waiting for the first block data." "最初のブロック情報を待っています。"
    ∷ entry "현재 연결된 피어가 없습니다." "No peers connected." "接続中のピアはありません。"
    ∷ entry "Core 연결 후 피어가 표시됩니다." "Peers will appear when Core connects." "Core接続後にピアを表示します。"
    ∷ entry "○ 연결 끊김" "○ Disconnected" "○ 切断"
    ∷ entry "○ 연결 확인 필요" "○ Check connection" "○ 接続を確認"
    ∷ entry "로컬 네트워크" "Local network" "ローカルネットワーク"
    ∷ entry "지갑과 이 노드가 같은 네트워크에 있으면 로컬 네트워크를 선택하세요."
        "Choose Local network when your wallet and node share a network."
        "ウォレットとノードが同じネットワークの場合はローカルネットワークを選択してください。"
    ∷ entry "연결 주소" "Connection address" "接続アドレス"
    ∷ entry "주소 QR · 암호 포함 없음" "Address QR · no password" "アドレスQR・パスワードなし"
    ∷ entry "QR 이미지 저장" "Save QR image" "QR画像を保存"
    ∷ entry "접속 방식" "Connection type" "接続方式"
    ∷ entry "프로토콜" "Protocol" "プロトコル"
    ∷ entry "포트" "Port" "ポート"
    ∷ entry "사용 · 지갑에서 SSL/TLS 선택" "Enabled · select SSL/TLS in wallet" "有効・ウォレットでSSL/TLSを選択"
    ∷ entry "사용 안 함 · Tor 전송" "Disabled · transport through Tor" "無効・Tor経由の通信"
    ∷ entry "같은 LAN의 지갑에서 SSL/TLS를 선택하고 기기 인증서를 확인하세요."
        "Select SSL/TLS in your LAN wallet and verify the device certificate."
        "同じLANのウォレットでSSL/TLSを選択し、証明書を確認してください。"
    ∷ entry "지갑에서 Tor를 활성화하거나 Tor SOCKS 프록시를 설정하세요."
        "Enable Tor or configure a Tor SOCKS proxy in your wallet."
        "ウォレットでTorまたはTor SOCKSプロキシを設定してください。"
    ∷ entry "연결 정보를 확인하는 중…" "Checking connection details…" "接続情報を確認中…"
    ∷ entry "Core 초기 동기화 중 · electrs와 지갑 연결 준비는 동기화가 끝난 뒤 확인하세요."
        "Core initial sync · check electrs and wallet readiness after sync finishes."
        "Core初期同期中・同期完了後にelectrsとウォレットの接続状態を確認してください。"
    ∷ entry "electrs 인덱싱·연결 대기 · 아래 주소는 설정된 주소이며, 아직 지갑 연결 준비가 확인되지 않았습니다."
        "electrs indexing or connection pending · configured addresses below are not yet confirmed ready."
        "electrsの索引作成・接続待機中。以下の設定アドレスは接続準備が未確認です。"
    ∷ []
