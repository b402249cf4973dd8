-- ===== src/I18n/Messages/Policy.antt =====
-- i18n.js, `messages`: the entries of Policy (lines 600 to 747), in the order of the source.
use justverify.Common.{List, [], ◌∷◌}
use justverify.I18n.Entries.{Entry, entry}

unfoldable pub policy : List Entry
policy =
    entry "최소 전파 수수료" "Minimum relay fee" "最小中継手数料"
    ∷ entry "거래 교체 추가 수수료" "Incremental replacement fee" "取引置換追加手数料"
    ∷ entry "Dust 기준 수수료" "Dust relay fee" "Dust基準手数料"
    ∷ entry "데이터베이스 캐시" "Database cache" "データベースキャッシュ"
    ∷ entry "최대 피어 수" "Maximum peers" "最大ピア数"
    ∷ entry "하루 업로드 한도" "Daily upload limit" "1日の送信上限"
    ∷ entry "데이터 출력 전파" "Relay data outputs" "データ出力の中継"
    ∷ entry "데이터 출력 크기" "Data output size" "データ出力サイズ"
    ∷ entry "전체 거래 인덱스" "Full transaction index" "全取引インデックス"
    ∷ entry "블록 필터 인덱스" "Block filter index" "ブロックフィルターインデックス"
    ∷ entry "피어에 블록 필터 제공" "Serve block filters" "ブロックフィルター提供"
    ∷ entry "피어 Bloom 필터" "Peer Bloom filters" "ピアBloomフィルター"
    ∷ entry "로컬 REST API" "Local REST API" "ローカルREST API"
    ∷ entry "Bare multisig 전파" "Relay bare multisig" "Bare multisig中継"
    ∷ entry "비공개 거래 브로드캐스트" "Private transaction broadcast" "プライベート取引送信"
    ∷ entry "내장 ASMAP 사용" "Use embedded ASMAP" "内蔵ASMAPを使用"
    ∷ entry "피어 차단 시간" "Peer ban duration" "ピアのブロック期間"
    ∷ entry "연결 시간 제한" "Connection timeout" "接続タイムアウト"
    ∷ entry "피어 응답 대기" "Peer response timeout" "ピア応答タイムアウト"
    ∷ entry "수신 버퍼" "Receive buffer" "受信バッファ"
    ∷ entry "송신 버퍼" "Send buffer" "送信バッファ"
    ∷ entry "Mempool · 수수료" "Mempool · Fees" "Mempool・手数料"
    ∷ entry "자원 · 인덱스" "Resources · Indexes" "リソース・インデックス"
    ∷ entry "고급" "Advanced" "詳細"
    ∷ entry "Core 옵션 설명" "Core option details" "Coreオプションの説明"
    ∷ entry "기본값 사용" "Use default" "既定値を使用"
    ∷ entry "기본값으로" "Reset to default" "既定値に戻す"
    ∷ entry "이 버전·네트워크에서는 변경 불가" "Not editable on this version/network" "このバージョン・ネットワークでは変更不可"
    ∷ entry "변경 내용 확인" "Review changes" "変更内容を確認"
    ∷ entry "변경한 값은 아직 적용되지 않았습니다. 변경 내용 확인 후 저장하세요."
        "Changes are not applied yet. Review and save them." "変更は未適用です。内容を確認して保存してください。"
    ∷ entry "이전 패치 버전까지 보기" "Show older patch releases" "以前のパッチバージョンも表示"
    ∷ entry "공식 릴리스 안내" "Official release notes" "公式リリース情報"
    ∷ entry "Bitcoin 네트워크" "Bitcoin network" "Bitcoinネットワーク"
    ∷ entry "RPC 지갑 연동용 watch-only 모드" "Watch-only mode for RPC wallets" "RPCウォレット用watch-onlyモード"
    ∷ entry "현재 사용 중인 버전과 모드입니다." "This version and mode are currently active." "現在使用中のバージョンとモードです。"
    ∷ entry "검증된 바이너리 다운로드" "Download verified binary" "検証済みバイナリを取得"
    ∷ entry "이 버전으로 변경 내용 확인" "Review this version change" "このバージョンへの変更を確認"
    ∷ []
