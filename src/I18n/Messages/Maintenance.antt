-- ===== src/I18n/Messages/Maintenance.antt =====
-- i18n.js, `messages`: the entries of Maintenance (lines 896 to 1043), in the order of the source.
use justverify.Common.{List, [], ◌∷◌}
use justverify.I18n.Entries.{Entry, entry}

unfoldable pub maintenance : List Entry
maintenance =
    entry "저장장치 관리 열기" "Open storage management" "ストレージ管理を開く"
    ∷ entry "고급 · 저장장치 관리" "Advanced · Storage management" "詳細設定・ストレージ管理"
    ∷ entry "설정과 연결 정보를 암호화하여 보관합니다."
        "Keep an encrypted copy of settings and connection information." "設定と接続情報を暗号化して保管します。"
    ∷ entry "노드 연결 상태와 고급 저장장치 관리를 확인합니다." "Check node connections and advanced storage tools."
        "ノードの接続状態とストレージの詳細管理を確認します。"
    ∷ entry "NVMe는 첫 부팅 때 자동으로 준비됩니다. 설치 중단 복구나 별도 데이터 디스크를 관리할 때만 사용하세요."
        "NVMe setup runs automatically on first boot. Use these tools only to recover an interrupted setup or manage a separate data disk."
        "NVMeは初回起動時に自動で準備されます。中断したセットアップの復旧や別のデータディスクの管理に使用します。"
    ∷ entry "내 Core의 RPC 응답과 마지막 수집 오류를 확인합니다."
        "View local Core RPC responses and the latest collection errors."
        "ローカルCoreのRPC応答と最新の収集エラーを確認します。"
    ∷ entry "고급 관리 화면입니다. 정상 작동하는 NVMe는 다시 초기화할 필요가 없습니다."
        "Advanced management. A working NVMe does not need to be initialized again."
        "詳細管理画面です。正常に動作するNVMeの再初期化は不要です。"
    ∷ entry "설정과 연결 정보를 암호화하여 백업하거나 복원합니다. 블록체인 전체와 지갑 개인키는 포함하지 않습니다."
        "Back up or restore encrypted settings and connection information. The full blockchain and wallet private keys are not included."
        "設定と接続情報を暗号化してバックアップ・復元します。ブロックチェーン全体とウォレット秘密鍵は含まれません。"
    ∷ entry "알 수 없음" "Unknown" "不明"
    ∷ entry "조회 불가" "Unavailable" "取得不可"
    ∷ entry "식별 불확실" "Ambiguous" "識別不確実"
    ∷ entry "보상 거래의 태그·주소로 추정한 채굴 풀입니다. 실제 채굴자 신원을 보증하지 않습니다."
        "Pool inferred from coinbase tags or reward addresses. This does not prove the actual miner’s identity."
        "コインベースのタグや報酬アドレスから推定したプールです。採掘者の身元を保証するものではありません。"
    ∷ entry "블록의 보상 거래에서 채굴 풀을 식별하지 못했습니다."
        "Could not identify the mining pool from this block’s coinbase transaction."
        "このブロックのコインベースからマイニングプールを識別できませんでした。"
    ∷ entry "주소 복사" "Copy address" "アドレスをコピー"
    ∷ entry "복사됨" "Copied" "コピーしました"
    ∷ entry "자동 복사가 지원되지 않습니다. 선택된 주소를 복사하세요."
        "Automatic copying is unavailable. Copy the selected address."
        "自動コピーを利用できません。選択されたアドレスをコピーしてください。"
    ∷ entry "로그인은 7일간 유지되며, 사용 중에는 자동 연장됩니다. 공용 기기에서는 사용 후 로그아웃하세요."
        "Stay signed in for 7 days, renewed while in use. Log out after using a shared device."
        "ログインは7日間保持され、使用中は自動延長されます。共有デバイスでは使用後にログアウトしてください。"
    ∷ entry "OP_RETURN 데이터 거래 전파" "Relay OP_RETURN data transactions" "OP_RETURNデータ取引の中継"
    ∷ entry "OP_RETURN 허용 크기" "OP_RETURN size limit" "OP_RETURNサイズ上限"
    ∷ entry "블록 템플릿 최소 수수료" "Minimum block template fee" "ブロックテンプレートの最小手数料"
    ∷ entry "최대 고아 거래 수" "Maximum orphan transactions" "孤立取引の最大数"
    ∷ entry "거래 출력 소비 인덱스" "Transaction output spender index" "取引出力の使用先インデックス"
    ∷ entry "최적화" "Optimization" "最適化"
    ∷ entry "인덱스 · 서비스" "Indexes · Services" "インデックス・サービス"
    ∷ entry "Core 기본값으로" "Reset to Core default" "Coreの既定値に戻す"
    ∷ entry "효력 없는 설정 제거" "Remove ineffective setting" "無効な設定を削除"
    ∷ entry "OP_RETURN 전파를 켜면 크기를 변경할 수 있습니다." "Enable OP_RETURN relay to change the size limit."
        "OP_RETURNの中継を有効にするとサイズ上限を変更できます。"
    ∷ entry
        "OP_RETURN 데이터 출력을 포함한 미확인 거래의 로컬 수용·전파를 허용합니다. 끄더라도 유효한 블록은 검증하며, 모든 종류의 임의 데이터를 차단하는 기능은 아닙니다."
        "Accept and relay unconfirmed transactions with OP_RETURN data outputs. Valid blocks are still verified when disabled. This does not block every form of arbitrary data."
        "OP_RETURNデータ出力を含む未確認取引をローカルで受け入れ、中継します。無効でも有効なブロックは検証します。任意データのすべての形式を遮断する機能ではありません。"
    ∷ entry
        "한 거래에 있는 OP_RETURN 출력 스크립트의 합계 한도입니다. 여러 출력을 허용하며 Core 30부터 Core 기본값은 100,000 bytes입니다. JustVerify 기본값은 83 bytes이며, 전파가 꺼져 있으면 적용되지 않습니다."
        "Combined OP_RETURN output script size per transaction. Multiple outputs are allowed; Core 30 and later default to 100,000 bytes. JustVerify defaults to 83 bytes; inactive when data relay is disabled."
        "取引内のOP_RETURN出力スクリプトの合計上限です。複数出力に対応し、Core 30以降の既定値は100,000 bytesです。JustVerifyの初期値は83 bytesで、データ中継が無効な間は適用されません。"
    ∷ entry "OP_RETURN 출력 스크립트의 크기 한도입니다. 기본값은 83 bytes이며, 전파가 꺼져 있으면 적용되지 않습니다."
        "OP_RETURN output script size limit. The default is 83 bytes; inactive when data relay is disabled."
        "OP_RETURN出力スクリプトのサイズ上限です。初期値は83 bytesで、データ中継が無効な間は適用されません。"
    ∷ entry "UTXO 데이터베이스 캐시의 RAM 상한입니다. 초기 동기화에 도움이 될 수 있으며, 미사용 mempool 메모리가 추가로 공유될 수 있습니다."
        "RAM limit for the UTXO database cache. It can help initial sync; unused mempool memory may also be shared with the cache."
        "UTXOデータベースキャッシュのRAM上限です。初期同期に役立つ場合があります。未使用のmempoolメモリもキャッシュと共有されることがあります。"
    ∷ entry
        "전체 거래 조회용 인덱스입니다. JustVerify는 멤풀 앱을 위해 최초 설정에서 켭니다. 끄면 멤풀 앱의 준비·거래 조회가 제한되며 기존 인덱스 파일은 삭제되지 않습니다."
        "Full transaction lookup index. JustVerify enables it at setup for the Mempool app. Disabling it limits app readiness and transaction lookups; existing index files are retained."
        "全取引の検索用インデックスです。JustVerifyはMempoolアプリのため初回設定で有効にします。無効にするとアプリの準備と取引検索が制限されます。既存のインデックスファイルは保持します。"
    ∷ entry "확인된 거래 출력을 소비한 거래를 조회하는 인덱스입니다. Core 31부터 지원하며 추가 디스크 공간과 인덱싱 시간이 필요합니다."
        "Find transactions spending confirmed outputs. Available from Core 31; requires additional disk space and indexing time."
        "確認済み出力を使用した取引を検索します。Core 31以降に対応し、追加のディスク容量とインデックス作成時間が必要です。"
    ∷ entry "미확인 거래 저장에 사용할 RAM 상한입니다. 단위는 MB(1,000,000 bytes)이며 UTXO 캐시와 별개입니다."
        "RAM limit for unconfirmed transactions, in MB (1,000,000 bytes). Separate from the UTXO cache."
        "未確認取引を保存するRAMの上限です。単位はMB（1,000,000 bytes）で、UTXOキャッシュとは別です。"
    ∷ entry "내 노드가 만드는 블록 템플릿에 포함할 거래의 최소 수수료입니다. 거래 전파 수수료와 별개입니다."
        "Minimum fee for transactions in block templates produced by this node. Separate from the relay fee."
        "このノードが作成するブロックテンプレートに含める取引の最小手数料です。中継手数料とは別です。"
    ∷ entry "로컬 mempool 수용·전파의 최소 수수료입니다. 교체 추가 수수료도 함께 검토하세요."
        "Minimum fee for local mempool acceptance and relay. Also review the incremental replacement fee."
        "ローカルmempoolでの受入と中継の最小手数料です。取引置換の追加手数料も合わせて確認してください。"
    ∷ entry "거래 교체에 필요한 추가 수수료율입니다. 최소 전파 수수료와 함께 검토하세요."
        "Additional fee rate required for transaction replacement. Review it alongside the minimum relay fee."
        "取引の置換に必要な追加手数料率です。最小中継手数料と合わせて確認してください。"
    ∷ []
