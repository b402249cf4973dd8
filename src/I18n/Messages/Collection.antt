-- ===== src/I18n/Messages/Collection.antt =====
-- i18n.js, `messages`: the entries of Collection (lines 1044 to 1139), in the order of the source.
use justverify.Common.{List, [], ◌∷◌}
use justverify.I18n.Entries.{Entry, entry}

unfoldable pub collection : List Entry
collection =
    entry "확인되지 않은 거래를 mempool에서 보관할 시간입니다."
      "How long unconfirmed transactions remain in the mempool." "未確認取引をmempoolに保持する時間です。"
    ∷ entry "정상 종료 때 mempool을 저장하고 다음 시작 때 다시 읽습니다. 끄면 재시작 후 피어로부터 다시 수집합니다."
        "Save the mempool on clean shutdown and reload it on startup. When disabled, transactions are collected from peers again after restart."
        "正常終了時にmempoolを保存し、次回起動時に読み込みます。無効の場合は再起動後にピアから再収集します。"
    ∷ entry "입력이 아직 확인되지 않은 고아 거래의 저장 개수입니다. Core 30부터 이 옵션은 효력이 없습니다."
        "Number of orphan transactions with missing inputs to keep. This option has no effect from Core 30."
        "入力が見つからない孤立取引を保持する数です。Core 30以降ではこのオプションは無効です。"
    ∷ entry
        "I2P는 별도의 익명 네트워크입니다. 들어오는 연결과 나가는 연결을 각각 선택할 수 있으며, 둘 다 끄면 I2P 라우터도 정지합니다. 시작 후 터널과 피어 연결까지 수 분 걸릴 수 있습니다. Clearnet의 Tor 경유 설정은 I2P에 적용되지 않습니다."
        "I2P is a separate anonymity network. Select incoming and outgoing independently; disabling both stops the router. Tunnels and peers may take several minutes to become ready. Clearnet-over-Tor does not apply to I2P."
        "I2Pは独立した匿名ネットワークです。受信と送信を個別に選択でき、両方をオフにするとルーターも停止します。トンネルとピア接続には数分かかる場合があります。ClearnetのTor経由設定はI2Pには適用されません。"
    ∷ entry "오래된 블록 정리 (Pruning)" "Prune old blocks" "古いブロックの削除（Pruning）"
    ∷ entry
        "현재 구성: 0 · 전체 블록 보관. 포함된 electrs는 pruned Core에 연결할 수 없으므로 이 구성에서는 켤 수 없습니다. txindex·txospenderindex와도 호환되지 않습니다."
        "Current setting: 0 · Keep all blocks. Bundled electrs cannot connect to pruned Core, so pruning is unavailable in this configuration. It also conflicts with txindex and txospenderindex."
        "現在の設定：0・全ブロックを保持。同梱のelectrsはpruned Coreに接続できないため、この構成では有効にできません。txindex・txospenderindexとも併用できません。"
    ∷ entry "electrs와 호환되지 않음" "Incompatible with electrs" "electrsと非互換"
    ∷ entry "maxorphantx는 Core 30에서 효력이 없어졌고 Core 31에서 제거되었습니다. 이 버전에서는 설정하지 않습니다."
        "maxorphantx became ineffective in Core 30 and was removed in Core 31. It is not configured on this version."
        "maxorphantxはCore 30で無効になり、Core 31で削除されました。このバージョンでは設定しません。"
    ∷ entry "○ Core 연결 확인 필요" "○ Check Core connection" "○ Core接続を確認"
    ∷ entry "○ 상태 갱신 지연" "○ Status update delayed" "○ 状態更新が遅延"
    ∷ entry "○ 기기 응답 확인 중" "○ Waiting for device response" "○ デバイスの応答を確認中"
    ∷ entry "Core의 첫 상태 응답을 기다리고 있습니다." "Waiting for the first Core status response."
        "Coreの最初の状態応答を待っています。"
    ∷ entry "Core RPC에 연결하지 못했습니다. 아래는 마지막 수집 데이터입니다."
        "Cannot connect to Core RPC. The last collected data is shown below."
        "Core RPCに接続できません。以下は最後に取得したデータです。"
    ∷ entry "Core 상태 응답이 지연되고 있습니다. 아래는 마지막 수집 데이터이며 자동으로 다시 확인합니다."
        "Core status is delayed. The last collected data is shown below; checking again automatically."
        "Coreの状態応答が遅延しています。以下は最後に取得したデータです。自動で再確認します。"
    ∷ entry "블록 목록 갱신 지연 · 이전에 확인한 블록입니다." "Block list update delayed · Previously verified blocks."
        "ブロック一覧の更新が遅延・以前に確認したブロックです。"
    ∷ entry "초기 동기화 중 · 블록 목록은 15초 간격으로 갱신합니다."
        "Initial sync · Block list sampled every 15 seconds." "初期同期中・ブロック一覧は15秒間隔で更新します。"
    ∷ entry "새 블록 목록을 갱신하고 있습니다." "Updating the block list." "ブロック一覧を更新中です。"
    ∷ entry "채굴 풀 확인 중" "Checking mining pool" "マイニングプールを確認中"
    ∷ entry "블록 크기·채굴 풀을 확인하고 있습니다." "Loading block sizes and mining pools."
        "ブロックサイズとマイニングプールを確認しています。"
    ∷ entry "블록 상세 정보를 갱신하고 있습니다." "Updating block details." "ブロックの詳細を更新しています。"
    ∷ entry "초기 동기화 중 · 상세 정보 확인 후 목록을 갱신합니다."
        "Initial sync · The list updates when block details are ready."
        "初期同期中・ブロックの詳細を確認してから一覧を更新します。"
    ∷ entry "일부 블록 상세 정보의 조회가 지연되고 있습니다. 자동으로 다시 확인합니다."
        "Some block details are delayed. Retrying automatically." "一部のブロック詳細の取得が遅れています。自動で再確認します。"
    ∷ entry "조회 지연" "Lookup delayed" "取得遅延"
    ∷ entry "기기 응답이 지연되고 있습니다. 자동으로 다시 연결합니다."
        "Device response is delayed. Reconnecting automatically." "デバイスの応答が遅延しています。自動で再接続します。"
    ∷ []
