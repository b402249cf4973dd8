-- ===== src/I18n/Messages/Notices.antt =====
-- i18n.js, `messages`: the entries of Notices (lines 4 to 30), in the order of the source.
use justverify.Common.{List, [], ◌∷◌}
use justverify.I18n.Entries.{Entry, entry}

unfoldable pub notices : List Entry
notices =
    entry "Digital Rain 배경" "Digital Rain background" "Digital Rainの背景"
    ∷ entry "제네시스 블록의 헥사코드가 배경에서 흐릅니다."
        "The genesis block's hexadecimal data flows in the background." "ジェネシスブロックの16進データが背景を流れます。"
    ∷ entry "밝기" "Brightness" "明るさ"
    ∷ entry "속도" "Speed" "速度"
    ∷ entry "밀도" "Density" "密度"
    ∷ entry "미리보기 후 저장하세요. 기기의 동작 줄이기 설정에서는 정적으로 표시됩니다."
        "Preview your changes, then save. Reduced motion shows a static background."
        "プレビューしてから保存してください。視差効果を減らす設定では静止表示になります。"
    ∷ entry "블록 인덱싱 중" "Indexing blocks" "ブロックのインデックス作成中"
    ∷ entry "DB 정리 중" "Finalizing database" "DB整理中"
    ∷ entry "최신 블록 반영 중" "Catching up to latest blocks" "最新ブロックを反映中"
    ∷ entry "Electrum 수신 연결 오류" "Electrum listener error" "Electrum待受接続エラー"
    ∷ entry "파일·소켓 한도 오류" "File/socket limit error" "ファイル・ソケット上限エラー"
    ∷ entry "블록 크기·채굴 풀은 초기 동기화 완료 후 표시합니다."
        "Block sizes and mining pools appear after initial synchronization."
        "ブロックサイズとマイニングプールは初期同期完了後に表示されます。"
    ∷ entry "TCP · SSL 끄기 (기본)" "TCP · SSL off (default)" "TCP · SSLオフ（標準）"
    ∷ entry "TLS · SSL 켜기 (선택)" "TLS · SSL on (optional)" "TLS · SSLオン（任意）"
    ∷ entry "사용 안 함 · 지갑에서 SSL/TLS 끄기" "Off · disable SSL/TLS in your wallet"
        "不使用 · ウォレットのSSL/TLSをオフ"
    ∷ entry "SSL/TLS를 켜고 기기 인증서를 확인하세요. 인증서는 자동 갱신되지 않습니다."
        "Enable SSL/TLS and verify the device certificate. Certificates do not renew automatically."
        "SSL/TLSをオンにして端末の証明書を確認してください。証明書は自動更新されません。"
    ∷ entry "SSL/TLS를 끄세요. 인증서가 필요하지 않습니다. 암호화되지 않으므로 신뢰하는 로컬 네트워크에서만 사용하세요."
        "Disable SSL/TLS. No certificate is required. Use only on a trusted local network: this connection is not encrypted."
        "SSL/TLSをオフにしてください。証明書は不要です。暗号化されないため、信頼できるローカルネットワークでのみ使用してください。"
    ∷ entry "인덱스 정리 중" "Finalizing index" "インデックス整理中"
    ∷ entry "지갑·watch-only 정보: 지갑 데이터가 있는 버전 전환은 삭제 전에 차단합니다."
        "Wallet/watch-only data (transitions containing wallets are blocked)"
        "ウォレット・watch-only情報：ウォレットデータがある場合、削除前にバージョン変更を中止します。"
    ∷ entry "RPC 인증정보, Tor/I2P 개인키, 기기·접속 설정"
        "RPC authentication, Tor/I2P identities and device/access settings"
        "RPC認証情報、Tor/I2P秘密鍵、端末・接続設定"
    ∷ entry "다른 네트워크, 무관한 프로필, 과거 버전별 폴더"
        "Other networks, unrelated profiles and historical version folders"
        "他のネットワーク、無関係なプロファイル、過去のバージョン別フォルダー"
    ∷ entry
        "Bitcoin 전체 IBD와 electrs 인덱싱이 필요합니다. 재시작 중에는 노드·Electrs·멤풀을 사용할 수 없으며 동기화 중에는 이용이 제한됩니다."
        "Full Bitcoin IBD and electrs indexing are required. Node, Electrs and Mempool are unavailable during restart and limited during synchronization."
        "Bitcoinの完全なIBDとelectrsのインデックス作成が必要です。再起動中はノード・Electrs・Mempoolを利用できず、同期中は利用が制限されます。"
    ∷ entry "삭제 후 즉시 되돌릴 수 없습니다. 삭제가 시작된 뒤 실패해도 이전 바이너리로 자동 복귀하지 않습니다."
        "Deletion cannot be immediately undone. A failure after deletion never automatically starts the previous binary."
        "削除後はすぐに元に戻せません。削除開始後に失敗しても以前のバイナリへ自動復帰しません。"
    ∷ entry "Core와 electrs의 현재 디렉토리 경로를 그대로 사용합니다. 과거 대상 버전 폴더는 재사용하거나 정리하지 않습니다."
        "Core and electrs retain the SAME directory paths. Historical target-version folders are not reused or cleaned."
        "Coreとelectrsの現在のディレクトリパスをそのまま使用します。過去の変更先バージョンのフォルダーは再利用・削除しません。"
    ∷ entry "네트워크·노드 모드 변경은 기존 프로필을 보존하며 체인 데이터를 초기화하지 않습니다."
        "Network/mode selection preserves existing profiles; it does not reset chain data."
        "ネットワーク・ノードモードの変更では既存プロファイルを保持し、チェーンデータを初期化しません。"
    ∷ entry "현재 프로필에서 아래 체인·인덱스 데이터만 삭제한 뒤, 검증된 대상 버전을 시작하고 처음부터 동기화합니다."
        "Delete allowlisted chain/index data in the active profile, then start the verified target version and synchronize from genesis."
        "現在のプロファイル内の以下のチェーン・インデックスデータだけを削除し、検証済みの変更先バージョンで最初から同期します。"
    ∷ entry "체인 데이터를 삭제하지 않고 별도의 네트워크·노드 모드 프로필을 선택합니다."
        "Select a separate network/mode profile without deleting chain data."
        "チェーンデータを削除せずに別のネットワーク・ノードモードのプロファイルを選択します。"
    ∷ entry "체인 데이터 초기화 경고" "Chain data reset warning" "チェーンデータ初期化の警告"
    ∷ entry "버전 변경 확인" "Review version change" "バージョン変更の確認"
    ∷ entry "삭제 대상 · 현재/대상 프로필이 같은 경로를 사용합니다."
        "Delete scope · Current and target profiles use the same paths."
        "削除範囲 · 現在と変更先のプロファイルは同じパスを使用します。"
    ∷ entry "보존 대상" "Preserved data" "保持されるデータ"
    ∷ entry "데이터 삭제 후 버전 변경" "Delete data and change version" "データを削除してバージョンを変更"
    ∷ entry "삭제 범위를 확인하세요. 취소가 기본 선택입니다."
        "Review the deletion scope. Cancel is selected by default." "削除範囲を確認してください。初期選択はキャンセルです。"
    ∷ entry "대상 버전 시작을 확인했습니다. IBD와 electrs 인덱싱 완료 여부는 현황에서 확인하세요."
        "The target version has started. Check the dashboard for IBD and electrs indexing progress."
        "変更先のバージョンが起動しました。IBDとelectrsのインデックス進捗はダッシュボードで確認してください。"
    ∷ entry "변경이 완료되지 않았습니다. 복구 상태를 확인하세요." "The change is incomplete. Check recovery status."
        "変更は完了していません。復旧状態を確認してください。"
    ∷ entry
        "다른 버전으로 변경하면 현재 경로의 체인 데이터와 electrs 인덱스를 삭제하고 처음부터 동기화합니다. 선택하거나 다운로드하는 것만으로는 변경되지 않습니다."
        "Changing versions deletes chain data and the electrs index at the current paths and starts a full resync. Selecting or downloading a version makes no changes."
        "バージョンを変更すると現在のパスのチェーンデータとelectrsインデックスが削除され、最初から同期します。選択やダウンロードだけでは変更されません。"
    ∷ entry "자동 (브라우저 언어)" "Automatic (browser language)" "自動（ブラウザーの言語）"
    ∷ entry "동기화 중" "Syncing" "同期中"
    ∷ entry "응답 대기" "Waiting for response" "応答待ち"
    ∷ entry "응답 대기 · 자동 재확인" "Waiting for response · retrying automatically" "応答待ち・自動再確認中"
    ∷ entry "연결 준비 확인 중" "Checking connection readiness" "接続準備を確認中"
    ∷ entry "상태갱신 지연" "Status update delayed" "状態更新の遅延"
    ∷ entry "동기화 완료" "Synced" "同期完了"
    ∷ entry "참고값 초기화" "Reset saved preference" "参考値をリセット"
    ∷ entry "Clearnet은 IPv4와 IPv6를 함께 제어합니다." "Clearnet controls IPv4 and IPv6 together."
        "ClearnetはIPv4とIPv6をまとめて制御します。"
    ∷ entry "기존 Clearnet 설정은 IPv4·IPv6 중 일부만 사용합니다. 토글을 누르면 둘을 함께 설정합니다."
        "The saved Clearnet setting uses only one IP family. The toggle sets both together."
        "保存済みのClearnet設定は片方のIPのみを使用しています。トグルで両方をまとめて設定します。"
    ∷ entry "현재 Core에 적용되지 않음" "Not applied to the current Core" "現在のCoreには適用されません"
    ∷ entry "임의 데이터가 포함된 거래 전파" "Relay Transactions Containing Arbitrary Data" "任意データを含む取引の中継"
    ∷ entry "거래 내 임의 데이터의 최대 허용 크기" "Max Allowed Size of Arbitrary Data in Transactions"
        "取引内の任意データの最大許容サイズ"
    ∷ entry "Core 30에서는 효력이 없고 Core 31에서 제거되었습니다. 입력값은 참고용으로 저장되며 현재 Core에는 적용되지 않습니다."
        "Core 30 ignores this option and Core 31 removed it. The value is saved as a preference and is not applied to the current Core."
        "Core 30では無効となり、Core 31で削除されました。入力値は参考用として保存され、現在のCoreには適用されません。"
    ∷ entry "부모 거래의 입력을 아직 찾지 못한 고아 거래의 최대 저장 개수입니다."
        "Maximum stored orphan transactions whose parent inputs are not yet available."
        "親取引の入力がまだ見つからない孤立取引の最大保存件数です。"
    ∷ entry "JustVerify 기본값으로" "Reset to JustVerify default" "JustVerifyの初期値に戻す"
    ∷ entry "bitcoin.conf 직접 편집" "Edit bitcoin.conf" "bitcoin.confを編集"
    ∷ entry "설정 파일 변경 내용 확인" "Review configuration changes" "設定ファイルの変更を確認"
    ∷ entry "설정을 잘못 변경하면 노드와 연결된 앱이 작동하지 않을 수 있습니다. 저장 전 검사 후 Core를 재시작하며, 시작에 실패하면 이전 설정으로 복구합니다."
        "Incorrect settings can stop the node and connected apps. Changes are checked before Core restarts; a failed start restores the previous configuration."
        "誤った設定でノードや接続アプリが動作しなくなる場合があります。保存前に検査してCoreを再起動し、起動に失敗した場合は前の設定に戻します。"
    ∷ entry
        "아래는 Core가 읽는 정책 설정입니다. 수수료는 BTC/kvB 단위를 사용합니다. 저장하면 다른 탭의 해당 설정도 바뀝니다. 다른 탭의 미저장 변경은 포함되지 않습니다."
        "These are the policy options read by Core. Fees use BTC/kvB. Saving also updates the corresponding controls in other tabs. Unsaved edits in other tabs are not included."
        "Coreが読み込むポリシー設定です。手数料の単位はBTC/kvBです。保存すると他のタブの該当設定も変わります。他のタブの未保存の変更は含まれません。"
    ∷ entry
        "RPC 인증·공개 범위, 데이터 경로, 네트워크와 서비스 포트는 보호됩니다. 네트워크는 전용 탭에서 변경하세요. 지원되는 정책 옵션과 debug / debugexclude를 편집할 수 있습니다. 주석과 공백은 저장할 때 정리됩니다."
        "RPC access, data paths, networks and service ports are protected. Use the network tab for network settings. Supported policy options and debug / debugexclude can be edited here. Comments and spacing are normalized on save."
        "RPCアクセス、データパス、ネットワーク、サービスポートは保護されています。ネットワークは専用タブで変更してください。対応するポリシーとdebug / debugexcludeを編集できます。コメントと空白は保存時に整形されます。"
    ∷ []
