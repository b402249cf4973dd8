-- ===== src/Overview/Rows.antt =====
-- dashboard.js, render: the rows of numbers of the other panels.
use Prim.Native.String.{◌++◌}
use justverify.Common.{
  ℕ, String, Option, none, some, List, [], ◌∷◌, map, Bool, true, false, if◌then◌else◌,
}
use justverify.Electrs.{Status, rows as electrs_rows}
use justverify.Format.{text, fmt, bytes, duration}
use justverify.I18n.Strings.{equals}

-- One row: its label and its value; `rows` passes both through `text`.
unfoldable pub rows : List (String × Option String) → List (String × String)
unfolding text
rows [] = []
rows ((label, value) ∷ es) = (text (some label), text value) ∷ rows es

pub record Disk : Type 0 where
  pub mount : String
  pub available : Option ℕ

-- The fields of a snapshot. `N` are the numbers with a fraction.
pub record Fields (N : Type 0) : Type 0 where
  pub subversion : Option String
  pub chain : Option String
  pub blocks : Option ℕ
  pub headers : Option ℕ
  pub verificationprogress : Option N
  pub initialblockdownload : Option Bool
  pub size_on_disk : Option ℕ
  pub uptime : Option ℕ
  pub connections : Option ℕ
  pub connections_in : Option ℕ
  pub connections_out : Option ℕ
  pub totalbytesrecv : Option ℕ
  pub totalbytessent : Option ℕ
  pub mempool_size : Option ℕ
  pub mempool_bytes : Option ℕ
  pub feerate : Option N
  pub mempoolminfee : Option N
  pub minrelaytxfee : Option N
  pub used_memory_mib : Option ℕ
  pub total_memory_mib : Option ℕ
  pub disks : List Disk
  pub electrs : Status

abbrev pub download_text : Option Bool → String
download_text none = "대기"
download_text (some true) = "진행 중"
download_text (some false) = "완료"

-- `find(d => d.mount === '/srv/justverify/data')`
unfoldable pub data_disk : List Disk → Option Disk
unfolding equals
data_disk [] = none
data_disk (d ∷ ds) = if equals d.mount "/srv/justverify/data" then some d else data_disk ds

abbrev pub disk_text : Option Disk → String
disk_text none = "—"
disk_text (some d) = bytes d.available

-- `percent x` is `(x * 100).toFixed(3)`, `per_kvb x` is `(x * 100000).toFixed(3)`, and `ratio` is as in
-- electrs_status.js.
module _ {N : Type 0} (percent per_kvb : N → String) (ratio : ℕ → ℕ → ℕ) where
  abbrev pub progress_text : Option N → String
  progress_text none = "—"
  progress_text (some x) = percent x ++ "%"

  abbrev pub fee : Option N → String
  fee none = "추정 불가"
  fee (some x) = per_kvb x

  abbrev pub summary_data : Fields N → List (String × Option String)
  summary_data f =
      ("버전", f.subversion)
      ∷ ("네트워크", f.chain)
      ∷ ("블록 / 헤더", some (fmt f.blocks ++ " / " ++ fmt f.headers))
      ∷ ("검증 진행률", some (progress_text f.verificationprogress))
      ∷ ("초기 동기화 (IBD)", some (download_text f.initialblockdownload))
      ∷ ("체인 용량", some (bytes f.size_on_disk))
      ∷ ("기기 가동 시간", some (duration f.uptime))
      ∷ []

  abbrev pub network_data : Fields N → List (String × Option String)
  network_data f =
      ("연결된 피어", some (fmt f.connections))
      ∷ ("들어옴 / 나감", some (fmt f.connections_in ++ " / " ++ fmt f.connections_out))
      ∷ ("수신 / 송신", some (bytes f.totalbytesrecv ++ " / " ++ bytes f.totalbytessent))
      ∷ ("미확인 거래", some (fmt f.mempool_size ++ " tx"))
      ∷ ("Mempool 크기", some (bytes f.mempool_bytes))
      ∷ []

  abbrev pub fees_data : Fields N → List (String × Option String)
  fees_data f =
      ("6블록 이내 추정", some (fee f.feerate))
      ∷ ("Mempool 최저", some (fee f.mempoolminfee))
      ∷ ("Relay 최저", some (fee f.minrelaytxfee))
      ∷ []

  abbrev pub some_value : String × String → String × Option String
  some_value (label, value) = (label, some value)

  abbrev pub system_data : Fields N → ℕ → List (String × Option String)
  system_data f now =
      ("메모리", some (fmt f.used_memory_mib ++ " / " ++ fmt f.total_memory_mib ++ " MiB"))
      ∷ ("데이터 여유 공간", some (disk_text (data_disk f.disks)))
      ∷ map some_value (electrs_rows ratio f.electrs now)

  -- The four panels of rows.
  unfoldable pub panels : Fields N → ℕ → List (List (String × String))
  unfolding rows bytes duration electrs_rows data_disk
  panels f now =
      rows (summary_data f)
      ∷ rows (network_data f)
      ∷ rows (fees_data f)
      ∷ rows (system_data f now)
      ∷ []
